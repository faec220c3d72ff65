-- ===== src/Status.antt =====
-- signal_protocol.h: the error codes, and the outcome of a fallible C function. A function that
-- returns a negative code is `err`, one that returns 0 or more is `ok` with what it writes through
-- its out parameters. Every `if(result < 0) goto complete;` is a bind.
use rn_signal_protocol_messa.Base.{
  ℕ, ◌≡◌, refl, Bool, true, false, ◌⊎◌, inl, inr, Option, none, some,
}

-- The negative codes. `other n` is the code `-n` of a callback that the client supplies, where it is
-- none of the named ones.
pub data Error : Type 0 where
  nomem inval unknown duplicate_message invalid_key invalid_key_id invalid_mac : Error
  invalid_message invalid_version legacy_message no_session stale_key_exchange : Error
  untrusted_identity vrf_sig_verif_failed invalid_proto_buf fp_version_mismatch : Error
  fp_ident_mismatch : Error
  other : ℕ → Error

pub data Result {ℓ} (A : Type ℓ) : Type ℓ where
  ok : A → Result A
  err : Error → Result A

-- An early return with an error when the test fails.
abbrev pub guard : Bool → Error → Result (Unit {0})
guard false e = err e
guard true e = ok tt

-- A pointer that must not be null.
abbrev pub required {ℓ} : {A : Type ℓ} → Option A → Error → Result A
required none e = err e
required (some a) e = ok a

pub ok_injective {ℓ} : {A : Type ℓ} {a b : A} → ok a ≡ ok b → a ≡ b
ok_injective h = cc

-- To split on an outcome and keep the equation.
pub Result-cases {ℓ} :
    {A : Type ℓ} (r : Result A) → ((a : A) × (r ≡ ok a)) ⊎ ((e : Error) × (r ≡ err e))
Result-cases (ok a) = inl (a, refl)
Result-cases (err e) = inr (e, refl)

infixl 5 ◌>>=◌
abbrev pub ◌>>=◌ {ℓ ℓ'} : {B : Type ℓ'} {A : Type ℓ} → Result A → (A → Result B) → Result B
err code >>= next = err code
ok value >>= next = next value

-- The value behind a bind that came out `ok`.
pub >>=-eq-ok {ℓ ℓ'} :
    {B : Type ℓ'} {A : Type ℓ} {out : B} (first : Result A) (next : A → Result B)
    → (first >>= next) ≡ ok out
    → (value : A) × (first ≡ ok value) × (next value ≡ ok out)
>>=-eq-ok (err code) next came = cc
>>=-eq-ok (ok value) next came = (value, refl, came)

infixl 5 ◌>>◌
-- Where the first value is only the success itself.
abbrev pub ◌>>◌ {ℓ} : {B : Type ℓ} → Result (Unit {0}) → Result B → Result B
first >> rest = first >>= λ _. rest
