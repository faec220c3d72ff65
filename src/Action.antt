-- ===== src/Action.antt =====
-- C code that also reads and writes a state (a client's store, the random source): it takes the
-- state and returns its outcome beside the state that it leaves, after an error too.
use rn_signal_protocol_messa.Base.{◌≡◌, refl}
use rn_signal_protocol_messa.Status.{Error, Result, ok, err}

abbrev pub Action : Type 0 → Type 0 → Type 0
Action S A = S → Result A × S

module _ {S : Type 0} where
  abbrev pub pure : {A : Type 0} → A → Action S A
  pure a s = (ok a, s)

  -- A computation that does not touch the state.
  abbrev pub lift : {A : Type 0} → Result A → Action S A
  lift r s = (r, s)

module _ {S A B : Type 0} where
  abbrev pub and_then : Result A × S → (A → Action S B) → Result B × S
  and_then (ok a, s) f = f a s
  and_then (err e, s) f = (err e, s)

  infixl 5 ◌>>=◌ ◌>>◌
  unfoldable pub ◌>>=◌ : Action S A → (A → Action S B) → Action S B
  m >>= f = λ s. and_then (m s) f

  abbrev pub ◌>>◌ : Action S A → Action S B → Action S B
  m >> k = m >>= λ _. k

-- The value and the state behind a bind that came out `ok`.
and_then-ok :
    {S A B : Type 0} (r : Result A × S) (f : A → Action S B) (b : B)
    → (and_then r f).0 ≡ ok b
    → (a : A) × (s' : S) × (r ≡ (ok a, s')) × ((f a s').0 ≡ ok b)
and_then-ok (ok a, s) f b h = (a, s, refl, h)
and_then-ok (err e, s) f b h = cc

-- Where a state is part of a larger one.
abbrev pub zoom : {S T A : Type 0} → (T → S) → (S → T → T) → Action S A → Action T A
zoom get put m t = let (r, s) = m (get t) in (r, put s t)

-- `complete:` blocks that exchange one error code for another.
abbrev pub map_error : {S A : Type 0} → (Error → Error) → Action S A → Action S A
map_error f m s = let (r, s') = m s in (elim r [ ok a ↦ ok a | err e ↦ err (f e) ], s')

pub >>=-ok :
    {S A B : Type 0} (m : Action S A) (f : A → Action S B) (s : S) (b : B)
    → ((m >>= f) s).0 ≡ ok b
    → (a : A) × (s' : S) × (m s ≡ (ok a, s')) × ((f a s').0 ≡ ok b)
unfolding ◌>>=◌
>>=-ok m f s b h = and_then-ok (m s) f b h
