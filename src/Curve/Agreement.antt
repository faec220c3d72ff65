-- ===== src/Curve/Agreement.antt =====
-- Key agreement: Diffie-Hellman on the keys that are generated.
use rn_signal_protocol_messa.Base.{
  ℕ, ◌≡◌, refl, ap, some, inl, inr, ◌∷◌, subst, Bool-cases, ap₂, ==→eq,
}
use rn_signal_protocol_messa.Status.{ok, Result-cases, ok_injective}
use rn_signal_protocol_messa.Action.{◌>>=◌}
use rn_signal_protocol_messa.Crypto.{Buffer, Provider, signal_crypto_random}
use rn_signal_protocol_messa.Curve.{
  KeyPair, PrivateKey, PublicKey, same_bytes, ec_public_key_compare, clamp,
  curve_generate_private_key, curve_generate_public_key, curve_generate_key_pair,
  curve_calculate_agreement,
}
use rn_signal_protocol_messa.Base.{[], true, arith, ◌==◌}

-- The public half is the one of the private half.
abbrev pub IsPair : Provider → KeyPair → Type 0
IsPair p pair = curve_generate_public_key p pair.private_key ≡ ok pair.public_key

-- Two key pairs agree on one secret, whichever side computes it.
pub record HasAgreement (p : Provider) : Type 0 where
  pub commutes :
      (a b : KeyPair)
      → IsPair p a
      → IsPair p b
      → curve_calculate_agreement p (some b.public_key) (some a.private_key)
        ≡ curve_calculate_agreement p (some a.public_key) (some b.private_key)

pub generate_key_pair-IsPair :
    (p : Provider) (n n' : ℕ) (pair : KeyPair)
    → curve_generate_key_pair p n ≡ (ok pair, n')
    → IsPair p pair
unfolding curve_generate_key_pair curve_generate_private_key ◌>>=◌ signal_crypto_random
generate_key_pair-IsPair p n n' pair e = elim (Result-cases (p.random n 32)) [
  | inr (d, bad) ↦ cc (rw bad at e)
  | inl (bytes, drawn) ↦
      let private_key : PrivateKey = record { scalar = clamp bytes } in
      elim (Result-cases (curve_generate_public_key p private_key)) [
        | inr (d, bad) ↦ cc (rw (drawn, bad) at e)
        | inl (public_key, made) ↦
            let whole = ok_injective (ap (λ x. x.0) (rw (drawn, made) at e)) in
            subst (IsPair p) whole made
      ]
]

pub same_bytes_refl : (bytes : Buffer) → same_bytes bytes bytes ≡ true
unfolding same_bytes
same_bytes_refl [] = refl
same_bytes_refl (b ∷ bs) = ground (arith, same_bytes_refl bs)

pub same_bytes-eq : (as' bs : Buffer) → same_bytes as' bs ≡ true → as' ≡ bs
unfolding same_bytes
same_bytes-eq [] [] h = refl
same_bytes-eq [] (b ∷ bs) h = cc
same_bytes-eq (a ∷ as') [] h = cc
same_bytes-eq (a ∷ as') (b ∷ bs) h = elim (Bool-cases (a == b)) [
  | inl same ↦ ap₂ (λ x xs. x ∷ xs) (==→eq a b same) (same_bytes-eq as' bs (rw same at h))
  | inr other ↦ cc (rw other at h)
]

pub compare_refl : (key : PublicKey) → ec_public_key_compare (some key) (some key) ≡ true
unfolding ec_public_key_compare
compare_refl key = same_bytes_refl key.point
