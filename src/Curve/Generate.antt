-- ===== src/Curve/Generate.antt =====
-- The keys that are generated.
use rn_signal_protocol_messa.Base.{
  ℕ, zero, suc, ◌≡◌, refl, ap, ◌∙◌, sym, some, none, inl, inr, [], ◌∷◌, length, replicate, Option,
  ◌-◌, ◌%◌, ◌+◌, ◌<◌, ◌++◌,
}
use rn_signal_protocol_messa.Status.{Result, ok, err, unknown, Result-cases, ok_injective}
use rn_signal_protocol_messa.Action.{◌>>=◌}
use rn_signal_protocol_messa.Crypto.{Buffer, Provider, signal_crypto_random}
use rn_signal_protocol_messa.Curve.{
  KeyPair, PrivateKey, PublicKey, djb_key_len, modify, clamp, curve_generate_private_key,
  curve_generate_public_key, curve_generate_key_pair,
}
use rn_signal_protocol_messa.Curve.Format.{IsPoint, IsScalar}
use rn_signal_protocol_messa.Curve.Clamp.{clamp_lem}

-- A random source that returns as many bytes as are asked for, and a curve25519_donna that fills its
-- 32 bytes.
pub record HasKeys (p : Provider) : Type 0 where
  pub random_size : (n len : ℕ) (bytes : Buffer) → p.random n len ≡ ok bytes → length bytes ≡ len
  pub donna_size :
      (secret point key : Buffer) → p.donna secret point ≡ some key → length key ≡ djb_key_len

length-modify : (i : ℕ) (f : ℕ → ℕ) (bs : Buffer) → length (modify i f bs) ≡ length bs
unfolding modify
length-modify i f [] = refl
length-modify zero f (b ∷ bs) = refl
length-modify (suc i) f (b ∷ bs) = ap suc (length-modify i f bs)

length-clamp : (bs : Buffer) → length (clamp bs) ≡ length bs
unfolding clamp
length-clamp bs = rw (length-modify, length-modify, length-modify)

abbrev base_point : Buffer
base_point = 9 ∷ replicate 31 0

module _ (p : Provider) (h : HasKeys p) where
  generate_public_size :
      (private_key : PrivateKey) (key : PublicKey)
      → curve_generate_public_key p private_key ≡ ok key
      → IsPoint key
  unfolding curve_generate_public_key
  generate_public_size private_key key e =
      go (p.donna private_key.scalar base_point) (h.donna_size private_key.scalar base_point) e
    where
      go :
          (o : Option Buffer)
          → ((k : Buffer) → o ≡ some k → length k ≡ djb_key_len)
          → (elim o as (λ _. Result PublicKey) [
            | some k ↦ ok (record { point = k })
            | none ↦ err unknown
          ])
            ≡ ok key
          → IsPoint key
      go none size x = cc
      go (some k) size x =
          ap length (sym (ap (λ (y : PublicKey). y.point) (ok_injective x))) ∙ size k refl

  pub generate_key_pair_sizes :
      (n n' : ℕ) (pair : KeyPair)
      → curve_generate_key_pair p n ≡ (ok pair, n')
      → IsPoint pair.public_key × IsScalar pair.private_key
  unfolding curve_generate_key_pair curve_generate_private_key ◌>>=◌ signal_crypto_random
  generate_key_pair_sizes n n' pair e = elim (Result-cases (p.random n 32)) [
    | inr (d, bad) ↦ cc (rw bad at e)
    | inl (bytes, drawn) ↦
        let private_key : PrivateKey = record { scalar = clamp bytes } in
        elim (Result-cases (curve_generate_public_key p private_key)) [
          | inr (d, bad) ↦ cc (rw (drawn, bad) at e)
          | inl (public_key, made) ↦
              let whole = ok_injective (ap (λ x. x.0) (rw (drawn, made) at e)) in
              (
                ap length (sym (ap (λ (x : KeyPair). x.public_key.point) whole))
                    ∙ generate_public_size private_key public_key made,
                ap length (sym (ap (λ (x : KeyPair). x.private_key.scalar) whole))
                    ∙ length-clamp bytes
                    ∙ h.random_size n 32 bytes drawn,
              )
        ]
  ]

-- Where the random source gives 32 bytes, with 30 bytes between the first and the last, and
-- curve25519_donna gives a point for the clamped bytes and the base point 9:
-- curve_generate_key_pair succeeds with that point and the clamped bytes, after one request. Clamped
-- are the bytes where the three low bits of the first are cleared, and of the last the top bit is
-- cleared and the one below it set. Where donna fails, the outcome is SG_ERR_UNKNOWN.
pub curve_generate_key_pair_lem :
    (p : Provider) (n first last : ℕ) (between : Buffer) (made : Option Buffer)
    → p.random n 32 ≡ ok (first ∷ (between ++ (last ∷ [])))
    → first < 256
    → last < 256
    → length between ≡ 30
    → p.donna ((first - first % 8) ∷ (between ++ ((64 + last % 64) ∷ []))) (9 ∷ replicate 31 0)
      ≡ made
    → curve_generate_key_pair p n ≡ (
      elim made [
        | none ↦ err unknown
        | some point ↦ ok (record {
          public_key = record { point = point };
          private_key = record {
            scalar = (first - first % 8) ∷ (between ++ ((64 + last % 64) ∷ []));
          };
        })
      ],
      n + 1,
    )
unfolding curve_generate_key_pair curve_generate_private_key curve_generate_public_key ◌>>=◌
    signal_crypto_random
curve_generate_key_pair_lem p n first last between none drawn f l thirty gone =
    rw (drawn, clamp_lem first last between f l thirty, curve_generate_public_key, gone)
curve_generate_key_pair_lem p n first last between (some point) drawn f l thirty gone =
    rw (drawn, clamp_lem first last between f l thirty, curve_generate_public_key, gone)
