-- ===== src/Examples/Exchange.antt =====
-- A provider whose keys agree: the public half of a key is the sum of its private half and the base
-- point, byte by byte, and so is a secret.
use rn_signal_protocol_messa.Base.{
  ℕ, zero, suc, ◌+◌, ◌≡◌, refl, sym, ap, ap₂, some, [], ◌∷◌, replicate, arith,
}
use rn_signal_protocol_messa.Status.{ok, ok_injective}
use rn_signal_protocol_messa.Crypto.{Buffer, Provider, HasMac, HasCipher, mac}
use rn_signal_protocol_messa.Curve.{
  PublicKey, KeyPair, curve_generate_public_key, curve_calculate_agreement,
}
use rn_signal_protocol_messa.Curve.Agreement.{IsPair, HasAgreement}
use rn_signal_protocol_messa.Examples.Trivial.{trivial, trivial-HasMac, trivial-HasCipher}

abbrev first : Buffer → ℕ
first [] = 0
first (b ∷ _) = b

abbrev others : Buffer → Buffer
others [] = []
others (_ ∷ bs) = bs

unfoldable pub add : ℕ → Buffer → Buffer → Buffer
add zero xs ys = []
add (suc n) xs ys = (first xs + first ys) ∷ add n (others xs) (others ys)

add_commutes : (n : ℕ) (a b c : Buffer) → add n a (add n b c) ≡ add n b (add n a c)
unfolding add
add_commutes zero a b c = refl
add_commutes (suc n) a b c =
    ap₂ (λ (x : ℕ) xs. x ∷ xs) (omega arith) (add_commutes n (others a) (others b) (others c))

unfoldable pub exchange : Provider
unfolding trivial add
exchange = record trivial { donna = λ secret point. some (add 32 secret point) }

pub exchange-HasMac : HasMac exchange
unfolding exchange mac trivial
exchange-HasMac = record { total = trivial-HasMac.total; size = trivial-HasMac.size }

pub exchange-HasCipher : HasCipher exchange
unfolding exchange trivial
exchange-HasCipher = record { inverse = trivial-HasCipher.inverse }

point_of :
    (pair : KeyPair)
    → IsPair exchange pair
    → pair.public_key.point ≡ add 32 pair.private_key.scalar (9 ∷ replicate 31 0)
unfolding curve_generate_public_key exchange
point_of pair h = sym (ap (λ (k : PublicKey). k.point) (ok_injective h))

pub exchange-HasAgreement : HasAgreement exchange
unfolding curve_calculate_agreement exchange
exchange-HasAgreement = record {
  commutes = λ a b ha hb.
      rw (point_of a ha, point_of b hb)
        (ap ok (add_commutes 32 a.private_key.scalar b.private_key.scalar (9 ∷ replicate 31 0)));
}
