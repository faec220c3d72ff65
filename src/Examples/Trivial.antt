-- ===== src/Examples/Trivial.antt =====
-- A provider to run the definitions with: it meets what is documented of the real one, and hides
-- nothing.
use rn_signal_protocol_messa.Base.{
  ℕ, ◌≡◌, refl, Bool, true, false, ◌&&◌, some, [], ◌∷◌, ◌++◌, arith, ◌==◌, length, take, replicate,
  length-append, length-take, length-replicate, sym, ap, ◌∙◌,
}
use rn_signal_protocol_messa.Status.{ok, ok_injective}
use rn_signal_protocol_messa.Crypto.{Buffer, Provider, HasMac, HasCipher, mac}
use rn_signal_protocol_messa.Curve.{KeyPair, HasSignature}
use rn_signal_protocol_messa.Curve.Generate.{HasKeys}

unfoldable pub same : Buffer → Buffer → Bool
same [] [] = true
same (a ∷ as') (b ∷ bs) = a == b && same as' bs
same _ _ = false

unfoldable pub pad : ℕ → Buffer → Buffer
pad n bytes = take n (bytes ++ replicate n 0)

length-pad : (n : ℕ) (bytes : Buffer) → length (pad n bytes) ≡ n
unfolding pad
length-pad n bytes = omega (
  arith,
  length-take n (bytes ++ replicate n 0),
  length-append bytes (replicate n 0),
  length-replicate {A = ℕ} n 0,
)

unfoldable pub trivial : Provider
unfolding pad same
trivial = record {
  hmac_sha256 = λ key message. ok (pad 32 (message ++ key));
  random = λ n len. ok (replicate len n);
  encrypt = λ c key iv plaintext. ok plaintext;
  decrypt = λ c key iv ciphertext. ok ciphertext;
  donna = λ secret point. some (pad 32 secret);
  sign = λ key message noise. ok (pad 64 (key ++ message));
  verify = λ signature point message. same signature (pad 64 (point ++ message));
}

pub trivial-HasMac : HasMac trivial
unfolding mac trivial
trivial-HasMac = record {
  total = λ key message. refl;
  size = λ key message. length-pad 32 (message ++ key);
}

pub trivial-HasCipher : HasCipher trivial
unfolding trivial
trivial-HasCipher = record { inverse = λ c key iv plaintext ciphertext h. cc h }

pub same_refl : (bytes : Buffer) → same bytes bytes ≡ true
unfolding same
same_refl [] = refl
same_refl (b ∷ bs) = ground (arith, same_refl bs)

pub trivial-HasKeys : HasKeys trivial
unfolding trivial
trivial-HasKeys = record {
  random_size = λ n len bytes h. ap length (sym (ok_injective h)) ∙ length-replicate len n;
  donna_size = λ secret point key h. ap length (sym (cc h)) ∙ length-pad 32 secret;
}

-- The public half is the private one.
pub trivial-HasSignature :
    (pair : KeyPair) → pair.public_key.point ≡ pair.private_key.scalar → HasSignature trivial pair
unfolding trivial
trivial-HasSignature pair e = record {
  size = λ message noise signature h.
      ap length (sym (ok_injective h)) ∙ length-pad 64 (pair.private_key.scalar ++ message);
  verifies = λ message noise signature h.
      rw (← ok_injective h, e) (same_refl (pad 64 (pair.private_key.scalar ++ message)));
}
