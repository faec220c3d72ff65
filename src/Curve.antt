-- ===== src/Curve.antt =====
-- curve.c: the keys, their byte formats, key generation, agreement and signatures. A key is the
-- byte array of its struct; reference counts are not modelled.
pub mod Format
pub mod Clamp
pub mod Generate
pub mod Agreement
use Prim.Native.Nat.{bit_and, bit_or}
use rn_signal_protocol_messa.Base.{
  ℕ, zero, suc, ◌+◌, ◌≡◌, Bool, true, false, not, ◌&&◌, Option, none, some, List, [], ◌∷◌, length,
  take, drop, ltb, ◌==◌, if◌then◌else◌, replicate,
}
use rn_signal_protocol_messa.Status.{Result, ok, err, inval, unknown, invalid_key}
use rn_signal_protocol_messa.Action.{Action, lift, pure, ◌>>=◌}
use rn_signal_protocol_messa.Crypto.{Buffer, Provider, signal_crypto_random}

abbrev pub djb_type : ℕ
djb_type = 5

abbrev pub djb_key_len : ℕ
djb_key_len = 32

abbrev pub curve_signature_len : ℕ
curve_signature_len = 64

pub record PublicKey : Type 0 where
  pub point : Buffer

pub record PrivateKey : Type 0 where
  pub scalar : Buffer

pub record KeyPair : Type 0 where
  pub public_key : PublicKey
  pub private_key : PrivateKey

-- `key_len > 0 && key_data[0] != DJB_TYPE`
abbrev pub has_other_type : Buffer → Bool
has_other_type [] = false
has_other_type (b ∷ _) = not (b == djb_type)

-- `key_data` with its length; the key is the 32 bytes behind the type byte.
unfoldable pub curve_decode_point : Buffer → Result PublicKey
curve_decode_point key_data =
    if has_other_type key_data
    then err invalid_key
    else if length key_data == djb_key_len + 1
    then ok (record { point = take djb_key_len (drop 1 key_data) })
    else err invalid_key

-- The null test comes first.
unfoldable pub ec_public_key_serialize : Option PublicKey → Result Buffer
ec_public_key_serialize none = err inval
ec_public_key_serialize (some key) = ok (djb_type ∷ key.point)

unfoldable pub ec_public_key_serialize_protobuf : PublicKey → Buffer
ec_public_key_serialize_protobuf key = djb_type ∷ key.point

unfoldable pub curve_decode_private_point : Buffer → Result PrivateKey
curve_decode_private_point key_data =
    if length key_data == djb_key_len then ok (record { scalar = key_data }) else err invalid_key

unfoldable pub ec_private_key_serialize : PrivateKey → Result Buffer
ec_private_key_serialize key = ok key.scalar

unfoldable pub ec_private_key_serialize_protobuf : PrivateKey → Buffer
ec_private_key_serialize_protobuf key = key.scalar

-- Whether two byte arrays of one length are equal, as a constant-time comparison says.
unfoldable pub same_bytes : Buffer → Buffer → Bool
same_bytes [] [] = true
same_bytes (a ∷ as') (b ∷ bs) = a == b && same_bytes as' bs
same_bytes _ _ = false

-- Whether `ec_public_key_compare` returns 0. A null pointer equals only a null pointer.
unfoldable pub ec_public_key_compare : Option PublicKey → Option PublicKey → Bool
unfolding same_bytes
ec_public_key_compare none none = true
ec_public_key_compare (some key1) (some key2) = same_bytes key1.point key2.point
ec_public_key_compare _ _ = false

-- Whether `memcmp` returns a negative number.
unfoldable pub less_bytes : Buffer → Buffer → Bool
less_bytes (a ∷ as') (b ∷ bs) =
    let rest = less_bytes as' bs in if ltb a b then true else if a == b then rest else false
less_bytes _ _ = false

-- Whether `ec_public_key_memcmp` returns a negative number, for two keys.
unfoldable pub ec_public_key_memcmp : PublicKey → PublicKey → Bool
unfolding less_bytes
ec_public_key_memcmp key1 key2 = less_bytes key1.point key2.point

-- `key->data[i] = f(key->data[i])`
unfoldable pub modify : ℕ → (ℕ → ℕ) → Buffer → Buffer
modify i f [] = []
modify zero f (b ∷ bs) = f b ∷ bs
modify (suc i) f (b ∷ bs) = b ∷ modify i f bs

-- The three masks of curve_generate_private_key.
unfoldable pub clamp : Buffer → Buffer
unfolding modify
clamp key =
    modify 31 (λ b. bit_or b 64)
      (modify 31 (λ b. bit_and b 127) (modify 0 (λ b. bit_and b 248) key))

module _ (p : Provider) where
  unfoldable pub curve_generate_private_key : Action ℕ PrivateKey
  unfolding clamp signal_crypto_random
  curve_generate_private_key = do
    key ← signal_crypto_random p djb_key_len
    pure (record { scalar = clamp key })

  -- The base point is 9.
  unfoldable pub curve_generate_public_key : PrivateKey → Result PublicKey
  curve_generate_public_key private_key = elim (p.donna private_key.scalar (9 ∷ replicate 31 0)) [
    | some key ↦ ok (record { point = key })
    | none ↦ err unknown
  ]

  unfoldable pub curve_generate_key_pair : Action ℕ KeyPair
  unfolding curve_generate_private_key curve_generate_public_key
  curve_generate_key_pair = do
    key_private ← curve_generate_private_key
    key_public ← lift (curve_generate_public_key key_private)
    pure (record { public_key = key_public; private_key = key_private })

  unfoldable pub curve_calculate_agreement : Option PublicKey → Option PrivateKey → Result Buffer
  curve_calculate_agreement (some public_key) (some private_key) =
      elim (p.donna private_key.scalar public_key.point) [ some key ↦ ok key | none ↦ err unknown ]
  curve_calculate_agreement _ _ = err invalid_key

  -- `ok true` is the value 1, `ok false` the value 0.
  unfoldable pub curve_verify_signature : PublicKey → Buffer → Buffer → Result Bool
  curve_verify_signature signing_key message signature =
      if length signature == curve_signature_len
      then ok (p.verify signature signing_key.point message)
      else err inval

  unfoldable pub curve_calculate_signature : PrivateKey → Buffer → Action ℕ Buffer
  unfolding signal_crypto_random
  curve_calculate_signature signing_key message = do
    random_data ← signal_crypto_random p curve_signature_len
    lift (p.sign signing_key.scalar message random_data)

-- A provider whose signatures have 64 bytes, and verify under the public half of the key.
pub record HasSignature (p : Provider) (pair : KeyPair) : Type 0 where
  pub size :
      (message noise signature : Buffer)
      → p.sign pair.private_key.scalar message noise ≡ ok signature
      → length signature ≡ curve_signature_len
  pub verifies :
      (message noise signature : Buffer)
      → p.sign pair.private_key.scalar message noise ≡ ok signature
      → p.verify signature pair.public_key.point message ≡ true
