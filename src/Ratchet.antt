-- ===== src/Ratchet.antt =====
-- ratchet.c: root, chain and message keys of a session of two, and the identity key pair. Every key
-- carries the key derivation of its session's version.
pub mod Keys
use rn_signal_protocol_messa.Base.{
  ℕ, Option, none, some, [], ◌∷◌, length, take, drop, ◌==◌, if◌then◌else◌,
}
use rn_signal_protocol_messa.Status.{
  Result, ok, err, inval, unknown, invalid_key, invalid_proto_buf, guard, ◌>>=◌, ◌>>◌,
}
use rn_signal_protocol_messa.Crypto.{Buffer, Provider, Codec, pack_checked}
use rn_signal_protocol_messa.Curve.{
  PublicKey, PrivateKey, curve_decode_point, curve_decode_private_point, curve_calculate_agreement,
  ec_public_key_serialize_protobuf, ec_private_key_serialize_protobuf,
}
use rn_signal_protocol_messa.Hkdf.{Hkdf, hkdf_create, hkdf_derive_secrets}
use rn_signal_protocol_messa.SenderKey.{zero_salt, add_u32}

pub record RatchetChainKey : Type 0 where
  pub kdf : Hkdf
  pub key : Buffer
  pub index : ℕ

pub record RatchetRootKey : Type 0 where
  pub kdf : Hkdf
  pub key : Buffer

pub record RatchetMessageKeys : Type 0 where
  pub cipher_key : Buffer
  pub mac_key : Buffer
  pub iv : Buffer
  pub counter : ℕ

pub record IdentityKeyPair : Type 0 where
  pub public_key : PublicKey
  pub private_key : PrivateKey

-- "WhisperMessageKeys"
abbrev pub key_material_seed : Buffer
key_material_seed =
    b'W' ∷ b'h' ∷ b'i' ∷ b's' ∷ b'p' ∷ b'e' ∷ b'r' ∷ b'M' ∷ b'e' ∷ b's' ∷ b's' ∷ b'a' ∷ b'g' ∷ b'e'
    ∷ b'K' ∷ b'e' ∷ b'y' ∷ b's' ∷ []

-- "WhisperRatchet"
abbrev pub whisper_ratchet : Buffer
whisper_ratchet =
    b'W' ∷ b'h' ∷ b'i' ∷ b's' ∷ b'p' ∷ b'e' ∷ b'r' ∷ b'R' ∷ b'a' ∷ b't' ∷ b'c' ∷ b'h' ∷ b'e' ∷ b't'
    ∷ []

-- "WhisperText"
abbrev pub whisper_text : Buffer
whisper_text = b'W' ∷ b'h' ∷ b'i' ∷ b's' ∷ b'p' ∷ b'e' ∷ b'r' ∷ b'T' ∷ b'e' ∷ b'x' ∷ b't' ∷ []

unfoldable pub ratchet_chain_key_create :
    Option Hkdf → Option Buffer → (index : ℕ) → Result RatchetChainKey
ratchet_chain_key_create (some kdf) (some key) index =
    ok (record { kdf = kdf; key = key; index = index })
ratchet_chain_key_create _ _ index = err inval

unfoldable pub ratchet_root_key_create : Option Hkdf → Option Buffer → Result RatchetRootKey
ratchet_root_key_create (some kdf) (some key) = ok (record { kdf = kdf; key = key })
ratchet_root_key_create _ _ = err inval

module _ (p : Provider) where
  unfoldable pub ratchet_chain_key_get_base_material : RatchetChainKey → Buffer → Result Buffer
  ratchet_chain_key_get_base_material chain_key seed = p.hmac_sha256 chain_key.key seed

  unfoldable pub ratchet_chain_key_get_message_keys : RatchetChainKey → Result RatchetMessageKeys
  unfolding ratchet_chain_key_get_base_material
  ratchet_chain_key_get_message_keys chain_key = do
    input_key_material ← ratchet_chain_key_get_base_material chain_key (1 ∷ [])
    key_material_data ←
        hkdf_derive_secrets p chain_key.kdf input_key_material zero_salt key_material_seed 80
    guard (length key_material_data == 80) unknown
    ok (record {
      cipher_key = take 32 key_material_data;
      mac_key = take 32 (drop 32 key_material_data);
      iv = take 16 (drop 64 key_material_data);
      counter = chain_key.index;
    })

  unfoldable pub ratchet_chain_key_create_next : RatchetChainKey → Result RatchetChainKey
  unfolding ratchet_chain_key_get_base_material ratchet_chain_key_create
  ratchet_chain_key_create_next chain_key = do
    next_key ← ratchet_chain_key_get_base_material chain_key (2 ∷ [])
    ratchet_chain_key_create (some chain_key.kdf) (some next_key) (add_u32 chain_key.index 1)

  -- The halves of 64 derived bytes.
  unfoldable pub split_secret : Hkdf → Buffer → Result (RatchetRootKey × RatchetChainKey)
  unfolding ratchet_root_key_create ratchet_chain_key_create
  split_secret kdf secret = do
    root_key ← ratchet_root_key_create (some kdf) (some (take 32 secret))
    chain_key ← ratchet_chain_key_create (some kdf) (some (take 32 (drop 32 secret))) 0
    ok (root_key, chain_key)

  unfoldable pub ratchet_root_key_create_chain :
      RatchetRootKey
      → Option PublicKey
      → Option PrivateKey
      → Result (RatchetRootKey × RatchetChainKey)
  unfolding split_secret
  ratchet_root_key_create_chain root_key (some their_ratchet_key) (some our_ratchet_key_private) =
      do
        shared_secret ←
            curve_calculate_agreement p (some their_ratchet_key) (some our_ratchet_key_private)
        derived_secret ←
            hkdf_derive_secrets p root_key.kdf shared_secret root_key.key whisper_ratchet 64
        guard (length derived_secret == 64) unknown
        split_secret root_key.kdf derived_secret
  ratchet_root_key_create_chain root_key _ _ = err inval

  -- `if(result_size != 64)`: a failed derivation counts as a wrong size.
  unfoldable pub of_size_64 : Result Buffer → Result Buffer
  of_size_64 (ok output) = if length output == 64 then ok output else err unknown
  of_size_64 (err e) = err unknown

  unfoldable pub ratcheting_session_calculate_derived_keys :
      Buffer → Result (RatchetRootKey × RatchetChainKey)
  unfolding of_size_64 split_secret
  ratcheting_session_calculate_derived_keys secret = do
    kdf ← hkdf_create 3
    output ← of_size_64 (hkdf_derive_secrets p kdf secret zero_salt whisper_text 64)
    split_secret kdf output

pub record IdentityKeyPairStructure : Type 0 where
  pub publickey : Option Buffer
  pub privatekey : Option Buffer

unfoldable pub read_identity_key_pair : Option Buffer → Option Buffer → Result IdentityKeyPair
read_identity_key_pair (some publickey) (some privatekey) = do
  public_key ← curve_decode_point publickey
  private_key ← curve_decode_private_point privatekey
  ok (record { public_key = public_key; private_key = private_key })
read_identity_key_pair _ _ = err invalid_key

module _ (codec : Codec IdentityKeyPairStructure) where
  unfoldable pub ratchet_identity_key_pair_serialize : Option IdentityKeyPair → Result Buffer
  ratchet_identity_key_pair_serialize none = err inval
  ratchet_identity_key_pair_serialize (some key_pair) = pack_checked codec (record {
    publickey = some (ec_public_key_serialize_protobuf key_pair.public_key);
    privatekey = some (ec_private_key_serialize_protobuf key_pair.private_key);
  })

  unfoldable pub ratchet_identity_key_pair_deserialize : Buffer → Result IdentityKeyPair
  unfolding read_identity_key_pair
  ratchet_identity_key_pair_deserialize bytes = elim (codec.unpack bytes) [
    | none ↦ err invalid_proto_buf
    | some s ↦ read_identity_key_pair s.publickey s.privatekey
  ]
