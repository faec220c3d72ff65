-- ===== src/GroupMessage.antt =====
-- protocol.c: the two messages of a group, their bytes and their signature. The structs' null
-- pointers do not occur: every field is set before the struct is handed out.
pub mod RoundTrip
use rn_signal_protocol_messa.Base.{
  ℕ, zero, suc, ◌+◌, ◌-◌, ◌/◌, ◌%◌, Bool, true, false, Option, none, some, List, [], ◌∷◌, ◌++◌,
  length, take, drop, ltb, leb, ◌==◌, if◌then◌else◌,
}
use rn_signal_protocol_messa.Status.{
  Error, Result, ok, err, inval, unknown, invalid_key, invalid_message, invalid_version,
  legacy_message, invalid_proto_buf,
}
use rn_signal_protocol_messa.Status as Status
use rn_signal_protocol_messa.Action.{Action, pure, lift, map_error, ◌>>=◌, ◌>>◌}
use rn_signal_protocol_messa.Crypto.{Buffer, Provider, Codec, pack_checked}
use rn_signal_protocol_messa.Curve.{
  PublicKey, PrivateKey, curve_decode_point, curve_verify_signature, curve_calculate_signature,
  ec_public_key_serialize_protobuf,
}

-- CIPHERTEXT_CURRENT_VERSION
abbrev pub current_version : ℕ
current_version = 3

abbrev pub signature_length : ℕ
signature_length = 64

-- `(CIPHERTEXT_CURRENT_VERSION << 4) | CIPHERTEXT_CURRENT_VERSION`
abbrev pub version_byte : ℕ
version_byte = 51

pub record SenderKeyMessageStructure : Type 0 where
  pub id : Option ℕ
  pub iteration : Option ℕ
  pub ciphertext : Option Buffer

pub record SenderKeyMessage : Type 0 where
  pub message_version : ℕ
  pub key_id : ℕ
  pub iteration : ℕ
  pub ciphertext : Buffer
  pub serialized : Buffer

-- `(data[0] & 0xF0) >> 4`
abbrev pub high_nibble : ℕ → ℕ
high_nibble byte = byte / 16 % 16

-- The tests of the version in both messages; a pointer past the end is never read.
unfoldable pub check_version : Buffer → Result (Unit {0})
check_version [] = err inval
check_version (byte ∷ _) =
    if ltb (high_nibble byte) current_version
    then err legacy_message
    else if ltb current_version (high_nibble byte)
    then err invalid_version
    else ok tt

-- `if(result == SG_ERR_INVALID_KEY) result = SG_ERR_UNKNOWN;`
unfoldable pub unknown_key : Error → Error
unknown_key invalid_key = unknown
unknown_key e = e

module _ (p : Provider) (codec : Codec SenderKeyMessageStructure) where
  unfoldable pub sender_key_message_serialize :
      (key_id iteration : ℕ) → Buffer → PrivateKey → Action ℕ Buffer
  unfolding unknown_key
  sender_key_message_serialize key_id iteration ciphertext signature_key = do
    packed ← lift (
        pack_checked codec
          (record { id = some key_id; iteration = some iteration; ciphertext = some ciphertext }))
    signature ←
        map_error unknown_key (curve_calculate_signature p signature_key (version_byte ∷ packed))
    lift (
        if length signature == signature_length
        then ok ((version_byte ∷ packed) ++ signature)
        else err unknown)

  unfoldable pub sender_key_message_create :
      (key_id iteration : ℕ) → Buffer → PrivateKey → Action ℕ SenderKeyMessage
  unfolding sender_key_message_serialize
  sender_key_message_create key_id iteration ciphertext signature_key = do
    serialized ← sender_key_message_serialize key_id iteration ciphertext signature_key
    pure (record {
      message_version = current_version;
      key_id = key_id;
      iteration = iteration;
      ciphertext = ciphertext;
      serialized = serialized;
    })

-- `!has_id || !has_iteration || !has_ciphertext`
unfoldable pub read_sender_key_message :
    Buffer → Option ℕ → Option ℕ → Option Buffer → Result SenderKeyMessage
read_sender_key_message bytes (some id) (some iteration) (some ciphertext) = ok (record {
  message_version = current_version;
  key_id = id;
  iteration = iteration;
  ciphertext = ciphertext;
  serialized = bytes;
})
read_sender_key_message bytes _ _ _ = err invalid_message

-- The bytes between the version and the signature.
unfoldable pub message_part : Buffer → Buffer
message_part bytes = take (length bytes - 1 - signature_length) (drop 1 bytes)

unfoldable pub sender_key_message_deserialize :
    Codec SenderKeyMessageStructure → Buffer → Result SenderKeyMessage
unfolding check_version read_sender_key_message message_part
sender_key_message_deserialize codec bytes =
    if leb (length bytes) (1 + signature_length)
    then err inval
    else Status.◌>>◌ (check_version bytes) (elim (codec.unpack (message_part bytes)) [
      | none ↦ err invalid_proto_buf
      | some s ↦ read_sender_key_message bytes s.id s.iteration s.ciphertext
    ])

-- Everything but a valid signature is SG_ERR_INVALID_MESSAGE.
unfoldable pub valid_or_error : Result Bool → Result (Unit {0})
valid_or_error (ok true) = ok tt
valid_or_error _ = err invalid_message

unfoldable pub sender_key_message_verify_signature :
    Provider → SenderKeyMessage → PublicKey → Result (Unit {0})
unfolding valid_or_error
sender_key_message_verify_signature p message signature_key =
    let data_len = length message.serialized - signature_length in
    valid_or_error (
      curve_verify_signature p signature_key (take data_len message.serialized)
        (drop data_len message.serialized))

pub record DistributionStructure : Type 0 where
  pub id : Option ℕ
  pub iteration : Option ℕ
  pub chainkey : Option Buffer
  pub signingkey : Option Buffer

pub record SenderKeyDistributionMessage : Type 0 where
  pub id : ℕ
  pub iteration : ℕ
  pub chain_key : Buffer
  pub signature_key : PublicKey
  pub serialized : Buffer

unfoldable pub sender_key_distribution_message_serialize :
    Codec DistributionStructure → (id iteration : ℕ) → Buffer → PublicKey → Result Buffer
sender_key_distribution_message_serialize codec id iteration chain_key signature_key =
    Status.◌>>=◌
      (pack_checked codec (record {
        id = some id;
        iteration = some iteration;
        chainkey = some chain_key;
        signingkey = some (ec_public_key_serialize_protobuf signature_key);
      }))
      λ packed. ok (version_byte ∷ packed)

unfoldable pub sender_key_distribution_message_create :
    Codec DistributionStructure
    → (id iteration : ℕ) → Buffer
    → PublicKey
    → Result SenderKeyDistributionMessage
unfolding sender_key_distribution_message_serialize
sender_key_distribution_message_create codec id iteration chain_key signature_key =
    Status.◌>>=◌
      (sender_key_distribution_message_serialize codec id iteration chain_key signature_key)
      λ serialized. ok (record {
        id = id;
        iteration = iteration;
        chain_key = chain_key;
        signature_key = signature_key;
        serialized = serialized;
      })

unfoldable pub read_distribution_message :
    Buffer
    → Option ℕ
    → Option ℕ
    → Option Buffer
    → Option Buffer
    → Result SenderKeyDistributionMessage
read_distribution_message bytes (some id) (some iteration) (some chain_key) (some signing_key) =
    Status.◌>>=◌ (curve_decode_point signing_key) λ signature_key. ok (record {
      id = id;
      iteration = iteration;
      chain_key = chain_key;
      signature_key = signature_key;
      serialized = bytes;
    })
read_distribution_message bytes _ _ _ _ = err invalid_message

unfoldable pub sender_key_distribution_message_deserialize :
    Codec DistributionStructure → Buffer → Result SenderKeyDistributionMessage
unfolding check_version read_distribution_message
sender_key_distribution_message_deserialize codec bytes =
    if leb (length bytes) 1
    then err inval
    else Status.◌>>◌ (check_version bytes) (elim (codec.unpack (drop 1 bytes)) [
      | none ↦ err invalid_proto_buf
      | some s ↦ read_distribution_message bytes s.id s.iteration s.chainkey s.signingkey
    ])
