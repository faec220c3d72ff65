-- ===== src/SignalMessage.antt =====
-- protocol.c: the message of a session of two, its bytes and its MAC.
pub mod RoundTrip
use rn_signal_protocol_messa.Base.{
  ℕ, ◌+◌, ◌-◌, ◌*◌, ◌%◌, Bool, true, false, Option, none, some, [], ◌∷◌, ◌++◌, length, take, drop,
  ltb, leb, ◌==◌, if◌then◌else◌,
}
use rn_signal_protocol_messa.Status.{
  Result, ok, err, inval, unknown, invalid_message, legacy_message, invalid_proto_buf, guard, ◌>>=◌,
  ◌>>◌,
}
use rn_signal_protocol_messa.Crypto.{Buffer, Provider, Codec, pack_checked}
use rn_signal_protocol_messa.Curve.{
  PublicKey, curve_decode_point, ec_public_key_serialize, ec_public_key_serialize_protobuf,
  same_bytes,
}
use rn_signal_protocol_messa.GroupMessage.{current_version, high_nibble}

-- CIPHERTEXT_UNSUPPORTED_VERSION
abbrev pub unsupported_version : ℕ
unsupported_version = 1

-- SIGNAL_MESSAGE_MAC_LENGTH
abbrev pub mac_length : ℕ
mac_length = 8

pub record SignalMessageStructure : Type 0 where
  pub ratchetkey : Option Buffer
  pub counter : Option ℕ
  pub previouscounter : Option ℕ
  pub ciphertext : Option Buffer

pub record SignalMessage : Type 0 where
  pub message_version : ℕ
  pub sender_ratchet_key : PublicKey
  pub counter : ℕ
  pub previous_counter : ℕ
  pub ciphertext : Buffer
  pub serialized : Buffer

-- `(uint8_t)((message_version << 4) | CIPHERTEXT_CURRENT_VERSION)`
abbrev pub version_byte : ℕ → ℕ
version_byte message_version = message_version * 16 % 256 + current_version

unfoldable pub signal_message_serialize :
    Codec SignalMessageStructure
    → (message_version : ℕ) → PublicKey
    → (counter previous_counter : ℕ) → Buffer
    → Result Buffer
signal_message_serialize codec message_version sender_ratchet_key counter previous_counter
      ciphertext =
    do
      packed ← pack_checked codec (record {
        ratchetkey = some (ec_public_key_serialize_protobuf sender_ratchet_key);
        counter = some counter;
        previouscounter = some previous_counter;
        ciphertext = some ciphertext;
      })
      ok (version_byte message_version ∷ packed)

-- What the MAC covers before the message: from version 3 on, both identities.
unfoldable pub identities :
    (message_version : ℕ) → (sender receiver : Option PublicKey) → Result Buffer
identities message_version sender_identity_key receiver_identity_key =
    let both = ec_public_key_serialize sender_identity_key >>= λ sender_key.
    ec_public_key_serialize receiver_identity_key >>= λ receiver_key.
    ok (sender_key ++ receiver_key) in
    if leb 3 message_version then both else ok []

module _ (p : Provider) where
  unfoldable pub signal_message_get_mac :
      (message_version : ℕ)
      → (sender_identity_key receiver_identity_key : Option PublicKey)
      → (mac_key serialized : Buffer) → Result Buffer
  unfolding identities
  signal_message_get_mac message_version sender_identity_key receiver_identity_key mac_key
        serialized =
      do
        keys ← identities message_version sender_identity_key receiver_identity_key
        full_mac ← p.hmac_sha256 mac_key (keys ++ serialized)
        guard (leb mac_length (length full_mac)) unknown
        ok (take mac_length full_mac)

  unfoldable pub signal_message_create :
      Codec SignalMessageStructure
      → (message_version : ℕ) → (mac_key : Buffer) → PublicKey
      → (counter previous_counter : ℕ) → (ciphertext : Buffer)
      → (sender_identity_key receiver_identity_key : Option PublicKey) → Result SignalMessage
  unfolding signal_message_serialize signal_message_get_mac
  signal_message_create codec message_version mac_key sender_ratchet_key counter previous_counter
        ciphertext sender_identity_key receiver_identity_key =
      do
        message_buf ←
            signal_message_serialize codec message_version sender_ratchet_key counter
              previous_counter ciphertext
        mac_buf ←
            signal_message_get_mac message_version sender_identity_key receiver_identity_key mac_key
              message_buf
        ok (record {
          message_version = message_version;
          sender_ratchet_key = sender_ratchet_key;
          counter = counter;
          previous_counter = previous_counter;
          ciphertext = ciphertext;
          serialized = message_buf ++ mac_buf;
        })

  -- `ok true` is the value 1, `ok false` the value 0. A message of fewer than 8 bytes, for which the
  -- `size_t` difference wraps around, is made by no function of the library.
  unfoldable pub signal_message_verify_mac :
      SignalMessage
      → (sender_identity_key receiver_identity_key : Option PublicKey) → (mac_key : Buffer)
      → Result Bool
  unfolding signal_message_get_mac
  signal_message_verify_mac message sender_identity_key receiver_identity_key mac_key = do
    let serialized_message_len = length message.serialized - mac_length
    our_mac ←
        signal_message_get_mac message.message_version sender_identity_key receiver_identity_key
          mac_key (take serialized_message_len message.serialized)
    guard (length our_mac == mac_length) unknown
    ok (same_bytes our_mac (drop serialized_message_len message.serialized))

-- A field that is not there is 0.
unfoldable pub or_zero : Option ℕ → ℕ
or_zero none = 0
or_zero (some n) = n

-- `!has_ciphertext || !has_counter || !has_ratchetkey`
unfoldable pub read_signal_message :
    (version : ℕ)
    → (bytes : Buffer) → Option Buffer
    → Option ℕ
    → (previouscounter : ℕ) → Option Buffer
    → Result SignalMessage
read_signal_message version bytes (some ratchetkey) (some counter) previouscounter
      (some ciphertext) =
    do
      sender_ratchet_key ← curve_decode_point ratchetkey
      ok (record {
        message_version = version;
        sender_ratchet_key = sender_ratchet_key;
        counter = counter;
        previous_counter = previouscounter;
        ciphertext = ciphertext;
        serialized = bytes;
      })
read_signal_message version bytes _ _ previouscounter _ = err invalid_message

-- The tests of the version, a nibble of the first byte.
unfoldable pub read_version : Buffer → Result ℕ
read_version [] = err inval
read_version (byte ∷ _) =
    if leb (high_nibble byte) unsupported_version
    then err legacy_message
    else if ltb current_version (high_nibble byte)
    then err invalid_message
    else ok (high_nibble byte)

-- The bytes between the version and the MAC.
unfoldable pub message_part : Buffer → Buffer
message_part bytes = take (length bytes - 1 - mac_length) (drop 1 bytes)

module _ (codec : Codec SignalMessageStructure) where
  unfoldable pub signal_message_deserialize : Buffer → Result SignalMessage
  unfolding read_version read_signal_message message_part or_zero
  signal_message_deserialize bytes =
      if leb (length bytes) (1 + mac_length)
      then err inval
      else read_version bytes >>= λ version. elim (codec.unpack (message_part bytes)) [
        | none ↦ err invalid_proto_buf
        | some s ↦
            read_signal_message version bytes s.ratchetkey s.counter (or_zero s.previouscounter)
              s.ciphertext
      ]

  unfoldable pub signal_message_copy : SignalMessage → Result SignalMessage
  unfolding signal_message_deserialize
  signal_message_copy other_message = signal_message_deserialize other_message.serialized

unfoldable pub signal_message_is_legacy : Buffer → Bool
signal_message_is_legacy [] = false
signal_message_is_legacy (byte ∷ _) = leb (high_nibble byte) unsupported_version
