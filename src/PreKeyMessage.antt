-- ===== src/PreKeyMessage.antt =====
-- protocol.c: the message that starts a session, around the first message of the session.
pub mod RoundTrip
use rn_signal_protocol_messa.Base.{
  ℕ, Option, none, some, [], ◌∷◌, length, drop, ltb, leb, ◌==◌, if◌then◌else◌,
}
use rn_signal_protocol_messa.Status.{
  Result, ok, err, inval, invalid_message, invalid_version, invalid_proto_buf, guard, ◌>>=◌, ◌>>◌,
}
use rn_signal_protocol_messa.Crypto.{Buffer, Codec, pack_checked}
use rn_signal_protocol_messa.Curve.{PublicKey, curve_decode_point, ec_public_key_serialize_protobuf}
use rn_signal_protocol_messa.GroupMessage.{current_version, check_version}
use rn_signal_protocol_messa.SignalMessage.{
  SignalMessage, SignalMessageStructure, version_byte, or_zero, signal_message_deserialize,
}

pub record PreKeySignalMessageStructure : Type 0 where
  pub registrationid : Option ℕ
  pub prekeyid : Option ℕ
  pub signedprekeyid : Option ℕ
  pub basekey : Option Buffer
  pub identitykey : Option Buffer
  pub message : Option Buffer

pub record PreKeySignalMessage : Type 0 where
  pub version : ℕ
  pub registration_id : ℕ
  pub pre_key_id : Option ℕ
  pub signed_pre_key_id : ℕ
  pub base_key : PublicKey
  pub identity_key : PublicKey
  pub message : SignalMessage
  pub serialized : Buffer

module _ (codec : Codec PreKeySignalMessageStructure) where
  unfoldable pub pre_key_signal_message_serialize :
      (version registration_id : ℕ)
      → (pre_key_id : Option ℕ) → (signed_pre_key_id : ℕ) → (base_key identity_key : PublicKey)
      → SignalMessage
      → Result Buffer
  pre_key_signal_message_serialize version registration_id pre_key_id signed_pre_key_id base_key
        identity_key message =
      do
        packed ← pack_checked codec (record {
          registrationid = some registration_id;
          prekeyid = pre_key_id;
          signedprekeyid = some signed_pre_key_id;
          basekey = some (ec_public_key_serialize_protobuf base_key);
          identitykey = some (ec_public_key_serialize_protobuf identity_key);
          message = some message.serialized;
        })
        ok (version_byte version ∷ packed)

  unfoldable pub pre_key_signal_message_create :
      (message_version registration_id : ℕ)
      → (pre_key_id : Option ℕ) → (signed_pre_key_id : ℕ) → (base_key identity_key : PublicKey)
      → SignalMessage
      → Result PreKeySignalMessage
  unfolding pre_key_signal_message_serialize
  pre_key_signal_message_create message_version registration_id pre_key_id signed_pre_key_id
        base_key identity_key message =
      do
        serialized ←
            pre_key_signal_message_serialize message_version registration_id pre_key_id
              signed_pre_key_id base_key identity_key message
        ok (record {
          version = message_version;
          registration_id = registration_id;
          pre_key_id = pre_key_id;
          signed_pre_key_id = signed_pre_key_id;
          base_key = base_key;
          identity_key = identity_key;
          message = message;
          serialized = serialized;
        })

module _ (codec : Codec PreKeySignalMessageStructure) (inner : Codec SignalMessageStructure) where
  -- `!has_signedprekeyid || !has_basekey || !has_identitykey || !has_message`
  unfoldable pub read_pre_key_message :
      Buffer
      → (registration_id : ℕ) → (pre_key_id : Option ℕ) → (signedprekeyid : Option ℕ)
      → (basekey identitykey message : Option Buffer) → Result PreKeySignalMessage
  read_pre_key_message bytes registration_id pre_key_id (some signed_pre_key_id) (some basekey)
        (some identitykey) (some message_bytes) =
      do
        base_key ← curve_decode_point basekey
        identity_key ← curve_decode_point identitykey
        message ← signal_message_deserialize inner message_bytes
        guard (message.message_version == current_version) invalid_version
        ok (record {
          version = current_version;
          registration_id = registration_id;
          pre_key_id = pre_key_id;
          signed_pre_key_id = signed_pre_key_id;
          base_key = base_key;
          identity_key = identity_key;
          message = message;
          serialized = bytes;
        })
  read_pre_key_message bytes registration_id pre_key_id _ _ _ _ = err invalid_message

  -- Behind the tests the version is the current one.
  unfoldable pub pre_key_signal_message_deserialize : Buffer → Result PreKeySignalMessage
  unfolding check_version read_pre_key_message or_zero
  pre_key_signal_message_deserialize bytes =
      if leb (length bytes) 1
      then err inval
      else check_version bytes >> elim (codec.unpack (drop 1 bytes)) [
        | none ↦ err invalid_proto_buf
        | some s ↦
            read_pre_key_message bytes (or_zero s.registrationid) s.prekeyid s.signedprekeyid
              s.basekey s.identitykey s.message
      ]

  unfoldable pub pre_key_signal_message_copy : PreKeySignalMessage → Result PreKeySignalMessage
  unfolding pre_key_signal_message_deserialize
  pre_key_signal_message_copy other_message =
      pre_key_signal_message_deserialize other_message.serialized
