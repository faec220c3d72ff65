-- ===== src/PreKeyMessage/RoundTrip.antt =====
-- A message that starts a session, written and read again.
use rn_signal_protocol_messa.Base.{
  ℕ, suc, ◌<◌, ◌≡◌, refl, Option, some, ◌∷◌, length, leb, false, arith, lt→leb, eq→==,
}
use rn_signal_protocol_messa.Status.{ok}
use rn_signal_protocol_messa.Crypto.{Codec, IsCodec, pack_checked_lem}
use rn_signal_protocol_messa.Curve.{PublicKey, ec_public_key_serialize_protobuf}
use rn_signal_protocol_messa.Curve.Format.{IsPoint, decode-serialize_protobuf}
use rn_signal_protocol_messa.GroupMessage.{current_version, check_version}
use rn_signal_protocol_messa.SignalMessage.{
  SignalMessage, SignalMessageStructure, version_byte, or_zero, signal_message_deserialize,
}
use rn_signal_protocol_messa.PreKeyMessage.{
  PreKeySignalMessageStructure, PreKeySignalMessage, pre_key_signal_message_serialize,
  pre_key_signal_message_create, read_pre_key_message, pre_key_signal_message_deserialize,
}

-- A codec that packs a message into at least one byte.
pub record IsPreKeyCodec (codec : Codec PreKeySignalMessageStructure) : Type 0 where
  pub laws : IsCodec codec
  pub filled :
      (s : PreKeySignalMessageStructure) (id : ℕ)
      → s.registrationid ≡ some id
      → 0 < codec.packed_size s

module _ (codec : Codec PreKeySignalMessageStructure) (good : IsPreKeyCodec codec)
    (inner : Codec SignalMessageStructure) (registration_id : ℕ) (pre_key_id : Option ℕ)
    (signed_pre_key_id : ℕ) (base_key identity_key : PublicKey) (message : SignalMessage) where
  abbrev fields : PreKeySignalMessageStructure
  fields = record {
    registrationid = some registration_id;
    prekeyid = pre_key_id;
    signedprekeyid = some signed_pre_key_id;
    basekey = some (ec_public_key_serialize_protobuf base_key);
    identitykey = some (ec_public_key_serialize_protobuf identity_key);
    message = some message.serialized;
  }

  abbrev created : PreKeySignalMessage
  created = record {
    version = current_version;
    registration_id = registration_id;
    pre_key_id = pre_key_id;
    signed_pre_key_id = signed_pre_key_id;
    base_key = base_key;
    identity_key = identity_key;
    message = message;
    serialized = version_byte current_version ∷ codec.pack fields;
  }

  create_lem :
      pre_key_signal_message_create codec current_version registration_id pre_key_id
        signed_pre_key_id base_key identity_key message
      ≡ ok created
  unfolding pre_key_signal_message_create pre_key_signal_message_serialize
  create_lem = rw (pack_checked_lem codec good.laws fields)

  deserialize_lem :
      IsPoint base_key
      → IsPoint identity_key
      → message.message_version ≡ current_version
      → signal_message_deserialize inner message.serialized ≡ ok message
      → pre_key_signal_message_deserialize codec inner created.serialized ≡ ok created
  unfolding pre_key_signal_message_deserialize check_version read_pre_key_message or_zero
  deserialize_lem base identity current readable =
      let long : leb (suc (length (codec.pack fields))) 1 ≡ false =
        lt→leb (suc (length (codec.pack fields))) 1
          (omega (arith, good.laws.sized fields, good.filled fields registration_id refl)) in
      rw (
        long,
        good.laws.unpack-pack fields,
        decode-serialize_protobuf base_key base,
        decode-serialize_protobuf identity_key identity,
        readable,
        eq→== message.message_version current_version current,
      )

  -- At version 3, with a codec that fills at least one byte, keys of 32 bytes and an inner message
  -- of version 3 that is read back from its own bytes: the message is created with that version and
  -- the ids, keys and inner message that were given, and its bytes are read as this message again.
  pub pre_key_deserialize-create :
      IsPoint base_key
      → IsPoint identity_key
      → message.message_version ≡ current_version
      → signal_message_deserialize inner message.serialized ≡ ok message
      → (m : PreKeySignalMessage) × (pre_key_signal_message_create codec current_version
            registration_id pre_key_id signed_pre_key_id base_key identity_key message
          ≡ ok m)
        × (pre_key_signal_message_deserialize codec inner m.serialized ≡ ok m)
        × (m ≡ record {
          version = current_version;
          registration_id = registration_id;
          pre_key_id = pre_key_id;
          signed_pre_key_id = signed_pre_key_id;
          base_key = base_key;
          identity_key = identity_key;
          message = message;
          serialized = m.serialized;
        })
  pre_key_deserialize-create base identity current readable =
      (created, create_lem, deserialize_lem base identity current readable, refl)
