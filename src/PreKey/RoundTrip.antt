-- ===== src/PreKey/RoundTrip.antt =====
-- Pre keys that are written and read again.
use rn_signal_protocol_messa.Base.{◌≡◌, ◌∙◌, ap, some, ◌<◌, length, arith, refl, [], ◌∷◌}
use rn_signal_protocol_messa.Status.{ok, ◌>>=◌}
use rn_signal_protocol_messa.Crypto.{Codec, IsCodec, pack_checked_lem, Buffer}
use rn_signal_protocol_messa.Curve.{
  KeyPair, ec_public_key_serialize, ec_public_key_serialize_protobuf, ec_private_key_serialize,
  ec_private_key_serialize_protobuf,
}
use rn_signal_protocol_messa.Curve.Format.{
  IsPoint, IsScalar, decode-serialize_protobuf, decode_private-serialize_protobuf,
}
use rn_signal_protocol_messa.PreKey.{
  SessionPreKey, SessionSignedPreKey, PreKeyRecordStructure, SignedPreKeyRecordStructure, read_keys,
  read_pre_key, read_signed_pre_key, session_pre_key_serialize, session_pre_key_deserialize,
  session_signed_pre_key_serialize, session_signed_pre_key_deserialize,
  session_signed_pre_key_create,
}

read_keys_lem :
    (pair : KeyPair)
    → IsPoint pair.public_key
    → IsScalar pair.private_key
    → read_keys
        (ec_public_key_serialize_protobuf pair.public_key)
        (ec_private_key_serialize_protobuf pair.private_key)
      ≡ ok pair
unfolding read_keys
read_keys_lem pair p s = rw (
  decode-serialize_protobuf pair.public_key p,
  decode_private-serialize_protobuf pair.private_key s,
)

module _ (codec : Codec PreKeyRecordStructure) (good : IsCodec codec) where
  read_packed :
      (s : PreKeyRecordStructure)
      → session_pre_key_deserialize codec (codec.pack s)
        ≡ read_pre_key s.id s.publickey s.privatekey
  unfolding session_pre_key_deserialize
  read_packed s = rw (session_pre_key_deserialize, good.unpack-pack s)

  pre_key_lem :
      (key : SessionPreKey)
      → IsPoint key.key_pair.public_key
      → IsScalar key.key_pair.private_key
      → (session_pre_key_serialize codec (some key) >>= session_pre_key_deserialize codec) ≡ ok key
  unfolding session_pre_key_serialize read_pre_key ec_public_key_serialize
      ec_public_key_serialize_protobuf ec_private_key_serialize ec_private_key_serialize_protobuf
  pre_key_lem key p s = rw (pack_checked_lem codec good) (
      read_packed _
      ∙ ap (λ r. r >>= λ pair. ok (record { id = key.id; key_pair = pair }))
          (read_keys_lem key.key_pair p s))

signed_create_lem :
    (key : SessionSignedPreKey)
    → 0 < length key.signature
    → session_signed_pre_key_create key.id key.timestamp key.key_pair key.signature ≡ ok key
unfolding session_signed_pre_key_create
signed_create_lem key filled = elim_filled key.signature filled
  where
    elim_filled :
        (bytes : Buffer)
        → 0 < length bytes
        → session_signed_pre_key_create key.id key.timestamp key.key_pair bytes
          ≡ ok (record key { signature = bytes })
    elim_filled [] h = ground arith
    elim_filled (b ∷ bs) h = refl

module _ (codec : Codec SignedPreKeyRecordStructure) (good : IsCodec codec) where
  read_packed_signed :
      (s : SignedPreKeyRecordStructure)
      → session_signed_pre_key_deserialize codec (codec.pack s)
        ≡ read_signed_pre_key s.id s.timestamp s.publickey s.privatekey s.signature
  unfolding session_signed_pre_key_deserialize
  read_packed_signed s = rw (session_signed_pre_key_deserialize, good.unpack-pack s)

  signed_pre_key_lem :
      (key : SessionSignedPreKey)
      → IsPoint key.key_pair.public_key
      → IsScalar key.key_pair.private_key
      → 0 < length key.signature
      → (session_signed_pre_key_serialize codec key >>= session_signed_pre_key_deserialize codec)
        ≡ ok key
  unfolding session_signed_pre_key_serialize read_signed_pre_key ec_public_key_serialize
      ec_public_key_serialize_protobuf ec_private_key_serialize ec_private_key_serialize_protobuf
  signed_pre_key_lem key p s filled = rw (pack_checked_lem codec good) (
      read_packed_signed _
      ∙ ap
          (λ r. r >>= λ pair. session_signed_pre_key_create key.id key.timestamp pair key.signature)
          (read_keys_lem key.key_pair p s)
      ∙ signed_create_lem key filled)

module _ (one_time : Codec PreKeyRecordStructure) (one_time_good : IsCodec one_time)
    (signed : Codec SignedPreKeyRecordStructure) (signed_good : IsCodec signed) where
  -- Where the protobuf functions read back what they pack, and the keys of a one-time and of a signed
  -- pre key have the size of the struct's arrays, and the signature is not empty, each of the two
  -- that is serialized and deserialized is the same pre key: the id, both keys, the timestamp and the signature.
  pub deserialize-serialize :
      (key : SessionPreKey) (signed_key : SessionSignedPreKey)
      → IsPoint key.key_pair.public_key
      → IsScalar key.key_pair.private_key
      → IsPoint signed_key.key_pair.public_key
      → IsScalar signed_key.key_pair.private_key
      → 0 < length signed_key.signature
      → ((session_pre_key_serialize one_time (some key) >>= session_pre_key_deserialize one_time)
          ≡ ok key)
        × ((session_signed_pre_key_serialize signed signed_key
              >>= session_signed_pre_key_deserialize signed)
            ≡ ok signed_key)
  deserialize-serialize key signed_key p s q t filled = (
    pre_key_lem one_time one_time_good key p s,
    signed_pre_key_lem signed signed_good signed_key q t filled,
  )
