-- ===== src/Examples/PreKeys.antt =====
-- A one-time and a signed pre key in the byte format of the examples.
use rn_signal_protocol_messa.Base.{refl, some, ◌≡◌, [], ◌∷◌, arith}
use rn_signal_protocol_messa.PreKey.{
  PreKeyRecordStructure, SignedPreKeyRecordStructure, SessionSignedPreKey,
  session_pre_key_serialize, SessionPreKey, session_pre_key_deserialize,
  session_signed_pre_key_serialize, session_signed_pre_key_deserialize,
}
use rn_signal_protocol_messa.Examples.Format.{
  Format, number, bytes, option, pair, via, codec, codec-IsCodec,
}
use rn_signal_protocol_messa.Examples.Bytes.{made_pair}
use rn_signal_protocol_messa.Status.{◌>>=◌, ok}
use rn_signal_protocol_messa.PreKey.RoundTrip.{deserialize-serialize}

abbrev pub pre_key_format : Format PreKeyRecordStructure
pre_key_format =
    via (pair (option number) (pair (option bytes) (option bytes)))
      (λ s. (s.id, (s.publickey, s.privatekey)))
      (λ (i, (a, b)). record { id = i; publickey = a; privatekey = b }) (λ s. refl)

abbrev pub signed_pre_key_format : Format SignedPreKeyRecordStructure
signed_pre_key_format =
    via
      (pair (option number)
        (pair (option bytes) (pair (option bytes) (pair (option bytes) (option number)))))
      (λ s. (s.id, (s.publickey, (s.privatekey, (s.signature, s.timestamp)))))
      (λ (i, (a, (b, (c, d)))). record {
        id = i;
        publickey = a;
        privatekey = b;
        signature = c;
        timestamp = d;
      })
      (λ s. refl)

abbrev pre_key : SessionPreKey
pre_key = record { id = 7; key_pair = made_pair }

abbrev signed_pre_key : SessionSignedPreKey
signed_pre_key = record { id = 8; key_pair = made_pair; timestamp = 99; signature = 5 ∷ 6 ∷ [] }

deserialize-serialize_example :
    ((session_pre_key_serialize (codec pre_key_format) (some pre_key)
        >>= session_pre_key_deserialize (codec pre_key_format))
      ≡ ok pre_key)
    × ((session_signed_pre_key_serialize (codec signed_pre_key_format) signed_pre_key
          >>= session_signed_pre_key_deserialize (codec signed_pre_key_format))
        ≡ ok signed_pre_key)
deserialize-serialize_example =
    deserialize-serialize (codec pre_key_format) (codec-IsCodec pre_key_format)
      (codec signed_pre_key_format) (codec-IsCodec signed_pre_key_format) pre_key signed_pre_key
      refl refl refl refl (omega arith)
