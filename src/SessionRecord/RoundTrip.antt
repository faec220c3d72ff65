-- ===== src/SessionRecord/RoundTrip.antt =====
-- A record that is written and read again.
use rn_signal_protocol_messa.Base.{◌≡◌, some, All, false}
use rn_signal_protocol_messa.Status.{ok}
use rn_signal_protocol_messa.Fields.{optional_lem, each_lem}
use rn_signal_protocol_messa.Crypto.{Codec, IsCodec, pack_checked_lem}
use rn_signal_protocol_messa.SessionState.{SessionState}
use rn_signal_protocol_messa.SessionState.Structure.{session_state_serialize_prepare}
use rn_signal_protocol_messa.SessionState.Reading.{session_state_deserialize_protobuf}
use rn_signal_protocol_messa.SessionState.RoundTrip.{IsWellFormed, deserialize-prepare}
use rn_signal_protocol_messa.SessionRecord.{
  SessionRecord, RecordStructure, session_record_create, session_record_serialize, read_record,
  session_record_deserialize, session_record_copy,
}

pub record IsWellFormedRecord (r : SessionRecord) (current : SessionState) : Type 0 where
  pub is_current : r.state ≡ some current
  pub well_formed : IsWellFormed current
  pub previous : All IsWellFormed r.previous_states

-- With a codec that unpacks what it packs, for a record with a current state, where in it and in the
-- previous states public and private keys have 32 bytes, message keys have the sizes of their
-- arrays, and root and chain keys are not empty and derive by the session's version:
-- session_record_copy succeeds with the same states in the same order and the same user record, and
-- the copy is not fresh.
pub session_record_copy_lem :
    (codec : Codec RecordStructure) (r : SessionRecord) (current : SessionState)
    → IsCodec codec
    → IsWellFormedRecord r current
    → session_record_copy codec r ≡ ok (record r { is_fresh = false })
unfolding session_record_copy session_record_serialize session_record_deserialize read_record
    session_record_create
session_record_copy_lem codec r current c w = rw (
  w.is_current,
  pack_checked_lem codec c,
  c.unpack-pack,
  optional_lem session_state_deserialize_protobuf session_state_serialize_prepare IsWellFormed
      deserialize-prepare (some current) w.well_formed,
  each_lem session_state_deserialize_protobuf session_state_serialize_prepare IsWellFormed
      deserialize-prepare r.previous_states w.previous,
  session_record_deserialize,
)
