-- ===== src/SessionRecord.antt =====
-- session_record.c: the current state of a session and the ones before it, the latest first. A node
-- of the list is its position.
pub mod Archive
pub mod RoundTrip
use rn_signal_protocol_messa.Base.{
  ℕ, zero, suc, Bool, true, false, ◌&&◌, ◌||◌, Option, none, some, List, [], ◌∷◌, ltb, ◌==◌,
  if◌then◌else◌,
}
use rn_signal_protocol_messa.Status.{Result, ok, err, inval, invalid_proto_buf, ◌>>=◌}
use rn_signal_protocol_messa.Fields.{optional, each, map_option, map_list}
use rn_signal_protocol_messa.Crypto.{Buffer, Codec, pack_checked}
use rn_signal_protocol_messa.Curve.{PublicKey, ec_public_key_compare}
use rn_signal_protocol_messa.SessionState.{SessionState, session_state_create}
use rn_signal_protocol_messa.SessionState.Structure.{
  SessionStructure, session_state_serialize_prepare,
}
use rn_signal_protocol_messa.SessionState.Reading.{session_state_deserialize_protobuf}

-- ARCHIVED_STATES_MAX_LENGTH
abbrev pub archived_states_max_length : ℕ
archived_states_max_length = 40

pub record SessionRecord : Type 0 where
  pub state : Option SessionState
  pub previous_states : List SessionState
  pub is_fresh : Bool
  pub user_record : Option Buffer

pub record RecordStructure : Type 0 where
  pub currentsession : Option SessionStructure
  pub previoussessions : List SessionStructure

unfoldable pub session_record_create : Option SessionState → SessionRecord
unfolding session_state_create
session_record_create none = record {
  state = some session_state_create;
  previous_states = [];
  is_fresh = true;
  user_record = none;
}
session_record_create (some state) = record {
  state = some state;
  previous_states = [];
  is_fresh = false;
  user_record = none;
}

abbrev pub session_record_set_state : SessionRecord → SessionState → SessionRecord
session_record_set_state r state = record r { state = some state }

abbrev pub session_record_set_user_record : SessionRecord → Buffer → SessionRecord
session_record_set_user_record r user_record = record r { user_record = some user_record }

unfoldable pub is_session : (version : ℕ) → Option PublicKey → SessionState → Bool
is_session version alice_base_key state =
    state.session_version == version && ec_public_key_compare state.alice_base_key alice_base_key

unfoldable pub any_session : (version : ℕ) → Option PublicKey → List SessionState → Bool
unfolding is_session
any_session version alice_base_key [] = false
any_session version alice_base_key (s ∷ ss) =
    let rest = any_session version alice_base_key ss in
    if is_session version alice_base_key s then true else rest

-- There is a current state, as an assertion says.
unfoldable pub session_record_has_session_state :
    SessionRecord → (version : ℕ) → Option PublicKey → Bool
unfolding is_session any_session
session_record_has_session_state r version alice_base_key =
    let previous = any_session version alice_base_key r.previous_states in
    elim r.state [
      | none ↦ previous
      | some state ↦ if is_session version alice_base_key state then true else previous
    ]

unfoldable pub remove_at : {A : Type 0} → (node : ℕ) → List A → List A
remove_at node [] = []
remove_at zero (x ∷ xs) = xs
remove_at (suc node) (x ∷ xs) = x ∷ remove_at node xs

unfoldable pub session_record_get_previous_states_remove :
    SessionRecord → (node : ℕ) → SessionRecord
unfolding remove_at
session_record_get_previous_states_remove r node = record r {
  previous_states = remove_at node r.previous_states;
}

-- `count++; if(count > ARCHIVED_STATES_MAX_LENGTH) DL_DELETE(…)`
unfoldable pub delete_beyond : {A : Type 0} → (count : ℕ) → List A → List A
delete_beyond count [] = []
delete_beyond count (x ∷ xs) =
    let rest = delete_beyond (suc count) xs in
    if ltb archived_states_max_length (suc count) then rest else x ∷ rest

-- DL_PREPEND of the state that was current
unfoldable pub prepend : {A : Type 0} → Option A → List A → List A
prepend none xs = xs
prepend (some x) xs = x ∷ xs

unfoldable pub session_record_promote_state : SessionRecord → SessionState → SessionRecord
unfolding delete_beyond prepend
session_record_promote_state r promoted_state = record r {
  state = some promoted_state;
  previous_states = delete_beyond 0 (prepend r.state r.previous_states);
}

unfoldable pub session_record_archive_current_state : SessionRecord → SessionRecord
unfolding session_record_promote_state session_state_create
session_record_archive_current_state r = session_record_promote_state r session_state_create

module _ (codec : Codec RecordStructure) where
  unfoldable pub session_record_serialize : Option SessionRecord → Result Buffer
  session_record_serialize none = err inval
  session_record_serialize (some r) = pack_checked codec (record {
    currentsession = map_option session_state_serialize_prepare r.state;
    previoussessions = map_list session_state_serialize_prepare r.previous_states;
  })

  unfoldable pub read_record : RecordStructure → Result SessionRecord
  unfolding session_record_create
  read_record s = do
    current_state ← optional session_state_deserialize_protobuf s.currentsession
    previous_states ← each session_state_deserialize_protobuf s.previoussessions
    ok (record (session_record_create current_state) {
      is_fresh = false;
      previous_states = previous_states;
    })

  unfoldable pub session_record_deserialize : Buffer → Result SessionRecord
  unfolding read_record
  session_record_deserialize bytes = elim (codec.unpack bytes) [
    | none ↦ err invalid_proto_buf
    | some s ↦ read_record s
  ]

  unfoldable pub session_record_copy : SessionRecord → Result SessionRecord
  unfolding session_record_serialize session_record_deserialize
  session_record_copy other_record = do
    bytes ← session_record_serialize (some other_record)
    r ← session_record_deserialize bytes
    ok (record r { user_record = other_record.user_record })
