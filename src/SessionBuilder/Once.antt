-- ===== src/SessionBuilder/Once.antt =====
-- A first message that has started a session does not start it again.
use rn_signal_protocol_messa.Base.{◌≡◌, some}
use rn_signal_protocol_messa.GroupMessage.{current_version}
use rn_signal_protocol_messa.SessionState.{SessionState}
use rn_signal_protocol_messa.SessionRecord.{SessionRecord}
use rn_signal_protocol_messa.PreKeyMessage.{PreKeySignalMessage}

-- A record whose current state is the session of a message.
record Started (r : SessionRecord) (message : PreKeySignalMessage) : Type 0 where
  state : SessionState
  is_state : r.state ≡ some state
  version : state.session_version ≡ current_version
  base : state.alice_base_key ≡ some message.base_key
