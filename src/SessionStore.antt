-- ===== src/SessionStore.antt =====
-- signal_protocol.c: the session store of the client behind its callbacks, and what the calls on a
-- session share.
use rn_signal_protocol_messa.Base.{ℕ, Option, none, some, ◌==◌, if◌then◌else◌}
use rn_signal_protocol_messa.Status.{Result, ok, err, unknown, other}
use rn_signal_protocol_messa.Action.{Action, lift, pure, ◌>>=◌}
use rn_signal_protocol_messa.Crypto.{Buffer, Provider, Codec}
use rn_signal_protocol_messa.Store.{Loaded, World, on_store}
use rn_signal_protocol_messa.SignalMessage.{SignalMessageStructure}
use rn_signal_protocol_messa.PreKeyMessage.{PreKeySignalMessageStructure}
use rn_signal_protocol_messa.SessionState.Structure.{SessionStructure}
use rn_signal_protocol_messa.SessionRecord.{
  SessionRecord, RecordStructure, session_record_create, session_record_serialize,
  session_record_deserialize, session_record_set_user_record,
}

-- `signal_protocol_address`
pub record Address : Type 0 where
  pub name : Buffer
  pub device_id : ℕ

-- `signal_protocol_session_store`, over the client's own state. `contains_session` returns 1, 0 or
-- another number that is not negative.
pub record SessionStore (S : Type 0) : Type 0 where
  pub load_session : Address → Action S Loaded
  pub store_session : Address → Buffer → Option Buffer → Action S (Unit {0})
  pub contains_session : Address → Action S ℕ

pub record SessionContext (S : Type 0) : Type 0 where
  pub provider : Provider
  pub state_codec : Codec SessionStructure
  pub record_codec : Codec RecordStructure
  pub message_codec : Codec SignalMessageStructure
  pub pre_key_message_codec : Codec PreKeySignalMessageStructure
  pub session_store : SessionStore S

-- `if(user_buffer) session_record_set_user_record(…)`
unfoldable pub attach : Option Buffer → SessionRecord → SessionRecord
attach none r = r
attach (some user) r = session_record_set_user_record r user

module _ {S : Type 0} (c : SessionContext S) where
  -- 0 wants no buffer, 1 wants one, and any other number is an error. The code -1 is `other 1`.
  unfoldable pub read_loaded : ℕ → Option Buffer → Result SessionRecord
  read_loaded code none =
      if code == 0
      then ok (session_record_create none)
      else if code == 1
      then err (other 1)
      else err unknown
  read_loaded code (some bytes) =
      if code == 0
      then err unknown
      else if code == 1
      then session_record_deserialize c.record_codec bytes
      else err unknown

  unfoldable pub signal_protocol_session_load_session : Address → Action (World S) SessionRecord
  unfolding read_loaded attach
  signal_protocol_session_load_session address = do
    loaded ← on_store (c.session_store.load_session address)
    r ← lift (read_loaded loaded.code loaded.buffer)
    pure (attach loaded.user_buffer r)

  unfoldable pub signal_protocol_session_store_session :
      Address → SessionRecord → Action (World S) (Unit {0})
  signal_protocol_session_store_session address r = do
    bytes ← lift (session_record_serialize c.record_codec (some r))
    on_store (c.session_store.store_session address bytes r.user_record)

  unfoldable pub signal_protocol_session_contains_session : Address → Action (World S) ℕ
  signal_protocol_session_contains_session address =
      on_store (c.session_store.contains_session address)
