-- ===== src/GroupSession.antt =====
-- group_session_builder.c: how a sender starts a session, and how a receiver takes part in it.
pub mod Process
pub mod Create
pub mod Agree
use rn_signal_protocol_messa.Base.{if◌then◌else◌}
use rn_signal_protocol_messa.Action.{Action, pure, lift, ◌>>=◌, ◌>>◌}
use rn_signal_protocol_messa.KeyRecord.{
  SenderKeyRecord, sender_key_record_is_empty, sender_key_record_get_sender_key_state,
  sender_key_record_add_sender_key_state, sender_key_record_set_sender_key_state,
}
use rn_signal_protocol_messa.GroupMessage.{
  SenderKeyDistributionMessage, sender_key_distribution_message_create,
}
use rn_signal_protocol_messa.KeyHelper.{
  generate_sender_key_id, generate_sender_key, generate_sender_signing_key,
}
use rn_signal_protocol_messa.Store.{
  SenderKeyName, Context, World, on_random, signal_protocol_sender_key_load_key,
  signal_protocol_sender_key_store_key,
}

module _ {S : Type 0} (c : Context S) where
  unfoldable pub group_session_builder_process_session :
      SenderKeyName → SenderKeyDistributionMessage → Action (World S) (Unit {0})
  group_session_builder_process_session name message = do
    r ← signal_protocol_sender_key_load_key c name
    r' ← lift (
        sender_key_record_add_sender_key_state r message.id message.iteration message.chain_key
          message.signature_key)
    signal_protocol_sender_key_store_key c name r'

  -- The record of a sender that has none yet: a new key, stored before it is used.
  unfoldable pub new_session : SenderKeyName → SenderKeyRecord → Action (World S) SenderKeyRecord
  new_session name r = do
    id ← on_random (generate_sender_key_id c.provider)
    sender_key ← on_random (generate_sender_key c.provider)
    pair ← on_random (generate_sender_signing_key c.provider)
    r' ← lift (sender_key_record_set_sender_key_state r id 0 sender_key pair)
    signal_protocol_sender_key_store_key c name r'
    pure r'

  unfoldable pub group_session_builder_create_session :
      SenderKeyName → Action (World S) SenderKeyDistributionMessage
  unfolding new_session
  group_session_builder_create_session name = do
    loaded ← signal_protocol_sender_key_load_key c name
    r ← if sender_key_record_is_empty loaded then new_session name loaded else pure loaded
    state ← lift (sender_key_record_get_sender_key_state r)
    lift (
        sender_key_distribution_message_create c.distribution_codec state.key_id
          state.chain_key.iteration state.chain_key.chain_key state.signature_public_key)
