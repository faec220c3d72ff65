-- ===== src/Examples/Session.antt =====
-- Runs of the group sessions and of what they store: group_session_builder.c.
use rn_signal_protocol_messa.Base.{◌≡◌, ◌≤◌, refl, none, [], length}
use rn_signal_protocol_messa.Status.{Result, ok, err}
use rn_signal_protocol_messa.Crypto.{Buffer}
use rn_signal_protocol_messa.KeyState.{SenderKeyState}
use rn_signal_protocol_messa.KeyRecord.{SenderKeyRecord, max_states}
use rn_signal_protocol_messa.KeyRecord.RoundTrip.{IsWellFormed}
use rn_signal_protocol_messa.GroupMessage.{SenderKeyDistributionMessage}
use rn_signal_protocol_messa.Store.{World, signal_protocol_sender_key_load_key}
use rn_signal_protocol_messa.GroupCipher.EndToEnd.{IsReceiver}
use rn_signal_protocol_messa.GroupSession.{
  group_session_builder_create_session, group_session_builder_process_session,
}
use rn_signal_protocol_messa.GroupSession.Create.{create_session_again}
use rn_signal_protocol_messa.GroupSession.Process.{process_session_joins}
use rn_signal_protocol_messa.Examples.Setting.{
  Map, context, context-IsContext, distribution_codec, pair, first_chain_key, sender_state,
  receiver_state, record_of, alice, empty_world, sender_world, receiver_world, sender-Loads,
  receiver-Loads, receiver-IsWellFormed,
}

abbrev nobody : SenderKeyRecord
nobody = record { states = []; user_record = none }

abbrev value_or : {A : Type 0} → A → Result A → A
value_or a (ok b) = b
value_or a (err e) = a

abbrev creation : Result SenderKeyDistributionMessage × World Map
creation = group_session_builder_create_session context alice empty_world

abbrev told : SenderKeyDistributionMessage
told =
    value_or
      (record {
        id = 0;
        iteration = 0;
        chain_key = [];
        signature_key = record { point = [] };
        serialized = [];
      })
      creation.0

create_session_again_example :
    (bytes : Buffer) × (group_session_builder_create_session context alice sender_world ≡ (
      ok (record {
        id = 9;
        iteration = 0;
        chain_key = first_chain_key;
        signature_key = pair.public_key;
        serialized = bytes;
      }),
      sender_world,
    ))
create_session_again_example =
    create_session_again context context-IsContext alice none sender_world sender_state []
      distribution_codec.laws sender-Loads

abbrev news : SenderKeyDistributionMessage
news = record {
  id = 12;
  iteration = 4;
  chain_key = first_chain_key;
  signature_key = pair.public_key;
  serialized = [];
}

process_session_joins_example :
    (v' : World Map) × (r' : SenderKeyRecord) × (state : SenderKeyState)
    × (group_session_builder_process_session context alice news receiver_world ≡ (ok tt, v'))
    × (signal_protocol_sender_key_load_key context alice v' ≡ (ok r', v'))
    × IsWellFormed context.provider r'
    × (length r'.states ≤ max_states)
    × IsReceiver context.provider pair 4 first_chain_key 0 12 r' state
process_session_joins_example =
    process_session_joins context context-IsContext alice (record_of receiver_state) news
      receiver_world pair refl refl receiver-IsWellFormed receiver-Loads
