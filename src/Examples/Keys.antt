-- ===== src/Examples/Keys.antt =====
-- Runs of the ratchet of a group and of the lists that it keeps: group_cipher.c, sender_key_state.c
-- and sender_key_record.c.
use rn_signal_protocol_messa.Base.{ℕ, ◌≡◌, ◌≤◌, none, [], ◌∷◌, arith}
use rn_signal_protocol_messa.Status.{ok, err, duplicate_message}
use rn_signal_protocol_messa.SenderKey.{SenderMessageKey}
use rn_signal_protocol_messa.KeyState.{SenderKeyState, sender_key_state_add_sender_message_key}
use rn_signal_protocol_messa.KeyState.Capacity.{add_sender_message_key_lem}
use rn_signal_protocol_messa.KeyRecord.{sender_key_record_add_sender_key_state}
use rn_signal_protocol_messa.KeyRecord.Capacity.{added, add_sender_key_state_lem}
use rn_signal_protocol_messa.GroupRatchet.{group_cipher_get_sender_key}
use rn_signal_protocol_messa.GroupRatchet.Synced.{key_at, IsSynced}
use rn_signal_protocol_messa.GroupRatchet.Ahead.{ahead, get_sender_key_ahead}
use rn_signal_protocol_messa.GroupRatchet.Replay.{get_sender_key_sound, get_sender_key_once}
use rn_signal_protocol_messa.GroupRatchet.Order.{deliver, keys_of, deliver_any_order}
use rn_signal_protocol_messa.GroupRatchet.WellFormed.{get_sender_key-Follows, Follows}
use rn_signal_protocol_messa.Examples.Setting.{
  context, context-IsContext, first_chain_key, receiver_state, receiver-IsSynced, record_of, pair,
  receiver-IsWellFormed,
}

-- A message two iterations ahead.
abbrev third_key : SenderMessageKey
third_key = key_at context.provider 0 first_chain_key 2

abbrev third_state : SenderKeyState
third_state = ahead context.provider context-IsContext.has_mac 0 first_chain_key 2 0 receiver_state

third_run :
    group_cipher_get_sender_key context.provider receiver_state 2 ≡ ok (third_key, third_state)
third_run =
    get_sender_key_ahead context.provider context-IsContext.has_mac 0 first_chain_key 2 0
      receiver_state receiver-IsSynced (omega arith) (omega arith)

get_sender_key_sound_example :
    (0 ≤ 2)
    × (third_key ≡ key_at context.provider 0 first_chain_key 2)
    × ((steps : ℕ) × (0 ≤ steps) × IsSynced context.provider 0 first_chain_key steps third_state)
get_sender_key_sound_example =
    get_sender_key_sound context.provider context-IsContext.has_mac 0 first_chain_key 0 2
      receiver_state receiver-IsSynced (omega arith) third_key third_state third_run

get_sender_key_once_example :
    group_cipher_get_sender_key context.provider third_state 2 ≡ err duplicate_message
get_sender_key_once_example =
    get_sender_key_once context.provider context-IsContext.has_mac 0 first_chain_key 0 2
      receiver_state receiver-IsSynced (omega arith) third_key third_state third_run

get_sender_key-Follows_example :
    Follows context.provider context-IsContext.has_mac receiver_state third_state
get_sender_key-Follows_example =
    get_sender_key-Follows context.provider context-IsContext.has_mac receiver_state 2 third_key
      third_state receiver-IsWellFormed.0 third_run

-- The last of three messages comes first.
deliver_any_order_example :
    (last : SenderKeyState) × (deliver context.provider receiver_state (2 ∷ 0 ∷ 1 ∷ [])
      ≡ ok (
        keys_of context.provider context-IsContext.has_mac 0 first_chain_key (2 ∷ 0 ∷ 1 ∷ []),
        last,
      ))
deliver_any_order_example =
    deliver_any_order context.provider context-IsContext.has_mac 0 first_chain_key (2 ∷ 0 ∷ 1 ∷ [])
      3 0 receiver_state receiver-IsSynced (omega arith) (omega arith)
      (
        (λ e. omega (arith, e), (λ e. omega (arith, e), tt)),
        ((λ e. omega (arith, e), tt), (tt, tt)),
      )
      ((omega arith, omega arith), ((omega arith, omega arith), ((omega arith, omega arith), tt)))

add_sender_message_key_lem_example :
    sender_key_state_add_sender_message_key receiver_state third_key
    ≡ record receiver_state { message_keys = third_key ∷ [] }
add_sender_message_key_lem_example = add_sender_message_key_lem receiver_state third_key

add_sender_key_state_lem_example :
    sender_key_record_add_sender_key_state
      (record_of receiver_state)
      12
      4
      first_chain_key
      pair.public_key
    ≡ ok (record {
      states = added 12 4 first_chain_key pair.public_key none ∷ receiver_state ∷ [];
      user_record = none;
    })
add_sender_key_state_lem_example =
    add_sender_key_state_lem (record_of receiver_state) 12 4 first_chain_key pair.public_key
