-- ===== src/KeyState/Capacity.antt =====
-- The skipped message keys stay within MAX_MESSAGE_KEYS, and the newest are the ones that are kept.
use rn_signal_protocol_messa.Base.{
  suc, ◌-◌, ◌≤◌, ◌<◌, ◌≡◌, List, [], ◌∷◌, ◌++◌, length, drop, arith, length-append, length-drop,
  sym, inl, inr, drop_nil, Bool-cases, ltb, ltb→lt, ltb→le,
}
use rn_signal_protocol_messa.SenderKey.{SenderMessageKey}
use rn_signal_protocol_messa.KeyState.{
  SenderKeyState, max_message_keys, evict, sender_key_state_add_sender_message_key,
}

-- The loop drops from the head what is over the bound.
pub evict_lem :
    (ks : List SenderMessageKey) → evict (length ks) ks ≡ drop (length ks - max_message_keys) ks
unfolding evict
evict_lem [] = sym (drop_nil (0 - max_message_keys))
evict_lem (k ∷ ks) = elim (Bool-cases (ltb max_message_keys (suc (length ks)))) [
  | inl over ↦
      let less : suc (length ks) - 1 ≡ length ks = omega arith in
      let more : suc (length ks) - max_message_keys ≡ suc (length ks - max_message_keys) =
        omega (arith, ltb→lt max_message_keys (suc (length ks)) over) in
      rw (over, less, more) (evict_lem ks)
  | inr fits ↦
      let zero_over : suc (length ks) - max_message_keys ≡ 0 =
        omega (arith, ltb→le max_message_keys (suc (length ks)) fits) in
      rw (fits, zero_over)
]

abbrev pub IsBounded : SenderKeyState → Type 0
IsBounded state = length state.message_keys ≤ max_message_keys

-- Adding a key leaves at most MAX_MESSAGE_KEYS keys, whatever was there.
pub add_sender_message_key-IsBounded :
    (state : SenderKeyState) (key : SenderMessageKey)
    → IsBounded (sender_key_state_add_sender_message_key state key)
unfolding sender_key_state_add_sender_message_key
add_sender_message_key-IsBounded state key =
    let keys = state.message_keys ++ (key ∷ []) in
    rw evict_lem (omega (arith, length-drop (length keys - max_message_keys) keys))

-- With room for one more the new key stands last, and no other is lost.
pub add_sender_message_key_room :
    (state : SenderKeyState) (key : SenderMessageKey)
    → length state.message_keys < max_message_keys
    → sender_key_state_add_sender_message_key state key
      ≡ record state { message_keys = state.message_keys ++ (key ∷ []) }
unfolding sender_key_state_add_sender_message_key
add_sender_message_key_room state key room =
    let keys = state.message_keys ++ (key ∷ []) in
    let zero_over : length keys - max_message_keys ≡ 0 =
      omega (arith, length-append state.message_keys (key ∷ [])) in
    rw (evict_lem, zero_over)

-- After a message key is added the list is the old one with the new key last, less the oldest
-- keys, as many as are over MAX_MESSAGE_KEYS; nothing else of the state changes.
pub add_sender_message_key_lem :
    (state : SenderKeyState) (key : SenderMessageKey)
    → sender_key_state_add_sender_message_key state key ≡ record state {
      message_keys =
          drop
            (length (state.message_keys ++ (key ∷ [])) - max_message_keys)
            (state.message_keys ++ (key ∷ []));
    }
unfolding sender_key_state_add_sender_message_key
add_sender_message_key_lem state key = rw evict_lem
