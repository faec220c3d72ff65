-- ===== src/GroupRatchet.antt =====
-- group_cipher.c, group_cipher_get_sender_key: from the state of a sender, the message key of an
-- iteration, and the state without it.
pub mod Synced
pub mod Kept
pub mod Ahead
pub mod Behind
pub mod Replay
pub mod Order
pub mod WellFormed
use rn_signal_protocol_messa.Base.{
  ℕ, zero, suc, ◌-◌, Bool, true, false, Option, none, some, ltb, if◌then◌else◌,
}
use rn_signal_protocol_messa.Status.{
  Result, ok, err, unknown, duplicate_message, invalid_message, ◌>>=◌,
}
use rn_signal_protocol_messa.Crypto.{Provider}
use rn_signal_protocol_messa.SenderKey.{
  SenderMessageKey, SenderChainKey, sender_chain_key_create_message_key,
  sender_chain_key_create_next,
}
use rn_signal_protocol_messa.KeyState.{
  SenderKeyState, sender_key_state_set_chain_key, sender_key_state_has_sender_message_key,
  sender_key_state_add_sender_message_key, sender_key_state_remove_sender_message_key,
}

abbrev pub max_future : ℕ
max_future = 2000

-- The null result of a removal.
unfoldable pub removed :
    Option SenderMessageKey × SenderKeyState → Result (SenderMessageKey × SenderKeyState)
removed (none, state) = err unknown
removed (some key, state) = ok (key, state)

module _ (p : Provider) where
  -- One round of the loop: the key of the chain is kept for later, and the chain moves on.
  unfoldable pub skip : SenderChainKey → SenderKeyState → Result (SenderChainKey × SenderKeyState)
  skip chain_key state = do
    message_key ← sender_chain_key_create_message_key p chain_key
    next_chain_key ← sender_chain_key_create_next p chain_key
    ok (next_chain_key, sender_key_state_add_sender_message_key state message_key)

  -- `while(iteration of chain_key < iteration)`, for as many rounds as the iterations are apart.
  unfoldable pub skip_loop :
      (rounds : ℕ) → SenderChainKey → ℕ → SenderKeyState → Result (SenderChainKey × SenderKeyState)
  unfolding skip
  skip_loop zero chain_key iteration state = ok (chain_key, state)
  skip_loop (suc rounds) chain_key iteration state =
      let rest =
        skip chain_key state >>= λ (next, state'). skip_loop rounds next iteration state' in
      if ltb chain_key.iteration iteration then rest else ok (chain_key, state)

  -- The last part: the chain goes past the iteration, whose key is the result.
  unfoldable pub step_past :
      SenderChainKey × SenderKeyState → Result (SenderMessageKey × SenderKeyState)
  step_past (chain_key, state) = do
    next_chain_key ← sender_chain_key_create_next p chain_key
    key ← sender_chain_key_create_message_key p chain_key
    ok (key, sender_key_state_set_chain_key state next_chain_key)

  unfoldable pub group_cipher_get_sender_key :
      SenderKeyState → ℕ → Result (SenderMessageKey × SenderKeyState)
  unfolding skip_loop removed step_past
  group_cipher_get_sender_key state iteration =
      let now = state.chain_key.iteration in
      if ltb iteration now
      then if sender_key_state_has_sender_message_key state iteration
        then removed (sender_key_state_remove_sender_message_key state iteration)
        else err duplicate_message
      else if ltb max_future (iteration - now)
      then err invalid_message
      else skip_loop (iteration - now) state.chain_key iteration state >>= step_past
