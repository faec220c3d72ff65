-- ===== src/SessionSkip.antt =====
-- session_cipher.c: the keys of a message from the chain that is received on, and the keys of the
-- messages before it.
pub mod Loop
pub mod Ahead
use rn_signal_protocol_messa.Base.{ℕ, zero, suc, ◌-◌, Option, none, some, ltb, if◌then◌else◌}
use rn_signal_protocol_messa.Status.{Result, ok, err, duplicate_message, invalid_message, ◌>>=◌}
use rn_signal_protocol_messa.Crypto.{Provider}
use rn_signal_protocol_messa.Curve.{PublicKey}
use rn_signal_protocol_messa.Ratchet.{
  RatchetChainKey, RatchetMessageKeys, ratchet_chain_key_get_message_keys,
  ratchet_chain_key_create_next,
}
use rn_signal_protocol_messa.SessionState.{SessionState}
use rn_signal_protocol_messa.SessionState.Chains.{
  session_state_remove_message_keys, session_state_set_message_keys,
  session_state_set_receiver_chain_key,
}

-- "Over 2000 messages into the future!"
abbrev pub max_future : ℕ
max_future = 2000

-- The result 0 of a removal.
unfoldable pub removed :
    Option RatchetMessageKeys × SessionState → Result (RatchetMessageKeys × SessionState)
removed (none, state) = err duplicate_message
removed (some keys, state) = ok (keys, state)

module _ (p : Provider) (their_ephemeral : PublicKey) where
  -- One round of the loop.
  unfoldable pub skip : RatchetChainKey → SessionState → Result (RatchetChainKey × SessionState)
  skip cur_chain_key state = do
    message_keys ← ratchet_chain_key_get_message_keys p cur_chain_key
    next_chain_key ← ratchet_chain_key_create_next p cur_chain_key
    ok (next_chain_key, session_state_set_message_keys state their_ephemeral message_keys)

  -- `while(index of cur_chain_key < counter)`, for as many rounds as they are apart.
  unfoldable pub skip_loop :
      (rounds : ℕ) → RatchetChainKey → ℕ → SessionState → Result (RatchetChainKey × SessionState)
  unfolding skip
  skip_loop zero cur_chain_key counter state = ok (cur_chain_key, state)
  skip_loop (suc rounds) cur_chain_key counter state =
      let rest =
        skip cur_chain_key state >>= λ (next, state'). skip_loop rounds next counter state' in
      if ltb cur_chain_key.index counter then rest else ok (cur_chain_key, state)

  unfoldable pub step_past :
      RatchetChainKey × SessionState → Result (RatchetMessageKeys × SessionState)
  step_past (cur_chain_key, state) = do
    next_chain_key ← ratchet_chain_key_create_next p cur_chain_key
    state' ← session_state_set_receiver_chain_key state their_ephemeral next_chain_key
    message_keys ← ratchet_chain_key_get_message_keys p cur_chain_key
    ok (message_keys, state')

  unfoldable pub session_cipher_get_or_create_message_keys :
      SessionState → RatchetChainKey → (counter : ℕ) → Result (RatchetMessageKeys × SessionState)
  unfolding skip_loop removed step_past
  session_cipher_get_or_create_message_keys state chain_key counter =
      if ltb counter chain_key.index
      then removed (session_state_remove_message_keys state their_ephemeral counter)
      else if ltb max_future (counter - chain_key.index)
      then err invalid_message
      else skip_loop (counter - chain_key.index) chain_key counter state >>= step_past
