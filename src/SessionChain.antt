-- ===== src/SessionChain.antt =====
-- session_cipher.c: the chain to receive on for a ratchet key of the other side. The code works on a
-- copy of the state, and drops the copy after an error: an error leaves no state.
pub mod Step
use rn_signal_protocol_messa.Base.{
  ℕ, zero, suc, ◌-◌, ◌/◌, ◌%◌, Bool, true, false, Option, none, some, [], ◌∷◌, ◌++◌, replicate, ltb,
  leb, if◌then◌else◌,
}
use rn_signal_protocol_messa.Status.{
  Result, ok, err, unknown, duplicate_message, invalid_message, required,
}
use rn_signal_protocol_messa.Action.{Action, pure, lift, ◌>>=◌}
use rn_signal_protocol_messa.Crypto.{Buffer, Provider, Cipher, aes_ctr_nopadding, aes_cbc_pkcs5}
use rn_signal_protocol_messa.Curve.{PublicKey, KeyPair, curve_generate_key_pair}
use rn_signal_protocol_messa.Ratchet.{
  RatchetChainKey, RatchetRootKey, RatchetMessageKeys, ratchet_root_key_create_chain,
  ratchet_chain_key_get_message_keys, ratchet_chain_key_create_next,
}
use rn_signal_protocol_messa.SessionState.{
  SessionState, session_state_get_sender_ratchet_key_pair, session_state_get_sender_chain_key,
  session_state_set_root_key, session_state_set_previous_counter, session_state_set_sender_chain,
}
use rn_signal_protocol_messa.SessionState.Chains.{
  session_state_get_receiver_chain_key, session_state_add_receiver_chain,
  session_state_remove_message_keys, session_state_set_message_keys,
  session_state_set_receiver_chain_key,
}

module _ (p : Provider) where
  -- A new ratchet key of the other side: a chain to receive on, then a new key pair of this side
  -- and a chain to send on.
  unfoldable pub ratchet_step : SessionState → PublicKey → Action ℕ (RatchetChainKey × SessionState)
  ratchet_step state their_ephemeral = do
    root_key ← lift (required state.root_key unknown)
    our_ephemeral ← lift (required (session_state_get_sender_ratchet_key_pair state) unknown)
    (receiver_root_key, receiver_chain_key) ← lift (
        ratchet_root_key_create_chain p root_key (some their_ephemeral)
          (some our_ephemeral.private_key))
    our_new_ephemeral ← curve_generate_key_pair p
    (sender_root_key, sender_chain_key) ← lift (
        ratchet_root_key_create_chain p receiver_root_key (some their_ephemeral)
          (some our_new_ephemeral.private_key))
    previous ← lift (required (session_state_get_sender_chain_key state) unknown)
    pure (
      receiver_chain_key,
      session_state_set_sender_chain
          (session_state_set_previous_counter
            (session_state_add_receiver_chain (session_state_set_root_key state sender_root_key)
              their_ephemeral receiver_chain_key)
            (previous.index - 1))
          our_new_ephemeral sender_chain_key,
    )

  unfoldable pub session_cipher_get_or_create_chain_key :
      SessionState → PublicKey → Action ℕ (RatchetChainKey × SessionState)
  unfolding ratchet_step
  session_cipher_get_or_create_chain_key state their_ephemeral =
      elim (session_state_get_receiver_chain_key state their_ephemeral) [
        | some chain_key ↦ pure (chain_key, state)
        | none ↦ ratchet_step state their_ephemeral
      ]
