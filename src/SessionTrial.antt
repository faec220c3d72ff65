-- ===== src/SessionTrial.antt =====
-- session_cipher.c, session_cipher_decrypt_from_record_and_signal_message: a message is tried on a
-- copy of the current state, then on copies of the previous states, the latest first.
pub mod Search
use rn_signal_protocol_messa.Base.{ℕ, suc, Option, none, some, List, [], ◌∷◌}
use rn_signal_protocol_messa.Status.{Error, Result, ok, err, invalid_message}
use rn_signal_protocol_messa.Action.{Action, pure, lift, ◌>>=◌}
use rn_signal_protocol_messa.Crypto.{Buffer, Provider, Codec}
use rn_signal_protocol_messa.SignalMessage.{SignalMessage}
use rn_signal_protocol_messa.SessionState.{SessionState}
use rn_signal_protocol_messa.SessionState.Structure.{SessionStructure}
use rn_signal_protocol_messa.SessionState.Reading.{session_state_copy}
use rn_signal_protocol_messa.SessionRecord.{
  SessionRecord, session_record_set_state, session_record_get_previous_states_remove,
  session_record_promote_state,
}
use rn_signal_protocol_messa.SessionCipher.{session_cipher_decrypt_from_state_and_signal_message}

-- Only SG_ERR_INVALID_MESSAGE leads on to the next state; every other error ends the search.
unfoldable pub resolve :
    {S A B : Type 0} → Result A × S → (A → Action S B) → Action S B → Result B × S
resolve (ok a, s) found next = found a s
resolve (err invalid_message, s) found next = next s
resolve (err e, s) found next = (err e, s)

abbrev pub or_next : {S A B : Type 0} → Action S A → (A → Action S B) → Action S B → Action S B
or_next first found next s = resolve (first s) found next

module _ (p : Provider) (codec : Codec SessionStructure) (ciphertext : SignalMessage) where
  -- One state: `found` takes the plaintext and the changed copy.
  unfoldable pub try_state :
      SessionState
      → (Buffer × SessionState → Action ℕ (Buffer × SessionRecord))
      → Action ℕ (Buffer × SessionRecord)
      → Action ℕ (Buffer × SessionRecord)
  unfolding session_cipher_decrypt_from_state_and_signal_message resolve session_state_copy
  try_state state found next = do
    state_copy ← lift (session_state_copy codec state)
    or_next (session_cipher_decrypt_from_state_and_signal_message p state_copy ciphertext) found
        next

  -- `while(previous_states_node)`
  unfoldable pub try_previous :
      (node : ℕ) → List SessionState → SessionRecord → Action ℕ (Buffer × SessionRecord)
  unfolding try_state session_record_get_previous_states_remove session_record_promote_state
  try_previous node [] r = lift (err invalid_message)
  try_previous node (state ∷ states) r =
      let rest = try_previous (suc node) states r in
      try_state state
        (λ (plaintext, state_copy). pure (
          plaintext,
          session_record_promote_state (session_record_get_previous_states_remove r node)
              state_copy,
        ))
        rest

  unfoldable pub session_cipher_decrypt_from_record_and_signal_message :
      SessionRecord → Action ℕ (Buffer × SessionRecord)
  unfolding try_previous
  session_cipher_decrypt_from_record_and_signal_message r =
      let previous = try_previous 0 r.previous_states r in
      elim r.state [
        | none ↦ previous
        | some state ↦
            try_state state
              (λ (plaintext, state_copy). pure (plaintext, session_record_set_state r state_copy))
              previous
      ]
