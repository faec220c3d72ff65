-- ===== src/GroupRatchet/Behind.antt =====
-- A message before the chain's iteration: it is decrypted with a key that was skipped, or not at all.
use rn_signal_protocol_messa.Base.{
  ℕ, ◌+◌, ◌-◌, ◌≤◌, ◌<◌, ◌≡◌, ap, ◌∙◌, true, false, arith, lt→ltb, sym,
}
use rn_signal_protocol_messa.Status.{ok, err, duplicate_message}
use rn_signal_protocol_messa.Crypto.{Buffer, Provider}
use rn_signal_protocol_messa.SenderKey.{SenderMessageKey}
use rn_signal_protocol_messa.SenderKey.Chain.{message_key_at, message_key_of}
use rn_signal_protocol_messa.KeyState.{
  SenderKeyState, holds, unlink, sender_key_state_has_sender_message_key,
  sender_key_state_remove_sender_message_key,
}
use rn_signal_protocol_messa.KeyState.Keys.{unlink_held, All-unlink, IsDistinct-unlink}
use rn_signal_protocol_messa.GroupRatchet.{removed, group_cipher_get_sender_key}
use rn_signal_protocol_messa.GroupRatchet.Synced.{key_at, IsEarlier, IsSynced}

-- A message before the chain's iteration whose key is not held, because it was used or was never
-- skipped, is refused as a duplicate, whatever the state.
pub get_sender_key_used :
    (p : Provider) (state : SenderKeyState) (iteration : ℕ)
    → iteration < state.chain_key.iteration
    → holds state.message_keys iteration ≡ false
    → group_cipher_get_sender_key p state iteration ≡ err duplicate_message
unfolding group_cipher_get_sender_key sender_key_state_has_sender_message_key
get_sender_key_used p state iteration before used =
    rw (lt→ltb iteration state.chain_key.iteration before, used)

abbrev pub without : SenderKeyState → ℕ → SenderKeyState
without state iteration = record state { message_keys = (unlink state.message_keys iteration).1 }

module _ (p : Provider) (base : ℕ) (first : Buffer) where
  -- The step of a key that is held, from its iteration.
  step_of_earlier :
      (n i : ℕ) (k : SenderMessageKey)
      → IsEarlier p base first n k
      → k.iteration ≡ i
      → (base ≤ i) × (k ≡ key_at p base first (i - base))
  unfolding message_key_at message_key_of
  step_of_earlier n i k (m, below, e) at =
      let i_at : i ≡ base + m = sym at ∙ ap (λ (j : SenderMessageKey). j.iteration) e in
      let back : i - base ≡ m = omega arith in (omega arith, rw back e)

  -- A message before the chain's iteration whose key is held: the call succeeds with the sender's key
  -- of that iteration, and drops it from the state.
  pub get_sender_key_held :
      (n i : ℕ) (state : SenderKeyState)
      → IsSynced p base first n state
      → i < base + n
      → holds state.message_keys i ≡ true
      → (base ≤ i)
        × (group_cipher_get_sender_key p state i
            ≡ ok (key_at p base first (i - base), without state i))
  unfolding group_cipher_get_sender_key removed sender_key_state_has_sender_message_key
      sender_key_state_remove_sender_message_key
  get_sender_key_held n i state s before held =
      let found = unlink_held (IsEarlier p base first n) state.message_keys i s.keys held in
      let step = step_of_earlier n i found.0 found.3 found.2 in
      let now : state.chain_key.iteration ≡ base + n = ap (λ c. c.iteration) s.chain in
      (
        step.0,
        rw (lt→ltb i state.chain_key.iteration (omega arith), held, found.1, removed) (cc (step.1)),
      )

  pub without-IsSynced :
      (n i : ℕ) (state : SenderKeyState)
      → IsSynced p base first n state
      → IsSynced p base first n (without state i)
  without-IsSynced n i state s = record {
    chain = s.chain;
    keys = All-unlink (IsEarlier p base first n) state.message_keys i s.keys;
    distinct = IsDistinct-unlink state.message_keys i s.distinct;
  }
