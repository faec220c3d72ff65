-- ===== src/SessionSkip/Loop.antt =====
-- The loop over the messages that are skipped: the keys that it keeps, and what it leaves alone.
use rn_signal_protocol_messa.Base.{
  ℕ, zero, suc, ◌+◌, ◌^◌, ◌≤◌, ◌<◌, ◌≡◌, ◌∙◌, refl, sym, ap, some, List, [], ◌∷◌, ◌++◌, length,
  arith, lt→ltb, append_assoc, append-nil, none, true,
}
use rn_signal_protocol_messa.Status.{ok}
use rn_signal_protocol_messa.Crypto.{Provider, HasMac}
use rn_signal_protocol_messa.Curve.{PublicKey, ec_public_key_compare}
use rn_signal_protocol_messa.Ratchet.{RatchetChainKey, RatchetMessageKeys}
use rn_signal_protocol_messa.Ratchet.Keys.{
  IsVersion, message_keys_of, next_of, get_message_keys_lem, create_next_lem,
}
use rn_signal_protocol_messa.SenderKey.{add_u32}
use rn_signal_protocol_messa.SessionState.{SessionState, ReceiverChain}
use rn_signal_protocol_messa.SessionState.Chains.{
  session_state_find_receiver_chain, session_state_set_message_keys, max_message_keys,
  append_within, find_chain,
}
use rn_signal_protocol_messa.SessionState.Bounded.{
  latest, latest-append, latest_all, append_within_lem, length-latest, find_chain-change_chain,
  change_chain_at,
}
use rn_signal_protocol_messa.SessionState.Ahead.{chain_after, chain_after_next}
use rn_signal_protocol_messa.SessionSkip.{skip, skip_loop}

abbrev pub with_keys : ReceiverChain → List RatchetMessageKeys → ReceiverChain
with_keys chain keys = record chain { message_keys = keys }

module _ (p : Provider) where
  -- The keys of the next messages of a chain.
  abbrev pub next_keys : (rounds : ℕ) → RatchetChainKey → List RatchetMessageKeys
  next_keys zero chain_key = []
  next_keys (suc rounds) chain_key =
      message_keys_of p chain_key ∷ next_keys rounds (next_of p chain_key)

module _ (p : Provider) (h : HasMac p) (theirs : PublicKey) where
  -- The state after some rounds of the loop.
  unfoldable pub remember : (rounds : ℕ) → RatchetChainKey → SessionState → SessionState
  remember zero chain_key state = state
  remember (suc rounds) chain_key state =
      remember rounds (next_of p chain_key)
        (session_state_set_message_keys state theirs (message_keys_of p chain_key))

  -- The loop ends by its test, at the counter that is asked for.
  pub skip_loop_lem :
      (rounds : ℕ) (chain_key : RatchetChainKey) (state : SessionState)
      → IsVersion chain_key.kdf
      → chain_key.index + rounds < 2 ^ 32
      → skip_loop p theirs rounds chain_key (chain_key.index + rounds) state
        ≡ ok (chain_after p rounds chain_key, remember rounds chain_key state)
  unfolding skip_loop skip remember chain_after
  skip_loop_lem zero chain_key state v fits = refl
  skip_loop_lem (suc rounds) chain_key state v fits =
      let on : chain_key.index + suc rounds ≡ add_u32 chain_key.index 1 + rounds = omega arith in
      rw
        (
          lt→ltb chain_key.index (chain_key.index + suc rounds) (omega arith),
          get_message_keys_lem p h chain_key v,
          create_next_lem p h chain_key,
          on,
        )
        (skip_loop_lem rounds (next_of p chain_key)
            (session_state_set_message_keys state theirs (message_keys_of p chain_key)) v
            (omega arith)
          ∙ ap (λ c. ok (c, remember (suc rounds) chain_key state))
              (chain_after_next p rounds chain_key))

  -- The loop changes the chains alone.
  pub remember_rest :
      (rounds : ℕ) (chain_key : RatchetChainKey) (state : SessionState)
      → remember rounds chain_key state
        ≡ record state { receiver_chains = (remember rounds chain_key state).receiver_chains }
  unfolding remember session_state_set_message_keys
  remember_rest zero chain_key state = refl
  remember_rest (suc rounds) chain_key state =
      remember_rest rounds (next_of p chain_key)
        (session_state_set_message_keys state theirs (message_keys_of p chain_key))

  find-set_message_keys :
      (keys : RatchetMessageKeys) (state : SessionState) (chain : ReceiverChain)
      → session_state_find_receiver_chain state theirs ≡ some chain
      → session_state_find_receiver_chain (session_state_set_message_keys state theirs keys) theirs
        ≡ some (with_keys chain (latest max_message_keys (chain.message_keys ++ (keys ∷ []))))
  unfolding session_state_find_receiver_chain session_state_set_message_keys
  find-set_message_keys keys state chain found =
      find_chain-change_chain theirs
        (λ c. with_keys c (append_within max_message_keys c.message_keys keys))
        state.receiver_chains chain (λ c. refl) found
      ∙ ap (λ ks. some (with_keys chain ks))
          (append_within_lem max_message_keys chain.message_keys keys)

  pub find-remember :
      (rounds : ℕ) (chain_key : RatchetChainKey) (state : SessionState) (chain : ReceiverChain)
      → length chain.message_keys ≤ max_message_keys
      → session_state_find_receiver_chain state theirs ≡ some chain
      → session_state_find_receiver_chain (remember rounds chain_key state) theirs
        ≡ some (
            with_keys chain
              (latest max_message_keys (chain.message_keys ++ next_keys p rounds chain_key)))
  unfolding remember
  find-remember zero chain_key state chain bound found =
      found
      ∙ ap (λ ks. some (with_keys chain ks))
          (sym (
            ap (latest max_message_keys) (append-nil chain.message_keys)
            ∙ latest_all max_message_keys chain.message_keys bound))
  find-remember (suc rounds) chain_key state chain bound found =
      let key = message_keys_of p chain_key in
      let one = chain.message_keys ++ (key ∷ []) in
      let more = next_keys p rounds (next_of p chain_key) in
      find-remember rounds (next_of p chain_key) (session_state_set_message_keys state theirs key)
        (with_keys chain (latest max_message_keys one)) (length-latest max_message_keys one)
        (find-set_message_keys key state chain found)
      ∙ ap (λ ks. some (with_keys chain ks))
          (latest-append max_message_keys one more
            ∙ ap (latest max_message_keys) (append_assoc chain.message_keys (key ∷ []) more))

  -- The loop leaves the chains of other keys as they are.
  pub remember_at :
      (rounds : ℕ) (chain_key : RatchetChainKey) (state : SessionState) (chain : ReceiverChain)
      (before after : List ReceiverChain)
      → length chain.message_keys ≤ max_message_keys
      → find_chain before theirs ≡ none
      → ec_public_key_compare chain.sender_ratchet_key (some theirs) ≡ true
      → state.receiver_chains ≡ before ++ (chain ∷ after)
      → (remember rounds chain_key state).receiver_chains
        ≡ before
          ++ (with_keys chain
                (latest max_message_keys (chain.message_keys ++ next_keys p rounds chain_key))
              ∷ after)
  unfolding remember session_state_set_message_keys
  remember_at zero chain_key state chain before after bound missing here parts =
      parts
      ∙ ap (λ ks. before ++ (with_keys chain ks ∷ after))
          (sym (
            ap (latest max_message_keys) (append-nil chain.message_keys)
            ∙ latest_all max_message_keys chain.message_keys bound))
  remember_at (suc rounds) chain_key state chain before after bound missing here parts =
      let key = message_keys_of p chain_key in
      let one = chain.message_keys ++ (key ∷ []) in
      let more = next_keys p rounds (next_of p chain_key) in
      let changed : (session_state_set_message_keys state theirs key).receiver_chains
          ≡ before ++ (with_keys chain (latest max_message_keys one) ∷ after) =
        rw parts (
          change_chain_at theirs before after chain
            (λ c. with_keys c (append_within max_message_keys c.message_keys key)) missing here
          ∙ ap (λ ks. before ++ (with_keys chain ks ∷ after))
              (append_within_lem max_message_keys chain.message_keys key)) in
      remember_at rounds (next_of p chain_key) (session_state_set_message_keys state theirs key)
        (with_keys chain (latest max_message_keys one)) before after
        (length-latest max_message_keys one) missing here changed
      ∙ ap (λ ks. before ++ (with_keys chain ks ∷ after))
          (latest-append max_message_keys one more
            ∙ ap (latest max_message_keys) (append_assoc chain.message_keys (key ∷ []) more))
