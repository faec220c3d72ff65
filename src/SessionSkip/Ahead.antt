-- ===== src/SessionSkip/Ahead.antt =====
-- A message at the counter of the chain or later.
use rn_signal_protocol_messa.Base.{
  ℕ, suc, ◌+◌, ◌-◌, ◌^◌, ◌≤◌, ◌<◌, ◌≡◌, ◌∙◌, refl, sym, ap, subst, some, List, ◌∷◌, ◌++◌, length,
  arith, le→ltb, lt→ltb,
}
use rn_signal_protocol_messa.Status.{ok, err, invalid_message}
use rn_signal_protocol_messa.Crypto.{Provider, HasMac}
use rn_signal_protocol_messa.Curve.{PublicKey}
use rn_signal_protocol_messa.Ratchet.{RatchetChainKey}
use rn_signal_protocol_messa.Ratchet.Keys.{
  IsVersion, message_keys_of, next_of, get_message_keys_lem, create_next_lem,
}
use rn_signal_protocol_messa.SessionState.{SessionState, ReceiverChain}
use rn_signal_protocol_messa.SessionState.Chains.{
  session_state_find_receiver_chain, session_state_set_receiver_chain_key, max_message_keys,
  change_chain,
}
use rn_signal_protocol_messa.SessionState.Bounded.{
  latest, find_chain-change_chain, split_found, change_chain_at,
}
use rn_signal_protocol_messa.SessionState.Ahead.{chain_after, kdf_of_chain_after}
use rn_signal_protocol_messa.SessionSkip.{
  max_future, step_past, session_cipher_get_or_create_message_keys,
}
use rn_signal_protocol_messa.SessionSkip.Loop.{
  with_keys, next_keys, remember, skip_loop_lem, remember_rest, find-remember, remember_at,
}

-- The chain with its key replaced.
abbrev moved : ReceiverChain → RatchetChainKey → ReceiverChain
moved chain chain_key = record chain { chain_key = some chain_key }

module _ (p : Provider) where
  -- A message more than 2000 counters ahead of the chain is refused, whatever the state.
  pub get_or_create_message_keys_far :
      (their_ephemeral : PublicKey) (state : SessionState) (chain_key : RatchetChainKey)
      (counter : ℕ)
      → chain_key.index + max_future < counter
      → session_cipher_get_or_create_message_keys p their_ephemeral state chain_key counter
        ≡ err invalid_message
  unfolding session_cipher_get_or_create_message_keys
  get_or_create_message_keys_far their_ephemeral state chain_key counter far = rw (
    le→ltb counter chain_key.index (omega arith),
    lt→ltb max_future (counter - chain_key.index) (omega arith),
  )

module _ (p : Provider) (h : HasMac p) (theirs : PublicKey) where
  set_receiver_chain_key_lem :
      (state : SessionState) (chain : ReceiverChain) (chain_key : RatchetChainKey)
      → session_state_find_receiver_chain state theirs ≡ some chain
      → (state' : SessionState) × (session_state_set_receiver_chain_key state theirs chain_key
          ≡ ok state')
        × (session_state_find_receiver_chain state' theirs ≡ some (moved chain chain_key))
        × (state' ≡ record state {
          receiver_chains = change_chain state.receiver_chains theirs λ c. moved c chain_key;
        })
  unfolding session_state_set_receiver_chain_key session_state_find_receiver_chain
  set_receiver_chain_key_lem state chain chain_key found = (
    record state {
      receiver_chains = change_chain state.receiver_chains theirs λ c. moved c chain_key;
    },
    rw (found, session_state_set_receiver_chain_key),
    find_chain-change_chain theirs (λ c. moved c chain_key) state.receiver_chains chain (λ c. refl)
        found,
    refl,
  )

  -- A chain of the other side is held with at most 2000 keys, its key is of version 2 or 3, and the
  -- MAC never fails. For a counter up to 2000 ahead of the chain key, within 32 bits, the call
  -- succeeds with the keys of that message. The chain is found again one step past the message, and
  -- with the keys of the messages that were skipped, of which the oldest are gone beyond 2000; it
  -- stands at its old place between the chains before and after it, which are as they were, and the
  -- rest of the state is as before.
  pub get_or_create_message_keys_ahead :
      (state : SessionState) (chain : ReceiverChain) (chain_key : RatchetChainKey) (rounds : ℕ)
      → session_state_find_receiver_chain state theirs ≡ some chain
      → length chain.message_keys ≤ max_message_keys
      → IsVersion chain_key.kdf
      → rounds ≤ max_future
      → chain_key.index + rounds < 2 ^ 32
      → (state' : SessionState) × (session_cipher_get_or_create_message_keys p theirs state
            chain_key
            (chain_key.index + rounds)
          ≡ ok (message_keys_of p (chain_after p rounds chain_key), state'))
        × (session_state_find_receiver_chain state' theirs
            ≡ some (record chain {
              chain_key = some (chain_after p (suc rounds) chain_key);
              message_keys =
                  latest max_message_keys (chain.message_keys ++ next_keys p rounds chain_key);
            }))
        × (before after : List ReceiverChain) × (state.receiver_chains ≡ before ++ (chain ∷ after))
        × (state' ≡ record state {
          receiver_chains =
              before
              ++ (record chain {
                chain_key = some (chain_after p (suc rounds) chain_key);
                message_keys =
                    latest max_message_keys (chain.message_keys ++ next_keys p rounds chain_key);
              }
                  ∷ after);
        })
  unfolding session_cipher_get_or_create_message_keys step_past chain_after
      session_state_find_receiver_chain
  get_or_create_message_keys_ahead state chain chain_key rounds found bound v near fits =
      let last = chain_after p rounds chain_key in
      let new_keys = latest max_message_keys (chain.message_keys ++ next_keys p rounds chain_key) in
      let (before, after, parts, missing, here) =
        split_found theirs state.receiver_chains chain found in
      let apart : chain_key.index + rounds - chain_key.index ≡ rounds = omega arith in
      let (state', set, found', rest) =
        set_receiver_chain_key_lem (remember p h theirs rounds chain_key state)
          (with_keys chain
            (latest max_message_keys (chain.message_keys ++ next_keys p rounds chain_key)))
          (next_of p last) (find-remember p h theirs rounds chain_key state chain bound found) in
      (
        state',
        rw (
          le→ltb (chain_key.index + rounds) chain_key.index (omega arith),
          apart,
          le→ltb max_future rounds near,
          skip_loop_lem p h theirs rounds chain_key state v fits,
          create_next_lem p h last,
          set,
          get_message_keys_lem p h last
              (subst (λ k. IsVersion k) (sym (kdf_of_chain_after p rounds chain_key)) v),
        ),
        found',
        before,
        after,
        parts,
        rest
            ∙ ap
                (λ (s : SessionState). record s {
                  receiver_chains =
                      change_chain (remember p h theirs rounds chain_key state).receiver_chains
                        theirs λ c. moved c (next_of p last);
                })
                (remember_rest p h theirs rounds chain_key state)
            ∙ ap (λ cs. record state { receiver_chains = cs })
                (rw
                  (remember_at p h theirs rounds chain_key state chain before after bound missing
                    here parts)
                  (change_chain_at theirs before after (with_keys chain new_keys)
                    (λ c. moved c (next_of p last)) missing here)),
      )
