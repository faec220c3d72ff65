-- ===== src/GroupRatchet/Ahead.antt =====
-- A message at the chain's iteration or later.
use rn_signal_protocol_messa.Base.{
  ℕ, suc, ◌+◌, ◌-◌, ◌^◌, ◌≤◌, ◌<◌, ◌≡◌, refl, subst, sym, arith, le→ltb, lt→ltb,
}
use rn_signal_protocol_messa.Status.{ok, err, invalid_message}
use rn_signal_protocol_messa.Crypto.{Buffer, Provider, HasMac}
use rn_signal_protocol_messa.SenderKey.{add_u32}
use rn_signal_protocol_messa.SenderKey.Chain.{
  chain_after, message_key_at, create_message_key_lem, create_next_lem,
}
use rn_signal_protocol_messa.KeyState.{SenderKeyState, sender_key_state_set_chain_key}
use rn_signal_protocol_messa.GroupRatchet.{max_future, step_past, group_cipher_get_sender_key}
use rn_signal_protocol_messa.GroupRatchet.Synced.{
  key_at, chain_at, IsSynced, remember, remember-IsEarlier, skip_loop_lem, weaken,
}

-- A message more than 2000 iterations ahead of the chain is refused, whatever the state.
pub get_sender_key_far :
    (p : Provider) (state : SenderKeyState) (iteration : ℕ)
    → state.chain_key.iteration + max_future < iteration
    → group_cipher_get_sender_key p state iteration ≡ err invalid_message
unfolding group_cipher_get_sender_key
get_sender_key_far p state iteration far = rw (
  le→ltb iteration state.chain_key.iteration (omega arith),
  lt→ltb max_future (iteration - state.chain_key.iteration) (omega arith),
)

module _ (p : Provider) (h : HasMac p) (base : ℕ) (first : Buffer) where
  -- The state after a message `rounds` iterations ahead of step `n`.
  abbrev pub ahead : (rounds n : ℕ) → SenderKeyState → SenderKeyState
  ahead rounds n state = record (remember p base first rounds n state) {
    chain_key = chain_at p base first (suc (n + rounds));
  }

  settled :
      (n : ℕ) (state : SenderKeyState)
      → IsSynced p base first n state
      → record state { chain_key = chain_at p base first n } ≡ state
  settled n state s = λ i. record state { chain_key = sym s.chain i }

  get_sender_key_settled :
      (rounds n : ℕ) (state : SenderKeyState)
      → rounds ≤ max_future
      → base + n + rounds + 1 < 2 ^ 32
      → group_cipher_get_sender_key p
          (record state { chain_key = chain_at p base first n })
          (base + n + rounds)
        ≡ ok (
          key_at p base first (n + rounds),
          ahead rounds n (record state { chain_key = chain_at p base first n }),
        )
  unfolding group_cipher_get_sender_key step_past sender_key_state_set_chain_key chain_after
      message_key_at
  get_sender_key_settled rounds n state near fits =
      let apart : base + n + rounds - (base + n) ≡ rounds = omega arith in
      let next : add_u32 (base + (n + rounds)) 1 ≡ base + suc (n + rounds) = omega arith in
      rw (
        le→ltb (base + n + rounds) (base + n) (omega arith),
        apart,
        le→ltb max_future rounds near,
        skip_loop_lem p base first h rounds n (record state { chain_key = chain_at p base first n })
            (omega arith),
        create_next_lem p h (chain_at p base first (n + rounds)),
        create_message_key_lem p h (chain_at p base first (n + rounds)),
        next,
      )

  -- Up to 2000 iterations ahead of the chain the call succeeds with the sender's key of that
  -- iteration. The chain is then one step past it, and the keys of the skipped iterations are kept.
  pub get_sender_key_ahead :
      (rounds n : ℕ) (state : SenderKeyState)
      → IsSynced p base first n state
      → rounds ≤ max_future
      → base + n + rounds + 1 < 2 ^ 32
      → group_cipher_get_sender_key p state (base + n + rounds)
        ≡ ok (key_at p base first (n + rounds), ahead rounds n state)
  get_sender_key_ahead rounds n state s near fits =
      subst
        (λ x.
          group_cipher_get_sender_key p x (base + n + rounds)
          ≡ ok (key_at p base first (n + rounds), ahead rounds n x))
        (settled n state s) (get_sender_key_settled rounds n state near fits)

  pub ahead-IsSynced :
      (rounds n : ℕ) (state : SenderKeyState)
      → IsSynced p base first n state
      → IsSynced p base first (suc (n + rounds)) (ahead rounds n state)
  ahead-IsSynced rounds n state s =
      let kept = remember-IsEarlier p base first rounds n state s.keys s.distinct in
      record {
        chain = refl;
        keys =
            weaken p base first (n + rounds) (suc (n + rounds))
              (remember p base first rounds n state).message_keys (omega arith) kept.0;
        distinct = kept.1;
      }
