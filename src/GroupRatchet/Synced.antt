-- ===== src/GroupRatchet/Synced.antt =====
-- States that follow a sender's chain: where `first` is the chain key of iteration `base`, the chain
-- has gone `n` steps, and every skipped key that is held is the sender's key of an earlier step.
use rn_signal_protocol_messa.Base.{
  ℕ, zero, suc, ◌+◌, ◌-◌, ◌^◌, ◌<◌, ◌≡◌, refl, ap, [], ◌∷◌, ◌++◌, length, All, arith, All-append,
  All-map, lt→ltb, List, ◌≤◌, false,
}
use rn_signal_protocol_messa.Status.{ok}
use rn_signal_protocol_messa.Crypto.{Buffer, Provider, HasMac}
use rn_signal_protocol_messa.SenderKey.{SenderMessageKey, SenderChainKey, add_u32}
use rn_signal_protocol_messa.SenderKey.Chain.{
  chain_after, message_key_of, message_key_at, create_message_key_lem, create_next_lem,
}
use rn_signal_protocol_messa.KeyState.{
  SenderKeyState, max_message_keys, sender_key_state_add_sender_message_key, holds,
}
use rn_signal_protocol_messa.KeyState.Keys.{
  IsDistinct, IsDistinct-append, IsDistinct-drop, All-drop, holds_of_below,
}
use rn_signal_protocol_messa.KeyState.Capacity.{add_sender_message_key_lem}
use rn_signal_protocol_messa.GroupRatchet.{skip, skip_loop}

module _ (p : Provider) (base : ℕ) (first : Buffer) where
  abbrev pub key_at : ℕ → SenderMessageKey
  key_at = message_key_at p base first

  abbrev pub chain_at : ℕ → SenderChainKey
  chain_at n = record { iteration = base + n; chain_key = chain_after p first n }

  -- The key of a step before step `n`.
  abbrev pub IsEarlier : ℕ → SenderMessageKey → Type 0
  IsEarlier n k = (m : ℕ) × (m < n) × (k ≡ key_at m)

  pub record IsSynced (n : ℕ) (state : SenderKeyState) : Type 0 where
    pub chain : state.chain_key ≡ chain_at n
    pub keys : All (IsEarlier n) state.message_keys
    pub distinct : IsDistinct state.message_keys

  -- The keys of `rounds` steps from step `n` on are kept, one after the other.
  unfoldable pub remember : (rounds n : ℕ) → SenderKeyState → SenderKeyState
  remember zero n state = state
  remember (suc rounds) n state =
      remember rounds (suc n) (sender_key_state_add_sender_message_key state (key_at n))

  iteration_of_earlier : (n : ℕ) (k : SenderMessageKey) → IsEarlier n k → k.iteration < base + n
  unfolding message_key_at message_key_of
  iteration_of_earlier n k (m, below, e) =
      omega (arith, ap (λ (j : SenderMessageKey). j.iteration) e)

  -- No key is held at the chain's iteration or later.
  pub not_held :
      (n i : ℕ) (ks : List SenderMessageKey)
      → base + n ≤ i
      → All (IsEarlier n) ks
      → holds ks i ≡ false
  not_held n i ks later keys =
      holds_of_below ks (base + n) i
        (All-map (IsEarlier n) (λ k. k.iteration < base + n) (iteration_of_earlier n) ks keys) later

  pub weaken :
      (m n : ℕ) (ks : List SenderMessageKey) → m ≤ n → All (IsEarlier m) ks → All (IsEarlier n) ks
  weaken m n ks h = All-map (IsEarlier m) (IsEarlier n) (λ k e. (e.0, omega (arith, e.1), e.2)) ks

  -- One step more: what is held, and the key of the step.
  add-IsEarlier :
      (n : ℕ) (state : SenderKeyState)
      → All (IsEarlier n) state.message_keys
      → IsDistinct state.message_keys
      → All
          (IsEarlier (suc n))
          (sender_key_state_add_sender_message_key state (key_at n)).message_keys
        × IsDistinct (sender_key_state_add_sender_message_key state (key_at n)).message_keys
  unfolding message_key_at message_key_of
  add-IsEarlier n state keys distinct =
      let all = state.message_keys ++ (key_at n ∷ []) in
      let over = length all - max_message_keys in
      rw (add_sender_message_key_lem state (key_at n)) (
        All-drop (IsEarlier (suc n)) over all (
            All-append (IsEarlier (suc n)) state.message_keys (key_at n ∷ [])
              (weaken n (suc n) state.message_keys (omega arith) keys)
              ((n, omega arith, refl), tt)),
        IsDistinct-drop over all (
            IsDistinct-append state.message_keys (key_at n) distinct
              (not_held n (base + n) state.message_keys (omega arith) keys)),
      )

  pub remember-IsEarlier :
      (rounds n : ℕ) (state : SenderKeyState)
      → All (IsEarlier n) state.message_keys
      → IsDistinct state.message_keys
      → All (IsEarlier (n + rounds)) (remember rounds n state).message_keys
        × IsDistinct (remember rounds n state).message_keys
  unfolding remember
  remember-IsEarlier zero n state keys distinct =
      let e : n + 0 ≡ n = omega arith in rw e (keys, distinct)
  remember-IsEarlier (suc rounds) n state keys distinct =
      let e : n + suc rounds ≡ suc n + rounds = omega arith in
      let added = add-IsEarlier n state keys distinct in
      rw e (
        remember-IsEarlier rounds (suc n) (sender_key_state_add_sender_message_key state (key_at n))
          added.0 added.1)

  module _ (h : HasMac p) where
    skip_lem :
        (n : ℕ) (state : SenderKeyState)
        → base + n + 1 < 2 ^ 32
        → skip p (chain_at n) state
          ≡ ok (chain_at (suc n), sender_key_state_add_sender_message_key state (key_at n))
    unfolding skip chain_after message_key_at
    skip_lem n state fits =
        let next : add_u32 (base + n) 1 ≡ base + suc n = omega arith in
        rw (create_message_key_lem p h (chain_at n), create_next_lem p h (chain_at n), next)

    -- The loop ends by its test, at the iteration that is asked for.
    pub skip_loop_lem :
        (rounds n : ℕ) (state : SenderKeyState)
        → base + n + rounds < 2 ^ 32
        → skip_loop p rounds (chain_at n) (base + n + rounds) state
          ≡ ok (chain_at (n + rounds), remember rounds n state)
    unfolding skip_loop remember
    skip_loop_lem zero n state fits = let e : n + 0 ≡ n = omega arith in rw e
    skip_loop_lem (suc rounds) n state fits =
        let on : base + n + suc rounds ≡ base + suc n + rounds = omega arith in
        let all : n + suc rounds ≡ suc n + rounds = omega arith in
        rw
          (
            lt→ltb (base + n) (base + n + suc rounds) (omega arith),
            skip_lem n state (omega arith),
            on,
            all,
          )
          (skip_loop_lem rounds (suc n) (sender_key_state_add_sender_message_key state (key_at n))
            (omega arith))
