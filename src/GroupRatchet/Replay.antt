-- ===== src/GroupRatchet/Replay.antt =====
-- Every call of group_cipher_get_sender_key: when it succeeds, with what, and that no message key
-- is handed out twice.
use rn_signal_protocol_messa.Base.{
  ℕ, suc, ◌+◌, ◌-◌, ◌^◌, ◌≤◌, ◌<◌, ◌≡◌, ap, ◌∙◌, sym, subst, inl, inr, true, false, arith, ltb,
  Bool-cases, ltb→lt, ltb→le, eq→==, refl,
}
use rn_signal_protocol_messa.Status.{ok, err, duplicate_message, ok_injective}
use rn_signal_protocol_messa.Crypto.{Buffer, Provider, HasMac}
use rn_signal_protocol_messa.SenderKey.{SenderMessageKey}
use rn_signal_protocol_messa.KeyState.{SenderKeyState, holds}
use rn_signal_protocol_messa.KeyState.Keys.{holds-unlink}
use rn_signal_protocol_messa.GroupRatchet.{max_future, group_cipher_get_sender_key, SenderChainKey}
use rn_signal_protocol_messa.GroupRatchet.Synced.{
  key_at, IsSynced, remember, remember-IsEarlier, not_held,
}
use rn_signal_protocol_messa.GroupRatchet.Ahead.{
  ahead, ahead-IsSynced, get_sender_key_ahead, get_sender_key_far,
}
use rn_signal_protocol_messa.GroupRatchet.Behind.{
  without, without-IsSynced, get_sender_key_held, get_sender_key_used,
}

module _ (p : Provider) (h : HasMac p) (base : ℕ) (first : Buffer) where
  -- Where an iteration stands, relative to a state.
  data Place (n i : ℕ) (state : SenderKeyState) : Type 0 where
    used : i < base + n → holds state.message_keys i ≡ false → Place n i state
    held : i < base + n → holds state.message_keys i ≡ true → Place n i state
    near : (rounds : ℕ) → i ≡ base + n + rounds → rounds ≤ max_future → Place n i state
    far : base + n + max_future < i → Place n i state

  place : (n i : ℕ) (state : SenderKeyState) → Place n i state
  place n i state = elim (Bool-cases (ltb i (base + n))) [
    | inl before ↦ elim (Bool-cases (holds state.message_keys i)) [
      | inl yes' ↦ held (ltb→lt i (base + n) before) yes'
      | inr no' ↦ used (ltb→lt i (base + n) before) no'
    ]
    | inr later ↦ elim (Bool-cases (ltb (base + n + max_future) i)) [
      | inl over ↦ far (ltb→lt (base + n + max_future) i over)
      | inr within ↦
          near (i - (base + n)) (omega (arith, ltb→le i (base + n) later))
            (omega (arith, ltb→le (base + n + max_future) i within))
    ]
  ]

  module _ (n i : ℕ) (state : SenderKeyState) (s : IsSynced p base first n state)
      (fits : i + 1 < 2 ^ 32) where
    now : state.chain_key.iteration ≡ base + n
    now = ap (λ c. c.iteration) s.chain

    -- What a success says.
    record Given (k : SenderMessageKey) (state' : SenderKeyState) : Type 0 where
      in_chain : base ≤ i
      key : k ≡ key_at p base first (i - base)
      steps : ℕ
      forward : n ≤ steps
      synced : IsSynced p base first steps state'
      spent : i < base + steps
      gone : holds state'.message_keys i ≡ false

    Given-held :
        i < base + n
        → holds state.message_keys i ≡ true
        → Given (key_at p base first (i - base)) (without state i)
    Given-held before there = record {
      in_chain = (get_sender_key_held p base first n i state s before there).0;
      key = refl;
      steps = n;
      forward = omega arith;
      synced = without-IsSynced p base first n i state s;
      spent = before;
      gone = rw (holds-unlink state.message_keys i i s.distinct, eq→== i i refl);
    }

    Given-near :
        (rounds : ℕ)
        → i ≡ base + n + rounds
        → Given (key_at p base first (n + rounds)) (ahead p h base first rounds n state)
    Given-near rounds at = record {
      in_chain = omega arith;
      key = ap (key_at p base first) (omega arith);
      steps = suc (n + rounds);
      forward = omega arith;
      synced = ahead-IsSynced p h base first rounds n state s;
      spent = omega arith;
      gone =
          not_held p base first (n + rounds) i (remember p base first rounds n state).message_keys
            (omega arith) (remember-IsEarlier p base first rounds n state s.keys s.distinct).0;
    }

    Given-at :
        (k : SenderMessageKey) (state' : SenderKeyState)
        → Place n i state
        → group_cipher_get_sender_key p state i ≡ ok (k, state')
        → Given k state'
    Given-at k state' (used before gone) e =
        cc (get_sender_key_used p state i (omega (arith, now)) gone)
    Given-at k state' (held before there) e =
        subst (λ x. Given x.0 x.1)
          (ok_injective (sym (get_sender_key_held p base first n i state s before there).1 ∙ e))
          (Given-held before there)
    Given-at k state' (near rounds at close) e =
        subst (λ x. Given x.0 x.1)
          (ok_injective (
            sym (get_sender_key_ahead p h base first rounds n state s close (omega arith))
            ∙ ap (group_cipher_get_sender_key p state) (sym at)
            ∙ e))
          (Given-near rounds at)
    Given-at k state' (far over) e = cc (get_sender_key_far p state i (omega (arith, now)))

    given :
        (k : SenderMessageKey) (state' : SenderKeyState)
        → group_cipher_get_sender_key p state i ≡ ok (k, state')
        → Given k state'
    given k state' e = Given-at k state' (place n i state) e

    -- With an HMAC-SHA256 that always succeeds with 32 bytes, a state that follows a sender's
    -- chain, and an iteration below 2^32 - 1: what a successful group_cipher_get_sender_key
    -- returns is the sender's key of that iteration, which is not before the chain's start, and
    -- the state that it leaves follows the same chain, as far on as before or farther.
    pub get_sender_key_sound :
        (k : SenderMessageKey) (state' : SenderKeyState)
        → group_cipher_get_sender_key p state i ≡ ok (k, state')
        → (base ≤ i)
          × (k ≡ key_at p base first (i - base))
          × ((steps : ℕ) × (n ≤ steps) × IsSynced p base first steps state')
    get_sender_key_sound k state' e =
        let g = given k state' e in (g.in_chain, g.key, (g.steps, g.forward, g.synced))

    -- With an HMAC-SHA256 that always succeeds with 32 bytes, a state that follows a sender's
    -- chain, and an iteration below 2^32 - 1: no message key is handed out twice. After a
    -- successful group_cipher_get_sender_key the next call for the same iteration is refused as a
    -- duplicate.
    pub get_sender_key_once :
        (k : SenderMessageKey) (state' : SenderKeyState)
        → group_cipher_get_sender_key p state i ≡ ok (k, state')
        → group_cipher_get_sender_key p state' i ≡ err duplicate_message
    get_sender_key_once k state' e =
        let g = given k state' e in
        get_sender_key_used p state' i
          (omega (arith, ap (λ (x : SenderChainKey). x.iteration) g.synced.chain, g.spent)) g.gone
