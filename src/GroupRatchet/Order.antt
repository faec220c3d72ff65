-- ===== src/GroupRatchet/Order.antt =====
-- Messages in any order: a run of calls of group_cipher_get_sender_key.
use rn_signal_protocol_messa.Base.{
  ℕ, suc, ◌+◌, ◌-◌, ◌^◌, ◌≤◌, ◌<◌, ◌≡◌, ◌≢◌, refl, ap, ◌∙◌, ◌⊎◌, inl, inr, true, List, [], ◌∷◌,
  length, All, All-map, arith, ltb, Bool-cases, ltb→lt, ltb→le,
}
use rn_signal_protocol_messa.Status.{Result, ok, ◌>>=◌}
use rn_signal_protocol_messa.Crypto.{Buffer, Provider, HasMac}
use rn_signal_protocol_messa.SenderKey.{SenderMessageKey}
use rn_signal_protocol_messa.KeyState.{SenderKeyState, max_message_keys, holds}
use rn_signal_protocol_messa.KeyState.Keys.{holds-unlink, length-unlink}
use rn_signal_protocol_messa.GroupRatchet.{group_cipher_get_sender_key}
use rn_signal_protocol_messa.GroupRatchet.Synced.{key_at, IsSynced}
use rn_signal_protocol_messa.GroupRatchet.Kept.{
  length-remember, holds-remember, holds-remember_skipped,
}
use rn_signal_protocol_messa.GroupRatchet.Ahead.{ahead, ahead-IsSynced, get_sender_key_ahead}
use rn_signal_protocol_messa.GroupRatchet.Behind.{without, without-IsSynced, get_sender_key_held}

-- The keys for a sequence of messages, one call after the other; the first error ends it.
unfoldable pub deliver :
    Provider → SenderKeyState → List ℕ → Result (List SenderMessageKey × SenderKeyState)
deliver p state [] = ok ([], state)
deliver p state (i ∷ is) = do
  (k, next) ← group_cipher_get_sender_key p state i
  (ks, last) ← deliver p next is
  ok (k ∷ ks, last)

abbrev pub AreDistinct : List ℕ → Type 0
AreDistinct [] = Unit
AreDistinct (i ∷ is) = All (λ j. j ≢ i) is × AreDistinct is

module _ (p : Provider) (h : HasMac p) (base : ℕ) (first : Buffer) where
  pub keys_of : List ℕ → List SenderMessageKey
  keys_of [] = []
  keys_of (i ∷ is) = key_at p base first (i - base) ∷ keys_of is

  -- An iteration that a state can still yield, in a window that ends before `base + end`.
  abbrev IsWaiting : (end n : ℕ) → SenderKeyState → ℕ → Type 0
  IsWaiting end n state j =
      (j < base + end) × ((base + n ≤ j) ⊎ (holds state.message_keys j ≡ true))

  -- The window still fits into the state.
  record HasRoom (end n : ℕ) (state : SenderKeyState) : Type 0 where
    room : length state.message_keys + (end - n) ≤ max_message_keys
    inside : n ≤ end

  IsWaiting-ahead :
      (end rounds n i : ℕ) (state : SenderKeyState)
      → HasRoom end n state
      → i ≡ base + n + rounds
      → i < base + end
      → (j : ℕ) → j ≢ i
      → IsWaiting end n state j
      → IsWaiting end (suc (n + rounds)) (ahead p h base first rounds n state) j
  IsWaiting-ahead end rounds n i state r at last j other (before, inr there) =
      (before, inr (holds-remember p base first rounds n state (omega arith) j there))
  IsWaiting-ahead end rounds n i state r at last j other (before, inl later) = (
    before,
    elim (Bool-cases (ltb j i)) [
      | inl skipped ↦
          let step : base + (j - base) ≡ j = omega arith in
          inr (
            rw step at (
              holds-remember_skipped p base first rounds n state (omega arith) (j - base)
                (omega arith) (omega (arith, ltb→lt j i skipped))))
      | inr past ↦ inl (omega (arith, ltb→le j i past))
    ],
  )

  IsWaiting-without :
      (end n i : ℕ) (state : SenderKeyState)
      → IsSynced p base first n state
      → (j : ℕ) → j ≢ i
      → IsWaiting end n state j
      → IsWaiting end n (without state i) j
  IsWaiting-without end n i state s j other (before, inl later) = (before, inl later)
  IsWaiting-without end n i state s j other (before, inr there) =
      (before, inr (ground (arith, holds-unlink state.message_keys i j s.distinct)))

  both :
      (P Q R : ℕ → Type 0) (f : (j : ℕ) → P j → Q j → R j) (is : List ℕ)
      → All P is
      → All Q is
      → All R is
  both P Q R f [] a b = tt
  both P Q R f (j ∷ is) a b = (f j a.0 b.0, both P Q R f is a.1 b.1)

  held_of_waiting :
      (end n i : ℕ) (state : SenderKeyState)
      → i < base + n
      → IsWaiting end n state i
      → holds state.message_keys i ≡ true
  held_of_waiting end n i state before (inside, inl later) = absurd (omega arith)
  held_of_waiting end n i state before (inside, inr there) = there

  deliver_lem :
      (is : List ℕ) (end n : ℕ) (state : SenderKeyState)
      → base + end < 2 ^ 32
      → IsSynced p base first n state
      → HasRoom end n state
      → AreDistinct is
      → All (IsWaiting end n state) is
      → (last : SenderKeyState) × (deliver p state is ≡ ok (keys_of is, last))
  unfolding deliver keys_of
  deliver_lem [] end n state fits s r d w = (state, refl)
  deliver_lem (i ∷ is) end n state fits s r d w = elim (Bool-cases (ltb i (base + n))) [
    | inl before ↦
        let there = held_of_waiting end n i state (ltb→lt i (base + n) before) w.0 in
        let call =
          get_sender_key_held p base first n i state s (ltb→lt i (base + n) before) there in
        let rest =
          deliver_lem is end n (without state i) fits (without-IsSynced p base first n i state s)
            (record { room = omega (arith, length-unlink state.message_keys i); inside = r.inside })
            d.1
            (both (λ j. j ≢ i) (IsWaiting end n state) (IsWaiting end n (without state i))
              (IsWaiting-without end n i state s) is d.0 w.1) in
        (rest.0, rw (call.1, rest.1))
    | inr later ↦
        let rounds : ℕ = i - (base + n) in
        let at : i ≡ base + n + rounds = omega (arith, ltb→le i (base + n) later) in
        let step : n + rounds ≡ i - base = omega (arith, ltb→le i (base + n) later) in
        let call : group_cipher_get_sender_key p state i
            ≡ ok (key_at p base first (i - base), ahead p h base first rounds n state) =
          ap (group_cipher_get_sender_key p state) at
          ∙ get_sender_key_ahead p h base first rounds n state s (omega (arith, w.0.0))
              (omega (arith, w.0.0))
          ∙ ap (λ m. ok (key_at p base first m, ahead p h base first rounds n state)) step in
        let rest =
          deliver_lem is end (suc (n + rounds)) (ahead p h base first rounds n state) fits
            (ahead-IsSynced p h base first rounds n state s)
            (record {
              room = omega (
                arith,
                w.0.0,
                length-remember p base first rounds n state (omega (arith, w.0.0)),
              );
              inside = omega (arith, w.0.0);
            })
            d.1
            (both (λ j. j ≢ i) (IsWaiting end n state)
              (IsWaiting end (suc (n + rounds)) (ahead p h base first rounds n state))
              (IsWaiting-ahead end rounds n i state r at w.0.0) is d.0 w.1) in
        (rest.0, rw (call, rest.1))
  ]

  -- With an HMAC-SHA256 that always succeeds with 32 bytes: take a state that follows a sender's
  -- chain, and a window of iterations from the chain's own on, which ends below 2^32 and fits
  -- beside the skipped keys that the state holds already (at most 2000 in all). Any messages of
  -- the window, each once and in any order, all get a key, and each gets the sender's key of its
  -- iteration.
  pub deliver_any_order :
      (is : List ℕ) (window n : ℕ) (state : SenderKeyState)
      → IsSynced p base first n state
      → length state.message_keys + window ≤ max_message_keys
      → base + n + window < 2 ^ 32
      → AreDistinct is
      → All (λ j. (base + n ≤ j) × (j < base + n + window)) is
      → (last : SenderKeyState) × (deliver p state is ≡ ok (keys_of is, last))
  deliver_any_order is window n state s room fits d inside =
      deliver_lem is (n + window) n state (omega arith) s
        (record { room = omega arith; inside = omega arith }) d
        (All-map (λ j. (base + n ≤ j) × (j < base + n + window)) (IsWaiting (n + window) n state)
          (λ j b. (omega (arith, b.1), inl b.0)) is inside)
