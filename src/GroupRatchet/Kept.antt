-- ===== src/GroupRatchet/Kept.antt =====
-- What `remember` leaves: with room for all of them no key is lost, and the rest of the state stays.
use rn_signal_protocol_messa.Base.{
  ℕ, zero, suc, ◌+◌, ◌≤◌, ◌<◌, ◌≡◌, refl, ap, ◌∙◌, inl, inr, true, List, [], ◌∷◌, ◌++◌, length,
  arith, length-append, ◌==◌, Bool-cases, eq→==, append-nil, append_assoc,
}
use rn_signal_protocol_messa.Crypto.{Buffer, Provider}
use rn_signal_protocol_messa.SenderKey.Chain.{message_key_of, message_key_at}
use rn_signal_protocol_messa.KeyState.{SenderKeyState, max_message_keys, holds}
use rn_signal_protocol_messa.KeyState.Capacity.{add_sender_message_key_room}
use rn_signal_protocol_messa.GroupRatchet.Synced.{key_at, remember}
use rn_signal_protocol_messa.SenderKey.{SenderMessageKey}

module _ (p : Provider) (base : ℕ) (first : Buffer) where
  -- The keys are appended, as long as there is room.
  pub keys_from : (rounds n : ℕ) → List SenderMessageKey
  keys_from zero n = []
  keys_from (suc rounds) n = key_at p base first n ∷ keys_from rounds (suc n)

  pub remember_room :
      (rounds n : ℕ) (state : SenderKeyState)
      → length state.message_keys + rounds ≤ max_message_keys
      → remember p base first rounds n state
        ≡ record state { message_keys = state.message_keys ++ keys_from rounds n }
  unfolding remember keys_from
  remember_room zero n state room = rw append-nil
  remember_room (suc rounds) n state room =
      let key = key_at p base first n in
      rw (add_sender_message_key_room state key (omega arith)) (
        remember_room rounds (suc n)
          (record state { message_keys = state.message_keys ++ (key ∷ []) })
          (omega (arith, length-append state.message_keys (key ∷ [])))
        ∙ ap (λ l. record state { message_keys = l })
            (append_assoc state.message_keys (key ∷ []) (keys_from rounds (suc n))))

  length-keys_from : (rounds n : ℕ) → length (keys_from rounds n) ≡ rounds
  unfolding keys_from
  length-keys_from zero n = refl
  length-keys_from (suc rounds) n = ap suc (length-keys_from rounds (suc n))

  holds_left :
      (xs ys : List SenderMessageKey) (i : ℕ) → holds xs i ≡ true → holds (xs ++ ys) i ≡ true
  unfolding holds
  holds_left [] ys i h = cc
  holds_left (x ∷ xs) ys i h = ground (arith, holds_left xs ys i)

  holds_right :
      (xs ys : List SenderMessageKey) (i : ℕ) → holds ys i ≡ true → holds (xs ++ ys) i ≡ true
  unfolding holds
  holds_right [] ys i h = h
  holds_right (x ∷ xs) ys i h = ground (arith, holds_right xs ys i)

  holds-keys_from :
      (rounds n m : ℕ) → n ≤ m → m < n + rounds → holds (keys_from rounds n) (base + m) ≡ true
  unfolding keys_from holds message_key_at message_key_of
  holds-keys_from zero n m low high = absurd (omega arith)
  holds-keys_from (suc rounds) n m low high = elim (Bool-cases (n == m)) [
    | inl here ↦ rw (eq→== (base + n) (base + m) (ground arith))
    | inr later ↦ ground (arith, holds-keys_from rounds (suc n) m)
  ]

  module _ (rounds n : ℕ) (state : SenderKeyState)
      (room : length state.message_keys + rounds ≤ max_message_keys) where
    pub length-remember :
        length (remember p base first rounds n state).message_keys
        ≡ length state.message_keys + rounds
    length-remember = rw (remember_room rounds n state room) (
        omega
          (arith, length-append state.message_keys (keys_from rounds n), length-keys_from rounds n))

    -- A key that was held is held.
    pub holds-remember :
        (i : ℕ)
        → holds state.message_keys i ≡ true
        → holds (remember p base first rounds n state).message_keys i ≡ true
    holds-remember i h =
        rw (remember_room rounds n state room)
          (holds_left state.message_keys (keys_from rounds n) i h)

    -- The keys of the steps that were skipped are held.
    pub holds-remember_skipped :
        (m : ℕ)
        → n ≤ m
        → m < n + rounds
        → holds (remember p base first rounds n state).message_keys (base + m) ≡ true
    holds-remember_skipped m low high = rw (remember_room rounds n state room) (
        holds_right state.message_keys (keys_from rounds n) (base + m)
          (holds-keys_from rounds n m low high))
