-- ===== src/KeyRecord/ById.antt =====
-- The state of an id, and a write through its pointer.
use rn_signal_protocol_messa.Base.{
  ℕ, ◌≡◌, refl, inl, inr, List, [], ◌∷◌, All, Bool-cases, ◌==◌, ==→eq, eq→==, subst, length, ap,
  suc,
}
use rn_signal_protocol_messa.Status.{ok, ok_injective}
use rn_signal_protocol_messa.KeyState.{SenderKeyState}
use rn_signal_protocol_messa.KeyRecord.{find_state, replace_state}

module _ (id : ℕ) where
  pub find_id :
      (ss : List SenderKeyState) (s : SenderKeyState) → find_state ss id ≡ ok s → s.key_id ≡ id
  unfolding find_state
  find_id [] s h = cc
  find_id (t ∷ ts) s h = elim (Bool-cases (t.key_id == id)) [
    | inl here ↦ cc (==→eq t.key_id id here, ok_injective (rw here at h))
    | inr there ↦ find_id ts s (rw there at h)
  ]

  -- After a write the state of the id is the one that was written.
  pub find-replace :
      (ss : List SenderKeyState) (s later : SenderKeyState)
      → find_state ss id ≡ ok s
      → later.key_id ≡ id
      → find_state (replace_state ss id later) id ≡ ok later
  unfolding find_state replace_state
  find-replace [] s later h e = cc
  find-replace (t ∷ ts) s later h e = elim (Bool-cases (t.key_id == id)) [
    | inl here ↦ rw (here, eq→== later.key_id id e)
    | inr there ↦ rw (there, there) (find-replace ts s later (rw there at h) e)
  ]

  pub length-replace :
      (ss : List SenderKeyState) (later : SenderKeyState)
      → length (replace_state ss id later) ≡ length ss
  unfolding replace_state
  length-replace [] later = refl
  length-replace (t ∷ ts) later = elim (Bool-cases (t.key_id == id)) [
    | inl here ↦ rw here
    | inr there ↦ rw there (ap suc (length-replace ts later))
  ]

module _ (P : SenderKeyState → Type 0) (id : ℕ) where
  pub All-find :
      (ss : List SenderKeyState) (s : SenderKeyState) → find_state ss id ≡ ok s → All P ss → P s
  unfolding find_state
  All-find [] s h all = cc
  All-find (t ∷ ts) s h all = elim (Bool-cases (t.key_id == id)) [
    | inl here ↦ subst P (ok_injective (rw here at h)) all.0
    | inr there ↦ All-find ts s (rw there at h) all.1
  ]

  pub All-replace :
      (ss : List SenderKeyState) (later : SenderKeyState)
      → P later
      → All P ss
      → All P (replace_state ss id later)
  unfolding replace_state
  All-replace [] later h all = tt
  All-replace (t ∷ ts) later h all = elim (Bool-cases (t.key_id == id)) [
    | inl here ↦ rw here (h, all.1)
    | inr there ↦ rw there (all.0, All-replace ts later h all.1)
  ]
