-- ===== src/SessionRecord/Archive.antt =====
-- How many states of a session are kept, and in which order.
use rn_signal_protocol_messa.Base.{
  ℕ, zero, suc, ◌-◌, ◌≤◌, ◌≡◌, ◌∙◌, sym, ap, some, List, [], ◌∷◌, length, take, inl, inr, ltb,
  arith, length-take, Bool-cases, take_nil,
}
use rn_signal_protocol_messa.SessionState.{SessionState, session_state_create}
use rn_signal_protocol_messa.SessionRecord.{
  SessionRecord, archived_states_max_length, session_record_set_state, remove_at,
  session_record_get_previous_states_remove, delete_beyond, prepend, session_record_promote_state,
  session_record_archive_current_state,
}

-- The loop keeps the first states.
delete_beyond_lem :
    {A : Type 0} (count : ℕ) (xs : List A)
    → delete_beyond count xs ≡ take (archived_states_max_length - count) xs
unfolding delete_beyond
delete_beyond_lem count [] = sym (take_nil (archived_states_max_length - count))
delete_beyond_lem count (x ∷ xs) = elim (Bool-cases (ltb archived_states_max_length (suc count))) [
  | inl beyond ↦
      let none_left : 40 - count ≡ 0 = ground arith in
      let none_left' : 40 - suc count ≡ 0 = ground arith in
      rw (beyond, none_left) (delete_beyond_lem (suc count) xs ∙ ap (λ n. take n xs) none_left')
  | inr within ↦
      let more : 40 - count ≡ suc (40 - suc count) = ground arith in
      rw (within, more) (ap (λ ys. x ∷ ys) (delete_beyond_lem (suc count) xs))
]

length-remove_at : {A : Type 0} (node : ℕ) (xs : List A) → length (remove_at node xs) ≤ length xs
unfolding remove_at
length-remove_at node [] = omega arith
length-remove_at zero (x ∷ xs) = omega arith
length-remove_at (suc node) (x ∷ xs) = omega (arith, length-remove_at node xs)

-- The state that is promoted is current, the one that was current is the first of the previous
-- states, and of these the latest 40 are left.
pub promote_state_lem :
    (r : SessionRecord) (promoted current : SessionState)
    → r.state ≡ some current
    → session_record_promote_state r promoted ≡ record r {
      state = some promoted;
      previous_states = take archived_states_max_length (current ∷ r.previous_states);
    }
unfolding session_record_promote_state prepend
promote_state_lem r promoted current is_current =
    rw (is_current, delete_beyond_lem 0 (current ∷ r.previous_states))

-- What the code does with a record, after it was made or read.
pub data Step : SessionRecord → SessionRecord → Type 0 where
  set_state : (r : SessionRecord) (state : SessionState) → Step r (session_record_set_state r state)
  remove_previous :
      (r : SessionRecord) (node : ℕ) → Step r (session_record_get_previous_states_remove r node)
  promote_state :
      (r : SessionRecord) (state : SessionState) → Step r (session_record_promote_state r state)
  archive_current_state : (r : SessionRecord) → Step r (session_record_archive_current_state r)

pub data Steps : SessionRecord → SessionRecord → Type 0 where
  done : (r : SessionRecord) → Steps r r
  then_step : {r s t : SessionRecord} → Steps r s → Step s t → Steps r t

abbrev pub IsBounded : SessionRecord → Type 0
IsBounded r = length r.previous_states ≤ archived_states_max_length

promote-IsBounded :
    (r : SessionRecord) (state : SessionState) → IsBounded (session_record_promote_state r state)
unfolding session_record_promote_state
promote-IsBounded r state =
    let all = prepend r.state r.previous_states in
    rw (delete_beyond_lem 0 all) (omega (arith, length-take archived_states_max_length all))

Step-IsBounded : {r s : SessionRecord} → Step r s → IsBounded r → IsBounded s
unfolding session_record_get_previous_states_remove session_record_archive_current_state
Step-IsBounded (set_state r state) bound = bound
Step-IsBounded (remove_previous r node) bound =
    omega (arith, length-remove_at node r.previous_states)
Step-IsBounded (promote_state r state) bound = promote-IsBounded r state
Step-IsBounded (archive_current_state r) bound = promote-IsBounded r session_state_create

-- From a record with at most 40 previous states, as a new one is, no sequence of the operations
-- that change its states leads to a record with more than 40.
pub Steps-IsBounded : {r s : SessionRecord} → Steps r s → IsBounded r → IsBounded s
Steps-IsBounded (done r) bound = bound
Steps-IsBounded (then_step steps step) bound = Step-IsBounded step (Steps-IsBounded steps bound)
