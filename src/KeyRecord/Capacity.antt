-- ===== src/KeyRecord/Capacity.antt =====
-- A record keeps at most MAX_STATES states, the newest first.
use rn_signal_protocol_messa.Base.{
  ℕ, zero, suc, ◌-◌, ◌≤◌, ◌<◌, ◌≡◌, refl, sym, ap, ◌∙◌, inl, inr, List, [], ◌∷◌, length, take,
  arith, Option, some, none, Bool-cases, ltb, ltb→lt, ltb→le, take_all, take-take, length-take,
}
use rn_signal_protocol_messa.Status.{ok}
use rn_signal_protocol_messa.Crypto.{Buffer}
use rn_signal_protocol_messa.Curve.{PublicKey, PrivateKey, KeyPair}
use rn_signal_protocol_messa.KeyState.{SenderKeyState, sender_key_state_create}
use rn_signal_protocol_messa.KeyRecord.{
  SenderKeyRecord, max_states, drop_last, evict_states, sender_key_record_add_sender_key_state,
  sender_key_record_set_sender_key_state,
}
use rn_signal_protocol_messa.SenderKey.{sender_chain_key_create_lem}

drop_last_lem : (ss : List SenderKeyState) → drop_last ss ≡ take (length ss - 1) ss
unfolding drop_last
drop_last_lem [] = refl
drop_last_lem (s ∷ []) = refl
drop_last_lem (s ∷ t ∷ ss) =
    let more : suc (suc (length ss)) - 1 ≡ suc (suc (length ss) - 1) = omega arith in
    rw more (ap (λ l. s ∷ l) (drop_last_lem (t ∷ ss)))

-- The loop drops from the tail what is over the bound.
evict_states_lem :
    (n : ℕ) (ss : List SenderKeyState) → length ss ≡ n → evict_states n ss ≡ take max_states ss
unfolding evict_states
evict_states_lem zero ss e = sym (take_all max_states ss (omega arith))
evict_states_lem (suc n) ss e = elim (Bool-cases (ltb max_states (suc n))) [
  | inl over ↦
      let many : max_states < suc n = ltb→lt max_states (suc n) over in
      let left : length (drop_last ss) ≡ n =
        ap length (drop_last_lem ss) ∙ omega (arith, length-take (length ss - 1) ss) in
      rw over (
        evict_states_lem n (drop_last ss) left
        ∙ ap (take max_states) (drop_last_lem ss)
        ∙ take-take max_states (length ss - 1) ss (omega arith))
  | inr fits ↦
      rw fits (sym (take_all max_states ss (omega (arith, ltb→le max_states (suc n) fits))))
]

abbrev pub added : (id iteration : ℕ) → Buffer → PublicKey → Option PrivateKey → SenderKeyState
added id iteration chain_key signature_public_key signature_private_key = record {
  key_id = id;
  chain_key = record { iteration = iteration; chain_key = chain_key };
  signature_public_key = signature_public_key;
  signature_private_key = signature_private_key;
  message_keys = [];
}

module _ (r : SenderKeyRecord) (id iteration : ℕ) (chain_key : Buffer) where
  -- A state is added in front of the others with no message keys and no private key, and the newest
  -- MAX_STATES states stay.
  pub add_sender_key_state_lem :
      (signature_key : PublicKey)
      → sender_key_record_add_sender_key_state r id iteration chain_key signature_key
        ≡ ok (record r {
          states = take max_states (added id iteration chain_key signature_key none ∷ r.states);
        })
  unfolding sender_key_record_add_sender_key_state sender_key_state_create
  add_sender_key_state_lem signature_key = rw (
    sender_chain_key_create_lem,
    evict_states_lem (suc (length r.states))
        (added id iteration chain_key signature_key none ∷ r.states) refl,
  )

  -- Setting the state of a sender leaves exactly that state, with both halves of the signing key.
  pub set_sender_key_state_lem :
      (pair : KeyPair)
      → sender_key_record_set_sender_key_state r id iteration chain_key pair
        ≡ ok (record r {
          states = added id iteration chain_key pair.public_key (some pair.private_key) ∷ [];
        })
  unfolding sender_key_record_set_sender_key_state sender_key_state_create
  set_sender_key_state_lem pair = rw sender_chain_key_create_lem

abbrev pub IsBounded : SenderKeyRecord → Type 0
IsBounded r = length r.states ≤ max_states
