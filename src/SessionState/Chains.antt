-- ===== src/SessionState/Chains.antt =====
-- session_state.c: the chains of the other side, each with the message keys that were skipped.
use rn_signal_protocol_messa.Base.{
  ℕ, ◌-◌, Bool, true, false, Option, none, some, List, [], ◌∷◌, ◌++◌, length, ltb, ◌==◌,
  if◌then◌else◌,
}
use rn_signal_protocol_messa.Status.{Result, ok, err, unknown}
use rn_signal_protocol_messa.Curve.{PublicKey, ec_public_key_compare}
use rn_signal_protocol_messa.Ratchet.{RatchetChainKey, RatchetMessageKeys}
use rn_signal_protocol_messa.SessionState.{SessionState, ReceiverChain}

-- MAX_MESSAGE_KEYS
abbrev pub max_message_keys : ℕ
max_message_keys = 2000

-- `while(count > 5)`
abbrev pub max_receiver_chains : ℕ
max_receiver_chains = 5

-- The first chain of the list with this key.
unfoldable pub find_chain : List ReceiverChain → PublicKey → Option ReceiverChain
find_chain [] sender_ephemeral = none
find_chain (c ∷ cs) sender_ephemeral =
    if ec_public_key_compare c.sender_ratchet_key (some sender_ephemeral)
    then some c
    else find_chain cs sender_ephemeral

unfoldable pub session_state_find_receiver_chain : SessionState → PublicKey → Option ReceiverChain
unfolding find_chain
session_state_find_receiver_chain state sender_ephemeral =
    find_chain state.receiver_chains sender_ephemeral

-- What a write through the pointer to that chain leaves.
unfoldable pub change_chain :
    List ReceiverChain → PublicKey → (ReceiverChain → ReceiverChain) → List ReceiverChain
change_chain [] sender_ephemeral f = []
change_chain (c ∷ cs) sender_ephemeral f =
    if ec_public_key_compare c.sender_ratchet_key (some sender_ephemeral)
    then f c ∷ cs
    else c ∷ change_chain cs sender_ephemeral f

unfoldable pub holds_counter : List RatchetMessageKeys → ℕ → Bool
holds_counter [] counter = false
holds_counter (k ∷ ks) counter = if k.counter == counter then true else holds_counter ks counter

unfoldable pub session_state_has_message_keys : SessionState → PublicKey → ℕ → Bool
unfolding session_state_find_receiver_chain holds_counter
session_state_has_message_keys state sender_ephemeral counter =
    elim (session_state_find_receiver_chain state sender_ephemeral) [
      | none ↦ false
      | some chain ↦ holds_counter chain.message_keys counter
    ]

-- The first node of the counter is taken out.
unfoldable pub take_counter :
    List RatchetMessageKeys → ℕ → Option RatchetMessageKeys × List RatchetMessageKeys
take_counter [] counter = (none, [])
take_counter (k ∷ ks) counter =
    let (found, rest) = take_counter ks counter in
    if k.counter == counter then (some k, ks) else (found, k ∷ rest)

-- The keys, for the result 1; the result is 0 without them.
unfoldable pub session_state_remove_message_keys :
    SessionState → PublicKey → ℕ → Option RatchetMessageKeys × SessionState
unfolding session_state_find_receiver_chain take_counter
session_state_remove_message_keys state sender_ephemeral counter =
    elim (session_state_find_receiver_chain state sender_ephemeral) [
      | none ↦ (none, state)
      | some chain ↦ (
        (take_counter chain.message_keys counter).0,
        record state {
          receiver_chains =
              change_chain state.receiver_chains sender_ephemeral
                λ c. record c { message_keys = (take_counter c.message_keys counter).1 };
        },
      )
    ]

-- `while(count > most)`: the head goes, and the count goes down.
unfoldable pub drop_oldest : {A : Type 0} → (most count : ℕ) → List A → List A
drop_oldest most count [] = []
drop_oldest most count (x ∷ xs) =
    let rest = drop_oldest most (count - 1) xs in if ltb most count then rest else x ∷ xs

-- A new node at the end, and what is over the bound goes from the head.
unfoldable pub append_within : {A : Type 0} → (most : ℕ) → List A → A → List A
unfolding drop_oldest
append_within most xs x = let all = xs ++ (x ∷ []) in drop_oldest most (length all) all

unfoldable pub session_state_set_message_keys :
    SessionState → PublicKey → RatchetMessageKeys → SessionState
unfolding change_chain append_within
session_state_set_message_keys state sender_ephemeral message_keys = record state {
  receiver_chains =
      change_chain state.receiver_chains sender_ephemeral
        λ c. record c { message_keys = append_within max_message_keys c.message_keys message_keys };
}

unfoldable pub session_state_add_receiver_chain :
    SessionState → PublicKey → RatchetChainKey → SessionState
unfolding append_within
session_state_add_receiver_chain state sender_ratchet_key chain_key = record state {
  receiver_chains = append_within max_receiver_chains state.receiver_chains (record {
    sender_ratchet_key = some sender_ratchet_key;
    chain_key = some chain_key;
    message_keys = [];
  });
}

unfoldable pub session_state_set_receiver_chain_key :
    SessionState → PublicKey → RatchetChainKey → Result SessionState
unfolding session_state_find_receiver_chain change_chain
session_state_set_receiver_chain_key state sender_ephemeral chain_key =
    elim (session_state_find_receiver_chain state sender_ephemeral) [
      | none ↦ err unknown
      | some _ ↦ ok (record state {
        receiver_chains =
            change_chain state.receiver_chains sender_ephemeral
              λ c. record c { chain_key = some chain_key };
      })
    ]

unfoldable pub session_state_get_receiver_chain_key :
    SessionState → PublicKey → Option RatchetChainKey
unfolding session_state_find_receiver_chain
session_state_get_receiver_chain_key state sender_ephemeral =
    elim (session_state_find_receiver_chain state sender_ephemeral) [
      | some chain ↦ chain.chain_key
      | none ↦ none
    ]
