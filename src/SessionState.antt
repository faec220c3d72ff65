-- ===== src/SessionState.antt =====
-- session_state.c: the state of a session of two. A flag and its struct are an option, since the
-- struct is zero while the flag is; a null pointer is `none`. The chains of the other side stand in
-- the order of the list, the oldest first. An assertion that a pointer is not null is the type of
-- the argument.
pub mod Chains
pub mod Bounded
pub mod Structure
pub mod Reading
pub mod RoundTrip
pub mod Ahead
use rn_signal_protocol_messa.Base.{
  ℕ, zero, suc, ◌-◌, Bool, true, false, Option, none, some, List, [], ◌∷◌, ◌++◌, length, ltb, ◌==◌,
  if◌then◌else◌,
}
use rn_signal_protocol_messa.Status.{Result, ok, err, unknown}
use rn_signal_protocol_messa.Crypto.{Buffer}
use rn_signal_protocol_messa.Curve.{PublicKey, KeyPair, ec_public_key_compare}
use rn_signal_protocol_messa.Ratchet.{
  RatchetChainKey, RatchetRootKey, RatchetMessageKeys, IdentityKeyPair,
}

pub record SenderChain : Type 0 where
  pub sender_ratchet_key_pair : Option KeyPair
  pub chain_key : Option RatchetChainKey

pub record ReceiverChain : Type 0 where
  pub sender_ratchet_key : Option PublicKey
  pub chain_key : Option RatchetChainKey
  pub message_keys : List RatchetMessageKeys

pub record PendingKeyExchange : Type 0 where
  pub sequence : ℕ
  pub local_base_key : Option KeyPair
  pub local_ratchet_key : Option KeyPair
  pub local_identity_key : Option IdentityKeyPair

pub record PendingPreKey : Type 0 where
  pub pre_key_id : Option ℕ
  pub signed_pre_key_id : ℕ
  pub base_key : Option PublicKey

pub record SessionState : Type 0 where
  pub session_version : ℕ
  pub local_identity_public : Option PublicKey
  pub remote_identity_public : Option PublicKey
  pub root_key : Option RatchetRootKey
  pub previous_counter : ℕ
  pub sender_chain : Option SenderChain
  pub receiver_chains : List ReceiverChain
  pub pending_key_exchange : Option PendingKeyExchange
  pub pending_pre_key : Option PendingPreKey
  pub remote_registration_id : ℕ
  pub local_registration_id : ℕ
  pub needs_refresh : ℕ
  pub alice_base_key : Option PublicKey

unfoldable pub session_state_create : SessionState
session_state_create = record {
  session_version = 2;
  local_identity_public = none;
  remote_identity_public = none;
  root_key = none;
  previous_counter = 0;
  sender_chain = none;
  receiver_chains = [];
  pending_key_exchange = none;
  pending_pre_key = none;
  remote_registration_id = 0;
  local_registration_id = 0;
  needs_refresh = 0;
  alice_base_key = none;
}

abbrev pub session_state_set_session_version : SessionState → ℕ → SessionState
session_state_set_session_version state version = record state { session_version = version }

abbrev pub session_state_set_local_identity_key : SessionState → PublicKey → SessionState
session_state_set_local_identity_key state identity_key = record state {
  local_identity_public = some identity_key;
}

abbrev pub session_state_set_remote_identity_key : SessionState → PublicKey → SessionState
session_state_set_remote_identity_key state identity_key = record state {
  remote_identity_public = some identity_key;
}

abbrev pub session_state_set_root_key : SessionState → RatchetRootKey → SessionState
session_state_set_root_key state root_key = record state { root_key = some root_key }

abbrev pub session_state_set_previous_counter : SessionState → ℕ → SessionState
session_state_set_previous_counter state counter = record state { previous_counter = counter }

abbrev pub session_state_set_alice_base_key : SessionState → PublicKey → SessionState
session_state_set_alice_base_key state key = record state { alice_base_key = some key }

abbrev pub session_state_set_remote_registration_id : SessionState → ℕ → SessionState
session_state_set_remote_registration_id state id = record state { remote_registration_id = id }

abbrev pub session_state_set_local_registration_id : SessionState → ℕ → SessionState
session_state_set_local_registration_id state id = record state { local_registration_id = id }

-- The value is 0 or 1, as an assertion says.
abbrev pub session_state_set_needs_refresh : SessionState → ℕ → SessionState
session_state_set_needs_refresh state value = record state { needs_refresh = value }

unfoldable pub session_state_set_sender_chain :
    SessionState → KeyPair → RatchetChainKey → SessionState
session_state_set_sender_chain state sender_ratchet_key_pair chain_key = record state {
  sender_chain = some (record {
    sender_ratchet_key_pair = some sender_ratchet_key_pair;
    chain_key = some chain_key;
  });
}

unfoldable pub session_state_get_sender_ratchet_key_pair : SessionState → Option KeyPair
session_state_get_sender_ratchet_key_pair state = elim state.sender_chain [
  | some chain ↦ chain.sender_ratchet_key_pair
  | none ↦ none
]

unfoldable pub session_state_get_sender_ratchet_key : SessionState → Option PublicKey
unfolding session_state_get_sender_ratchet_key_pair
session_state_get_sender_ratchet_key state =
    elim (session_state_get_sender_ratchet_key_pair state) [
      | some pair ↦ some pair.public_key
      | none ↦ none
    ]

unfoldable pub session_state_get_sender_chain_key : SessionState → Option RatchetChainKey
session_state_get_sender_chain_key state = elim state.sender_chain [
  | some chain ↦ chain.chain_key
  | none ↦ none
]

unfoldable pub session_state_has_sender_chain : SessionState → Bool
session_state_has_sender_chain state = elim state.sender_chain [ some _ ↦ true | none ↦ false ]

unfoldable pub session_state_set_sender_chain_key :
    SessionState → RatchetChainKey → Result SessionState
session_state_set_sender_chain_key state chain_key = elim state.sender_chain [
  | some chain ↦
      ok (record state { sender_chain = some (record chain { chain_key = some chain_key }) })
  | none ↦ err unknown
]

unfoldable pub session_state_set_pending_key_exchange :
    SessionState
    → (sequence : ℕ) → (our_base_key our_ratchet_key : KeyPair) → IdentityKeyPair
    → SessionState
session_state_set_pending_key_exchange state sequence our_base_key our_ratchet_key
      our_identity_key =
    record state {
      pending_key_exchange = some (record {
        sequence = sequence;
        local_base_key = some our_base_key;
        local_ratchet_key = some our_ratchet_key;
        local_identity_key = some our_identity_key;
      });
    }

unfoldable pub session_state_has_pending_key_exchange : SessionState → Bool
session_state_has_pending_key_exchange state = elim state.pending_key_exchange [
  | some _ ↦ true
  | none ↦ false
]

unfoldable pub session_state_set_unacknowledged_pre_key_message :
    SessionState → (pre_key_id : Option ℕ) → (signed_pre_key_id : ℕ) → PublicKey → SessionState
session_state_set_unacknowledged_pre_key_message state pre_key_id signed_pre_key_id base_key =
    record state {
      pending_pre_key = some (record {
        pre_key_id = pre_key_id;
        signed_pre_key_id = signed_pre_key_id;
        base_key = some base_key;
      });
    }

unfoldable pub session_state_has_unacknowledged_pre_key_message : SessionState → Bool
session_state_has_unacknowledged_pre_key_message state = elim state.pending_pre_key [
  | some _ ↦ true
  | none ↦ false
]

unfoldable pub session_state_clear_unacknowledged_pre_key_message : SessionState → SessionState
session_state_clear_unacknowledged_pre_key_message state = record state { pending_pre_key = none }
