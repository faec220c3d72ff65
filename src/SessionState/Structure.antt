-- ===== src/SessionState/Structure.antt =====
-- session_state.c and LocalStorageProtocol.pb-c.h: the protobuf structure of a session's state. A
-- pair `has_x`, `x` and a nullable pointer are an option. The cast of the signed pre key id to a
-- signed number is undone when it is read.
use rn_signal_protocol_messa.Base.{ℕ, Option, none, some, List, []}
use rn_signal_protocol_messa.Fields.{map_option, map_list}
use rn_signal_protocol_messa.Crypto.{Buffer}
use rn_signal_protocol_messa.Curve.{
  PublicKey, KeyPair, ec_public_key_serialize_protobuf, ec_private_key_serialize_protobuf,
}
use rn_signal_protocol_messa.Ratchet.{
  RatchetChainKey, RatchetRootKey, RatchetMessageKeys, IdentityKeyPair,
}
use rn_signal_protocol_messa.SessionState.{
  SessionState, SenderChain, ReceiverChain, PendingKeyExchange, PendingPreKey,
}

pub record ChainKeyStructure : Type 0 where
  pub index : Option ℕ
  pub key : Option Buffer

pub record MessageKeyStructure : Type 0 where
  pub index : Option ℕ
  pub cipherkey : Option Buffer
  pub mackey : Option Buffer
  pub iv : Option Buffer

pub record ChainStructure : Type 0 where
  pub senderratchetkey : Option Buffer
  pub senderratchetkeyprivate : Option Buffer
  pub chainkey : Option ChainKeyStructure
  pub messagekeys : List MessageKeyStructure

pub record PendingKeyExchangeStructure : Type 0 where
  pub sequence : Option ℕ
  pub localbasekey : Option Buffer
  pub localbasekeyprivate : Option Buffer
  pub localratchetkey : Option Buffer
  pub localratchetkeyprivate : Option Buffer
  pub localidentitykey : Option Buffer
  pub localidentitykeyprivate : Option Buffer

pub record PendingPreKeyStructure : Type 0 where
  pub prekeyid : Option ℕ
  pub signedprekeyid : Option ℕ
  pub basekey : Option Buffer

pub record SessionStructure : Type 0 where
  pub sessionversion : Option ℕ
  pub localidentitypublic : Option Buffer
  pub remoteidentitypublic : Option Buffer
  pub rootkey : Option Buffer
  pub previouscounter : Option ℕ
  pub senderchain : Option ChainStructure
  pub receiverchains : List ChainStructure
  pub pendingkeyexchange : Option PendingKeyExchangeStructure
  pub pendingprekey : Option PendingPreKeyStructure
  pub remoteregistrationid : Option ℕ
  pub localregistrationid : Option ℕ
  pub needsrefresh : Option ℕ
  pub alicebasekey : Option Buffer

abbrev pub write_public : Option PublicKey → Option Buffer
write_public = map_option ec_public_key_serialize_protobuf

-- The two halves of a key pair.
abbrev pub write_pair_public : Option KeyPair → Option Buffer
write_pair_public = map_option λ (pair : KeyPair). ec_public_key_serialize_protobuf pair.public_key

abbrev pub write_pair_private : Option KeyPair → Option Buffer
write_pair_private =
    map_option λ (pair : KeyPair). ec_private_key_serialize_protobuf pair.private_key

abbrev pub write_identity_public : Option IdentityKeyPair → Option Buffer
write_identity_public =
    map_option λ (pair : IdentityKeyPair). ec_public_key_serialize_protobuf pair.public_key

abbrev pub write_identity_private : Option IdentityKeyPair → Option Buffer
write_identity_private =
    map_option λ (pair : IdentityKeyPair). ec_private_key_serialize_protobuf pair.private_key

unfoldable pub session_state_serialize_prepare_chain_chain_key :
    Option RatchetChainKey → Option ChainKeyStructure
session_state_serialize_prepare_chain_chain_key = map_option λ (chain_key : RatchetChainKey).
    record { index = some chain_key.index; key = some chain_key.key }

unfoldable pub session_state_serialize_prepare_message_keys :
    RatchetMessageKeys → MessageKeyStructure
session_state_serialize_prepare_message_keys message_key = record {
  index = some message_key.counter;
  cipherkey = some message_key.cipher_key;
  mackey = some message_key.mac_key;
  iv = some message_key.iv;
}

unfoldable pub session_state_serialize_prepare_chain_message_keys_list :
    List RatchetMessageKeys → List MessageKeyStructure
unfolding session_state_serialize_prepare_message_keys
session_state_serialize_prepare_chain_message_keys_list =
    map_list session_state_serialize_prepare_message_keys

unfoldable pub session_state_serialize_prepare_sender_chain : SenderChain → ChainStructure
unfolding session_state_serialize_prepare_chain_chain_key
session_state_serialize_prepare_sender_chain chain = record {
  senderratchetkey = write_pair_public chain.sender_ratchet_key_pair;
  senderratchetkeyprivate = write_pair_private chain.sender_ratchet_key_pair;
  chainkey = session_state_serialize_prepare_chain_chain_key chain.chain_key;
  messagekeys = [];
}

unfoldable pub session_state_serialize_prepare_receiver_chain : ReceiverChain → ChainStructure
unfolding session_state_serialize_prepare_chain_chain_key
    session_state_serialize_prepare_chain_message_keys_list
session_state_serialize_prepare_receiver_chain chain = record {
  senderratchetkey = write_public chain.sender_ratchet_key;
  senderratchetkeyprivate = none;
  chainkey = session_state_serialize_prepare_chain_chain_key chain.chain_key;
  messagekeys = session_state_serialize_prepare_chain_message_keys_list chain.message_keys;
}

unfoldable pub session_state_serialize_prepare_pending_key_exchange :
    PendingKeyExchange → PendingKeyExchangeStructure
session_state_serialize_prepare_pending_key_exchange exchange = record {
  sequence = some exchange.sequence;
  localbasekey = write_pair_public exchange.local_base_key;
  localbasekeyprivate = write_pair_private exchange.local_base_key;
  localratchetkey = write_pair_public exchange.local_ratchet_key;
  localratchetkeyprivate = write_pair_private exchange.local_ratchet_key;
  localidentitykey = write_identity_public exchange.local_identity_key;
  localidentitykeyprivate = write_identity_private exchange.local_identity_key;
}

unfoldable pub session_state_serialize_prepare_pending_pre_key :
    PendingPreKey → PendingPreKeyStructure
session_state_serialize_prepare_pending_pre_key pre_key = record {
  prekeyid = pre_key.pre_key_id;
  signedprekeyid = some pre_key.signed_pre_key_id;
  basekey = write_public pre_key.base_key;
}

unfoldable pub session_state_serialize_prepare : SessionState → SessionStructure
unfolding session_state_serialize_prepare_sender_chain
    session_state_serialize_prepare_receiver_chain
    session_state_serialize_prepare_pending_key_exchange
    session_state_serialize_prepare_pending_pre_key
session_state_serialize_prepare state = record {
  sessionversion = some state.session_version;
  localidentitypublic = write_public state.local_identity_public;
  remoteidentitypublic = write_public state.remote_identity_public;
  rootkey = map_option (λ (root : RatchetRootKey). root.key) state.root_key;
  previouscounter = some state.previous_counter;
  senderchain = map_option session_state_serialize_prepare_sender_chain state.sender_chain;
  receiverchains = map_list session_state_serialize_prepare_receiver_chain state.receiver_chains;
  pendingkeyexchange =
      map_option session_state_serialize_prepare_pending_key_exchange state.pending_key_exchange;
  pendingprekey = map_option session_state_serialize_prepare_pending_pre_key state.pending_pre_key;
  remoteregistrationid = some state.remote_registration_id;
  localregistrationid = some state.local_registration_id;
  needsrefresh = some state.needs_refresh;
  alicebasekey = write_public state.alice_base_key;
}
