-- ===== src/SessionState/Reading.antt =====
-- session_state.c: a session's state from its protobuf structure.
use rn_signal_protocol_messa.Base.{ℕ, Option, none, some, length, replicate, ◌==◌, if◌then◌else◌}
use rn_signal_protocol_messa.Status.{Result, ok, err, invalid_proto_buf, ◌>>=◌}
use rn_signal_protocol_messa.Fields.{optional, each, bytes_pointer}
use rn_signal_protocol_messa.Crypto.{Buffer, Codec, pack_checked}
use rn_signal_protocol_messa.Curve.{KeyPair, curve_decode_point, curve_decode_private_point}
use rn_signal_protocol_messa.Hkdf.{hkdf_create}
use rn_signal_protocol_messa.Ratchet.{
  RatchetChainKey, RatchetRootKey, RatchetMessageKeys, IdentityKeyPair, ratchet_root_key_create,
  ratchet_chain_key_create,
}
use rn_signal_protocol_messa.SessionState.{
  SessionState, SenderChain, ReceiverChain, PendingKeyExchange, PendingPreKey, session_state_create,
}
use rn_signal_protocol_messa.SessionState.Structure.{
  ChainKeyStructure, MessageKeyStructure, ChainStructure, PendingKeyExchangeStructure,
  PendingPreKeyStructure, SessionStructure, session_state_serialize_prepare,
}

-- A field that is not there leaves the value that was set before.
unfoldable pub or_before : ℕ → Option ℕ → ℕ
or_before before none = before
or_before before (some n) = n

-- Both halves of a key pair, or none.
unfoldable pub read_pair : Option Buffer → Option Buffer → Result (Option KeyPair)
read_pair (some publickey) (some privatekey) = do
  public_key ← curve_decode_point publickey
  private_key ← curve_decode_private_point privatekey
  ok (some (record { public_key = public_key; private_key = private_key }))
read_pair _ _ = ok none

unfoldable pub read_identity_pair : Option Buffer → Option Buffer → Result (Option IdentityKeyPair)
read_identity_pair (some publickey) (some privatekey) = do
  public_key ← curve_decode_point publickey
  private_key ← curve_decode_private_point privatekey
  ok (some (record { public_key = public_key; private_key = private_key }))
read_identity_pair _ _ = ok none

-- A key of no bytes arrives as a null pointer, and is an error.
unfoldable pub read_chain :
    (session_version : ℕ) → Option ℕ → Option Buffer → Result (Option RatchetChainKey)
unfolding bytes_pointer
read_chain session_version (some index) (some key) = do
  kdf ← hkdf_create session_version
  chain_key ← ratchet_chain_key_create (some kdf) (bytes_pointer key) index
  ok (some chain_key)
read_chain session_version _ _ = ok none

unfoldable pub read_chain_key :
    (session_version : ℕ) → Option ChainKeyStructure → Result (Option RatchetChainKey)
unfolding read_chain
read_chain_key session_version none = ok none
read_chain_key session_version (some s) = read_chain session_version s.index s.key

-- An array of zeros, unless the field fills it.
unfoldable pub read_array : (size : ℕ) → Option Buffer → Buffer
read_array size none = replicate size 0
read_array size (some bytes) = if length bytes == size then bytes else replicate size 0

unfoldable pub read_message_key : MessageKeyStructure → RatchetMessageKeys
unfolding read_array or_before
read_message_key s = record {
  cipher_key = read_array 32 s.cipherkey;
  mac_key = read_array 32 s.mackey;
  iv = read_array 16 s.iv;
  counter = or_before 0 s.index;
}

unfoldable pub session_state_deserialize_protobuf_sender_chain :
    (session_version : ℕ) → ChainStructure → Result SenderChain
unfolding read_pair read_chain_key
session_state_deserialize_protobuf_sender_chain session_version s = do
  sender_ratchet_key_pair ← read_pair s.senderratchetkey s.senderratchetkeyprivate
  sender_chain_key ← read_chain_key session_version s.chainkey
  ok (record { sender_ratchet_key_pair = sender_ratchet_key_pair; chain_key = sender_chain_key })

unfoldable pub session_state_deserialize_protobuf_receiver_chain :
    (session_version : ℕ) → ChainStructure → Result ReceiverChain
unfolding read_chain_key read_message_key
session_state_deserialize_protobuf_receiver_chain session_version s = do
  sender_ratchet_key ← optional curve_decode_point s.senderratchetkey
  chain_key ← read_chain_key session_version s.chainkey
  message_keys ← each (λ k. ok (read_message_key k)) s.messagekeys
  ok (record {
    sender_ratchet_key = sender_ratchet_key;
    chain_key = chain_key;
    message_keys = message_keys;
  })

unfoldable pub session_state_deserialize_protobuf_pending_key_exchange :
    PendingKeyExchangeStructure → Result PendingKeyExchange
unfolding read_pair read_identity_pair or_before
session_state_deserialize_protobuf_pending_key_exchange s = do
  local_base_key ← read_pair s.localbasekey s.localbasekeyprivate
  local_ratchet_key ← read_pair s.localratchetkey s.localratchetkeyprivate
  local_identity_key ← read_identity_pair s.localidentitykey s.localidentitykeyprivate
  ok (record {
    sequence = or_before 0 s.sequence;
    local_base_key = local_base_key;
    local_ratchet_key = local_ratchet_key;
    local_identity_key = local_identity_key;
  })

unfoldable pub session_state_deserialize_protobuf_pending_pre_key :
    PendingPreKeyStructure → Result PendingPreKey
unfolding or_before
session_state_deserialize_protobuf_pending_pre_key s = do
  base_key ← optional curve_decode_point s.basekey
  ok (record {
    pre_key_id = s.prekeyid;
    signed_pre_key_id = or_before 0 s.signedprekeyid;
    base_key = base_key;
  })

-- The caller does not look at the outcome: after an error the chain is there, with null pointers.
unfoldable pub sender_chain_or_empty : Result SenderChain → SenderChain
sender_chain_or_empty (ok chain) = chain
sender_chain_or_empty (err e) = record { sender_ratchet_key_pair = none; chain_key = none }

unfoldable pub read_sender_chain :
    (session_version : ℕ) → Option ChainStructure → Option SenderChain
unfolding session_state_deserialize_protobuf_sender_chain sender_chain_or_empty
read_sender_chain session_version none = none
read_sender_chain session_version (some s) =
    some (sender_chain_or_empty (session_state_deserialize_protobuf_sender_chain session_version s))

-- A key of no bytes arrives as a null pointer, and is an error.
unfoldable pub read_root_key : (session_version : ℕ) → Buffer → Result RatchetRootKey
unfolding bytes_pointer
read_root_key session_version key = do
  kdf ← hkdf_create session_version
  ratchet_root_key_create (some kdf) (bytes_pointer key)

unfoldable pub session_state_deserialize_protobuf : SessionStructure → Result SessionState
unfolding or_before read_root_key read_sender_chain
    session_state_deserialize_protobuf_receiver_chain
    session_state_deserialize_protobuf_pending_key_exchange
    session_state_deserialize_protobuf_pending_pre_key session_state_create
session_state_deserialize_protobuf s = do
  let version = or_before session_state_create.session_version s.sessionversion
  local_identity_public ← optional curve_decode_point s.localidentitypublic
  remote_identity_public ← optional curve_decode_point s.remoteidentitypublic
  root_key ← optional (read_root_key version) s.rootkey
  receiver_chains ←
      each (session_state_deserialize_protobuf_receiver_chain version) s.receiverchains
  pending_key_exchange ←
      optional session_state_deserialize_protobuf_pending_key_exchange s.pendingkeyexchange
  pending_pre_key ← optional session_state_deserialize_protobuf_pending_pre_key s.pendingprekey
  alice_base_key ← optional curve_decode_point s.alicebasekey
  ok (record {
    session_version = version;
    local_identity_public = local_identity_public;
    remote_identity_public = remote_identity_public;
    root_key = root_key;
    previous_counter = or_before session_state_create.previous_counter s.previouscounter;
    sender_chain = read_sender_chain version s.senderchain;
    receiver_chains = receiver_chains;
    pending_key_exchange = pending_key_exchange;
    pending_pre_key = pending_pre_key;
    remote_registration_id =
        or_before session_state_create.remote_registration_id s.remoteregistrationid;
    local_registration_id =
        or_before session_state_create.local_registration_id s.localregistrationid;
    needs_refresh = or_before session_state_create.needs_refresh s.needsrefresh;
    alice_base_key = alice_base_key;
  })

module _ (codec : Codec SessionStructure) where
  unfoldable pub session_state_serialize : SessionState → Result Buffer
  session_state_serialize state = pack_checked codec (session_state_serialize_prepare state)

  unfoldable pub session_state_deserialize : Buffer → Result SessionState
  unfolding session_state_deserialize_protobuf
  session_state_deserialize bytes = elim (codec.unpack bytes) [
    | none ↦ err invalid_proto_buf
    | some s ↦ session_state_deserialize_protobuf s
  ]

  unfoldable pub session_state_copy : SessionState → Result SessionState
  unfolding session_state_serialize session_state_deserialize
  session_state_copy other_state = do
    bytes ← session_state_serialize other_state
    session_state_deserialize bytes
