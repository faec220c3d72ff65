-- ===== src/SessionState/RoundTrip.antt =====
-- A session's state that is written and read again.
use rn_signal_protocol_messa.Base.{ℕ, ◌≡◌, refl, Option, none, some, All, length, eq→==, ◌<◌}
use rn_signal_protocol_messa.Status.{ok}
use rn_signal_protocol_messa.Fields.{
  optional, map_option, IfSome, optional_lem, each_lem, bytes_pointer_lem,
}
use rn_signal_protocol_messa.Crypto.{Codec, IsCodec, pack_checked_lem}
use rn_signal_protocol_messa.Curve.{
  PublicKey, KeyPair, curve_decode_point, ec_public_key_serialize_protobuf,
}
use rn_signal_protocol_messa.Curve.Format.{
  IsPoint, IsScalar, decode-serialize_protobuf, decode_private-serialize_protobuf,
}
use rn_signal_protocol_messa.Hkdf.{Hkdf, hkdf_create}
use rn_signal_protocol_messa.Ratchet.{
  RatchetChainKey, RatchetRootKey, RatchetMessageKeys, IdentityKeyPair, ratchet_root_key_create,
  ratchet_chain_key_create,
}
use rn_signal_protocol_messa.SessionState.{
  SessionState, SenderChain, ReceiverChain, PendingKeyExchange, PendingPreKey,
}
use rn_signal_protocol_messa.SessionState.Structure.{
  SessionStructure, write_pair_public, write_pair_private, write_identity_public,
  write_identity_private, session_state_serialize_prepare_chain_chain_key,
  session_state_serialize_prepare_message_keys,
  session_state_serialize_prepare_chain_message_keys_list,
  session_state_serialize_prepare_sender_chain, session_state_serialize_prepare_receiver_chain,
  session_state_serialize_prepare_pending_key_exchange,
  session_state_serialize_prepare_pending_pre_key, session_state_serialize_prepare,
}
use rn_signal_protocol_messa.SessionState.Reading.{
  or_before, read_pair, read_identity_pair, read_chain, read_chain_key, read_array,
  read_message_key, session_state_deserialize_protobuf_sender_chain,
  session_state_deserialize_protobuf_receiver_chain,
  session_state_deserialize_protobuf_pending_key_exchange,
  session_state_deserialize_protobuf_pending_pre_key, sender_chain_or_empty, read_sender_chain,
  read_root_key, session_state_deserialize_protobuf, session_state_deserialize, session_state_copy,
}

-- Keys of 32 bytes.
abbrev pub AreKeys : KeyPair → Type 0
AreKeys pair = IsPoint pair.public_key × IsScalar pair.private_key

abbrev pub AreIdentityKeys : IdentityKeyPair → Type 0
AreIdentityKeys pair = IsPoint pair.public_key × IsScalar pair.private_key

-- The key derivation of the session's version.
abbrev pub IsOfVersion : (version : ℕ) → Hkdf → Type 0
IsOfVersion version kdf = hkdf_create version ≡ ok kdf

-- A chain key of the session's version, with at least one byte.
abbrev pub IsChainKey : (version : ℕ) → RatchetChainKey → Type 0
IsChainKey version key = IsOfVersion version key.kdf × (0 < length key.key)

-- A root key of the session's version, with at least one byte.
abbrev pub IsRootKey : (version : ℕ) → RatchetRootKey → Type 0
IsRootKey version key = IsOfVersion version key.kdf × (0 < length key.key)

abbrev pub AreSized : RatchetMessageKeys → Type 0
AreSized keys = (length keys.cipher_key ≡ 32) × (length keys.mac_key ≡ 32) × (length keys.iv ≡ 16)

pub record IsSenderChain (version : ℕ) (chain : SenderChain) : Type 0 where
  pub pair : IfSome AreKeys chain.sender_ratchet_key_pair
  pub chain_key : IfSome (IsChainKey version) chain.chain_key

pub record IsReceiverChain (version : ℕ) (chain : ReceiverChain) : Type 0 where
  pub key : IfSome IsPoint chain.sender_ratchet_key
  pub chain_key : IfSome (IsChainKey version) chain.chain_key
  pub sized : All AreSized chain.message_keys

pub record IsExchange (exchange : PendingKeyExchange) : Type 0 where
  pub base : IfSome AreKeys exchange.local_base_key
  pub ratchet : IfSome AreKeys exchange.local_ratchet_key
  pub identity : IfSome AreIdentityKeys exchange.local_identity_key

-- Public and private keys of 32 bytes, message keys of the sizes of their arrays, and root and chain
-- keys that are not empty and derive by the session's version.
pub record IsWellFormed (state : SessionState) : Type 0 where
  pub local : IfSome IsPoint state.local_identity_public
  pub remote : IfSome IsPoint state.remote_identity_public
  pub root : IfSome (IsRootKey state.session_version) state.root_key
  pub sender : IfSome (IsSenderChain state.session_version) state.sender_chain
  pub receivers : All (IsReceiverChain state.session_version) state.receiver_chains
  pub exchange : IfSome IsExchange state.pending_key_exchange
  pub pre_key : IfSome (λ (k : PendingPreKey). IfSome IsPoint k.base_key) state.pending_pre_key
  pub alice_base : IfSome IsPoint state.alice_base_key

read_points :
    (key : Option PublicKey)
    → IfSome IsPoint key
    → optional curve_decode_point (map_option ec_public_key_serialize_protobuf key) ≡ ok key
read_points =
    optional_lem curve_decode_point ec_public_key_serialize_protobuf IsPoint
      decode-serialize_protobuf

read_pair_lem :
    (pair : Option KeyPair)
    → IfSome AreKeys pair
    → read_pair (write_pair_public pair) (write_pair_private pair) ≡ ok pair
unfolding read_pair
read_pair_lem none h = refl
read_pair_lem (some pair) h = rw (
  decode-serialize_protobuf pair.public_key h.0,
  decode_private-serialize_protobuf pair.private_key h.1,
)

read_identity_pair_lem :
    (pair : Option IdentityKeyPair)
    → IfSome AreIdentityKeys pair
    → read_identity_pair (write_identity_public pair) (write_identity_private pair) ≡ ok pair
unfolding read_identity_pair
read_identity_pair_lem none h = refl
read_identity_pair_lem (some pair) h = rw (
  decode-serialize_protobuf pair.public_key h.0,
  decode_private-serialize_protobuf pair.private_key h.1,
)

module _ (version : ℕ) where
  read_chain_key_lem :
      (key : Option RatchetChainKey)
      → IfSome (IsChainKey version) key
      → read_chain_key version (session_state_serialize_prepare_chain_chain_key key) ≡ ok key
  unfolding read_chain_key read_chain session_state_serialize_prepare_chain_chain_key
      ratchet_chain_key_create
  read_chain_key_lem none h = refl
  read_chain_key_lem (some key) h = rw (h.0, bytes_pointer_lem key.key h.1)

  read_message_key_lem :
      (keys : RatchetMessageKeys)
      → AreSized keys
      → ok (read_message_key (session_state_serialize_prepare_message_keys keys)) ≡ ok keys
  unfolding read_message_key read_array or_before session_state_serialize_prepare_message_keys
  read_message_key_lem keys h = rw (
    eq→== (length keys.cipher_key) 32 h.0,
    eq→== (length keys.mac_key) 32 h.1,
    eq→== (length keys.iv) 16 h.2,
  )

  read_sender_chain_lem :
      (chain : Option SenderChain)
      → IfSome (IsSenderChain version) chain
      → read_sender_chain version (map_option session_state_serialize_prepare_sender_chain chain)
        ≡ chain
  unfolding read_sender_chain sender_chain_or_empty session_state_deserialize_protobuf_sender_chain
      session_state_serialize_prepare_sender_chain
  read_sender_chain_lem none h = refl
  read_sender_chain_lem (some chain) h = rw (
    read_pair_lem chain.sender_ratchet_key_pair h.pair,
    read_chain_key_lem chain.chain_key h.chain_key,
  )

  read_receiver_chain_lem :
      (chain : ReceiverChain)
      → IsReceiverChain version chain
      → session_state_deserialize_protobuf_receiver_chain version
          (session_state_serialize_prepare_receiver_chain chain)
        ≡ ok chain
  unfolding session_state_deserialize_protobuf_receiver_chain
      session_state_serialize_prepare_receiver_chain
      session_state_serialize_prepare_chain_message_keys_list
  read_receiver_chain_lem chain h = rw (
    read_points chain.sender_ratchet_key h.key,
    read_chain_key_lem chain.chain_key h.chain_key,
    each_lem (λ k. ok (read_message_key k)) session_state_serialize_prepare_message_keys AreSized
        read_message_key_lem chain.message_keys h.sized,
  )

  read_root_key_lem :
      (key : RatchetRootKey) → IsRootKey version key → read_root_key version key.key ≡ ok key
  unfolding read_root_key ratchet_root_key_create
  read_root_key_lem key h = rw (h.0, bytes_pointer_lem key.key h.1)

read_exchange_lem :
    (exchange : PendingKeyExchange)
    → IsExchange exchange
    → session_state_deserialize_protobuf_pending_key_exchange
        (session_state_serialize_prepare_pending_key_exchange exchange)
      ≡ ok exchange
unfolding session_state_deserialize_protobuf_pending_key_exchange
    session_state_serialize_prepare_pending_key_exchange or_before
read_exchange_lem exchange h = rw (
  read_pair_lem exchange.local_base_key h.base,
  read_pair_lem exchange.local_ratchet_key h.ratchet,
  read_identity_pair_lem exchange.local_identity_key h.identity,
)

read_pre_key_lem :
    (pre_key : PendingPreKey)
    → IfSome IsPoint pre_key.base_key
    → session_state_deserialize_protobuf_pending_pre_key
        (session_state_serialize_prepare_pending_pre_key pre_key)
      ≡ ok pre_key
unfolding session_state_deserialize_protobuf_pending_pre_key
    session_state_serialize_prepare_pending_pre_key or_before
read_pre_key_lem pre_key h = rw (read_points pre_key.base_key h)

pub deserialize-prepare :
    (state : SessionState)
    → IsWellFormed state
    → session_state_deserialize_protobuf (session_state_serialize_prepare state) ≡ ok state
unfolding session_state_deserialize_protobuf session_state_serialize_prepare or_before
deserialize-prepare state w =
    let version = state.session_version in
    rw (
      read_points state.local_identity_public w.local,
      read_points state.remote_identity_public w.remote,
      optional_lem (read_root_key version) (λ (k : RatchetRootKey). k.key) (IsRootKey version)
          (read_root_key_lem version) state.root_key w.root,
      read_sender_chain_lem version state.sender_chain w.sender,
      each_lem (session_state_deserialize_protobuf_receiver_chain version)
          session_state_serialize_prepare_receiver_chain (IsReceiverChain version)
          (read_receiver_chain_lem version) state.receiver_chains w.receivers,
      optional_lem session_state_deserialize_protobuf_pending_key_exchange
          session_state_serialize_prepare_pending_key_exchange IsExchange read_exchange_lem
          state.pending_key_exchange w.exchange,
      optional_lem session_state_deserialize_protobuf_pending_pre_key
          session_state_serialize_prepare_pending_pre_key
          (λ (k : PendingPreKey). IfSome IsPoint k.base_key) read_pre_key_lem state.pending_pre_key
          w.pre_key,
      read_points state.alice_base_key w.alice_base,
    )

-- With a codec that unpacks what it packs: session_state_copy succeeds with an equal state, for a
-- state whose public and private keys have 32 bytes, whose message keys have the sizes of their
-- arrays, and whose root and chain keys are not empty and derive by the session's version.
pub session_state_copy_lem :
    (codec : Codec SessionStructure) (state : SessionState)
    → IsCodec codec
    → IsWellFormed state
    → session_state_copy codec state ≡ ok state
unfolding session_state_copy session_state_deserialize
session_state_copy_lem codec state c w =
    rw
      (
        pack_checked_lem codec c,
        c.unpack-pack (session_state_serialize_prepare state),
        session_state_deserialize,
      )
      (deserialize-prepare state w)
