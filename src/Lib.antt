-- ===== src/Lib.antt =====
-- The messaging of libsignal-protocol-c, the C library inside this repository
-- (ios/SignalMessagingSwift/libsignal-protocol-swift-master/libsignal-protocol-swift/
-- libsignal-protocol-c; file names below are relative to that folder): sessions of two parties, and
-- groups.
--
-- Two parties agree on a first secret (ratchet.c). From it each derives a root key and chains of
-- message keys: a chain moves on with every message, and the root key with every new ratchet key of
-- the other side (session_cipher.c). A member of a group has a sender key: a chain of keys, one step
-- for each message, and a signing key. group_session_builder.c makes it and tells it to the others
-- in a distribution message; group_cipher.c encrypts under it and decrypts what the others sent.
-- Between two calls everything lives in the client's store, as the bytes of a record.
--
-- Files and code:
--   Base, Status, Action: shared lists and tests; the error codes of signal_protocol.h, where a
--     function that returns a negative code is `err`; and calls that also read and write a state, as
--     functions from a state to an outcome and a state. Fields: optional and repeated fields of a
--     protobuf structure.
--   Crypto: the code that the library calls: the client's crypto provider, curve25519 and the
--     functions that protobuf-c generates. They are arguments (Provider, Codec), and what is
--     documented of them stands in records of hypotheses (HasMac, HasCipher, IsCodec; HasSignature
--     and HasAgreement beside Curve).
--   Curve: curve.c. Hkdf: hkdf.c.
--   Sessions. Ratchet and SessionInit: ratchet.c, its keys and the first keys of a session.
--     SessionState: session_state.c; Chains has the chains of the other side, Structure and Reading
--     the protobuf structure. SessionRecord: session_record.c. SessionChain, SessionSkip,
--     SessionCipher, SessionTrial and SessionService: session_cipher.c, from the ratchet of keys to
--     the calls on the store. SignalMessage and PreKeyMessage: the two messages of a session in
--     protocol.c. SessionStore: the session functions of signal_protocol.c.
--   Start of a session. PreKey: session_pre_key.c. KeyStore: the pre key and identity functions of
--     signal_protocol.c. SessionBuilder: session_builder.c. SessionStart: the function
--     session_cipher_decrypt_pre_key_signal_message of session_cipher.c.
--   Groups. SenderKey: sender_key.c. KeyState: sender_key_state.c; Structure has its protobuf
--     structure. KeyRecord: sender_key_record.c. GroupMessage: the two group messages of protocol.c.
--     GroupRatchet: group_cipher_get_sender_key of group_cipher.c. GroupCipher: the rest of
--     group_cipher.c. GroupSession: group_session_builder.c.
--   Store: signal_protocol_sender_key_store_key and _load_key of signal_protocol.c, over a client's
--     store that is an argument; Store/Laws says what a store promises, and Store/Atomic what it
--     means that a failed call has stored nothing.
--   KeyHelper: key_helper.c.
--   Examples: providers, a byte format and stores that meet the hypotheses, and runs on them.
-- A function of the code has its own name in the model, without the prefix
-- signal_protocol_key_helper_ in KeyHelper. session_cipher_encrypt is cut into encrypt_with_state,
-- wrap_message and advance_sender_chain. The abstract views are SessionState/Ahead (two ends of a
-- session of which one has ratcheted once more), Ratchet/Keys (the keys of a chain as functions),
-- SenderKey/Chain (the keys of a group's chain as a function of the step), GroupRatchet/Synced (the
-- states that follow a chain) and Hkdf/Output (the blocks of RFC 5869).
--
-- Conventions: uint32_t is ℕ with the wrap-around of additions written out; a byte is ℕ. The random
-- source is numbered by request. A pointer to a state inside a record is the state, and the writes
-- through it are set_head and set_by_id in a group and session_record_set_state in a session; a
-- write through the pointer to a chain is change_chain. An allocation succeeds, and reference
-- counts, logging, locks and the clearing of memory are not modelled.
--
-- Bounds: both functions named skip_loop take as many rounds as the two counters are apart, which is
-- how often the C loop runs below 2^32; expand_loop takes the number of blocks, which is how often
-- the C loop runs below 256; evict, evict_states, drop_oldest, delete_beyond, try_previous and the
-- walks of lists are structural.
--
-- Not modelled: fingerprint.c and device_consistency.c; the copies of protobuf-c, curve25519, vpool
-- and the ut headers, which are third-party code; and the Swift, Java and JavaScript
-- code of the applications.
pub mod Base
pub mod Status
pub mod Action
pub mod Fields
pub mod Crypto
pub mod Curve
pub mod Hkdf
pub mod SenderKey
pub mod KeyState
pub mod KeyRecord
pub mod GroupMessage
pub mod Store
pub mod KeyHelper
pub mod Ratchet
pub mod SessionState
pub mod SessionInit
pub mod SessionRecord
pub mod SessionChain
pub mod SessionSkip
pub mod SignalMessage
pub mod PreKey
pub mod PreKeyMessage
pub mod SessionCipher
pub mod SessionTrial
pub mod SessionStore
pub mod SessionService
pub mod KeyStore
pub mod SessionBuilder
pub mod SessionStart
pub mod GroupRatchet
pub mod GroupCipher
pub mod GroupSession
pub mod Examples
