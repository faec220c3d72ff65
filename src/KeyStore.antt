-- ===== src/KeyStore.antt =====
-- signal_protocol.c: the client's stores of the one-time pre keys, of the signed pre keys and of the
-- identities, behind their callbacks. A load that succeeds gives a buffer.
use rn_signal_protocol_messa.Base.{ℕ, Option, none, some}
use rn_signal_protocol_messa.Action.{Action, lift, ◌>>=◌}
use rn_signal_protocol_messa.Crypto.{Buffer, Codec}
use rn_signal_protocol_messa.Curve.{PublicKey, ec_public_key_serialize}
use rn_signal_protocol_messa.Ratchet.{IdentityKeyPair, read_identity_key_pair}
use rn_signal_protocol_messa.PreKey.{
  PreKeyRecordStructure, SignedPreKeyRecordStructure, SessionPreKey, SessionSignedPreKey,
  session_pre_key_serialize, session_pre_key_deserialize, session_signed_pre_key_serialize,
  session_signed_pre_key_deserialize,
}
use rn_signal_protocol_messa.Store.{World, on_store}
use rn_signal_protocol_messa.SessionStore.{Address}

-- `signal_protocol_pre_key_store`, over the client's own state.
pub record PreKeyStore (S : Type 0) : Type 0 where
  pub load_pre_key : ℕ → Action S Buffer
  pub store_pre_key : ℕ → Buffer → Action S (Unit {0})
  pub contains_pre_key : ℕ → Action S ℕ
  pub remove_pre_key : ℕ → Action S (Unit {0})

-- `signal_protocol_signed_pre_key_store`
pub record SignedPreKeyStore (S : Type 0) : Type 0 where
  pub load_signed_pre_key : ℕ → Action S Buffer
  pub store_signed_pre_key : ℕ → Buffer → Action S (Unit {0})
  pub contains_signed_pre_key : ℕ → Action S ℕ
  pub remove_signed_pre_key : ℕ → Action S (Unit {0})

-- `signal_protocol_identity_key_store`. `save_identity` without a key removes the identity.
pub record IdentityKeyStore (S : Type 0) : Type 0 where
  pub get_identity_key_pair : Action S (Buffer × Buffer)
  pub get_local_registration_id : Action S ℕ
  pub save_identity : Address → Option Buffer → Action S (Unit {0})
  pub is_trusted_identity : Address → Buffer → Action S ℕ

pub record KeyStores (S : Type 0) : Type 0 where
  pub pre_key_codec : Codec PreKeyRecordStructure
  pub signed_pre_key_codec : Codec SignedPreKeyRecordStructure
  pub pre_key_store : PreKeyStore S
  pub signed_pre_key_store : SignedPreKeyStore S
  pub identity_key_store : IdentityKeyStore S

module _ {S : Type 0} (k : KeyStores S) where
  unfoldable pub signal_protocol_pre_key_load_key : ℕ → Action (World S) SessionPreKey
  signal_protocol_pre_key_load_key pre_key_id = do
    bytes ← on_store (k.pre_key_store.load_pre_key pre_key_id)
    lift (session_pre_key_deserialize k.pre_key_codec bytes)

  unfoldable pub signal_protocol_pre_key_store_key : SessionPreKey → Action (World S) (Unit {0})
  signal_protocol_pre_key_store_key pre_key = do
    bytes ← lift (session_pre_key_serialize k.pre_key_codec (some pre_key))
    on_store (k.pre_key_store.store_pre_key pre_key.id bytes)

  unfoldable pub signal_protocol_pre_key_contains_key : ℕ → Action (World S) ℕ
  signal_protocol_pre_key_contains_key pre_key_id =
      on_store (k.pre_key_store.contains_pre_key pre_key_id)

  unfoldable pub signal_protocol_pre_key_remove_key : ℕ → Action (World S) (Unit {0})
  signal_protocol_pre_key_remove_key pre_key_id =
      on_store (k.pre_key_store.remove_pre_key pre_key_id)

  unfoldable pub signal_protocol_signed_pre_key_load_key : ℕ → Action (World S) SessionSignedPreKey
  signal_protocol_signed_pre_key_load_key signed_pre_key_id = do
    bytes ← on_store (k.signed_pre_key_store.load_signed_pre_key signed_pre_key_id)
    lift (session_signed_pre_key_deserialize k.signed_pre_key_codec bytes)

  unfoldable pub signal_protocol_signed_pre_key_store_key :
      SessionSignedPreKey → Action (World S) (Unit {0})
  signal_protocol_signed_pre_key_store_key pre_key = do
    bytes ← lift (session_signed_pre_key_serialize k.signed_pre_key_codec pre_key)
    on_store (k.signed_pre_key_store.store_signed_pre_key pre_key.id bytes)

  unfoldable pub signal_protocol_signed_pre_key_contains_key : ℕ → Action (World S) ℕ
  signal_protocol_signed_pre_key_contains_key signed_pre_key_id =
      on_store (k.signed_pre_key_store.contains_signed_pre_key signed_pre_key_id)

  unfoldable pub signal_protocol_signed_pre_key_remove_key : ℕ → Action (World S) (Unit {0})
  signal_protocol_signed_pre_key_remove_key signed_pre_key_id =
      on_store (k.signed_pre_key_store.remove_signed_pre_key signed_pre_key_id)

  unfoldable pub signal_protocol_identity_get_key_pair : Action (World S) IdentityKeyPair
  unfolding read_identity_key_pair
  signal_protocol_identity_get_key_pair = do
    (public_buf, private_buf) ← on_store k.identity_key_store.get_identity_key_pair
    lift (read_identity_key_pair (some public_buf) (some private_buf))

  unfoldable pub signal_protocol_identity_get_local_registration_id : Action (World S) ℕ
  signal_protocol_identity_get_local_registration_id =
      on_store k.identity_key_store.get_local_registration_id

  unfoldable pub signal_protocol_identity_save_identity :
      Address → Option PublicKey → Action (World S) (Unit {0})
  signal_protocol_identity_save_identity address none =
      on_store (k.identity_key_store.save_identity address none)
  signal_protocol_identity_save_identity address (some identity_key) = do
    bytes ← lift (ec_public_key_serialize (some identity_key))
    on_store (k.identity_key_store.save_identity address (some bytes))

  unfoldable pub signal_protocol_identity_is_trusted_identity :
      Address → Option PublicKey → Action (World S) ℕ
  signal_protocol_identity_is_trusted_identity address identity_key = do
    bytes ← lift (ec_public_key_serialize identity_key)
    on_store (k.identity_key_store.is_trusted_identity address bytes)
