-- ===== src/SessionBuilder.antt =====
-- session_builder.c: a session started from the first message of the other side, and one started
-- from a bundle of its published keys. A record that the code changes in place and then drops after
-- an error is left out of the error.
pub mod Verified
pub mod Once
use rn_signal_protocol_messa.Base.{ℕ, Bool, Option, none, some, ◌==◌, not, if◌then◌else◌}
use rn_signal_protocol_messa.Status.{
  Result, ok, err, inval, unknown, invalid_key, untrusted_identity, guard, required,
}
use rn_signal_protocol_messa.Status as Status
use rn_signal_protocol_messa.Action.{Action, pure, lift, ◌>>=◌, ◌>>◌}
use rn_signal_protocol_messa.Crypto.{Buffer, Provider}
use rn_signal_protocol_messa.Curve.{
  PublicKey, KeyPair, ec_public_key_serialize, curve_verify_signature, curve_generate_key_pair,
}
use rn_signal_protocol_messa.Store.{World, on_random}
use rn_signal_protocol_messa.SessionStore.{
  Address, SessionContext, signal_protocol_session_load_session,
  signal_protocol_session_store_session,
}
use rn_signal_protocol_messa.SessionState.{
  session_state_set_local_registration_id, session_state_set_remote_registration_id,
  session_state_set_alice_base_key, session_state_set_unacknowledged_pre_key_message,
}
use rn_signal_protocol_messa.SessionRecord.{
  SessionRecord, session_record_set_state, session_record_has_session_state,
  session_record_archive_current_state,
}
use rn_signal_protocol_messa.SessionInit.{
  alice_signal_protocol_parameters_create, bob_signal_protocol_parameters_create,
  ratcheting_session_alice_initialize, ratcheting_session_bob_initialize,
}
use rn_signal_protocol_messa.PreKeyMessage.{PreKeySignalMessage}
use rn_signal_protocol_messa.PreKey.{SessionPreKeyBundle}
use rn_signal_protocol_messa.KeyStore.{
  KeyStores, signal_protocol_pre_key_load_key, signal_protocol_signed_pre_key_load_key,
  signal_protocol_identity_get_key_pair, signal_protocol_identity_get_local_registration_id,
  signal_protocol_identity_save_identity, signal_protocol_identity_is_trusted_identity,
}

abbrev pub pre_key_medium_max_value : ℕ
pre_key_medium_max_value = 16777215

-- `if(!session_record_is_fresh(record)) session_record_archive_current_state(record)`
unfoldable pub make_room : SessionRecord → SessionRecord
make_room r = if r.is_fresh then r else session_record_archive_current_state r

-- The id of the one-time pre key that has been used up, unless it is that of the last resort.
unfoldable pub used_up : Option ℕ → Option ℕ
used_up none = none
used_up (some id) = if id == pre_key_medium_max_value then none else some id

-- The signed pre key, if it is there and its signature verifies under the identity key. Without a
-- signature the code reads through a null pointer, and the model says `inval`.
unfoldable pub verified_pre_key :
    Provider
    → (signed_pre_key identity_key : Option PublicKey) → (signature : Option Buffer)
    → Result PublicKey
verified_pre_key p (some signed_pre_key) (some identity_key) (some signature) =
    Status.◌>>=◌ (ec_public_key_serialize (some signed_pre_key)) λ serialized.
      Status.◌>>=◌ (curve_verify_signature p identity_key serialized signature)
        λ verified. Status.◌>>=◌ (guard verified invalid_key) λ _. ok signed_pre_key
verified_pre_key p (some signed_pre_key) _ _ = err inval
verified_pre_key p none _ _ = err invalid_key

module _ {S : Type 0} (c : SessionContext S) (k : KeyStores S) (remote_address : Address) where
  -- 0 is the answer "not trusted".
  unfoldable pub check_trusted : Option PublicKey → Action (World S) (Unit {0})
  unfolding signal_protocol_identity_is_trusted_identity
  check_trusted identity_key = do
    trusted ← signal_protocol_identity_is_trusted_identity k remote_address identity_key
    lift (guard (not (trusted == 0)) untrusted_identity)

  unfoldable pub load_one_time : Option ℕ → Action (World S) (Option KeyPair)
  load_one_time none = pure none
  load_one_time (some id) = do
    pre_key ← signal_protocol_pre_key_load_key k id
    pure (some pre_key.key_pair)

  -- Bob's side of the first message, for a record that has no such session yet. A new record and an
  -- archived one have a state, so the missing one is never met.
  unfoldable pub start_session :
      SessionRecord → PreKeySignalMessage → Action (World S) (SessionRecord × Option ℕ)
  unfolding load_one_time make_room used_up
  start_session r message = do
    our_signed_pre_key ← signal_protocol_signed_pre_key_load_key k message.signed_pre_key_id
    our_identity_key ← signal_protocol_identity_get_key_pair k
    our_one_time_pre_key ← load_one_time message.pre_key_id
    parameters ← lift (
        bob_signal_protocol_parameters_create (some our_identity_key)
          (some our_signed_pre_key.key_pair) our_one_time_pre_key (some our_signed_pre_key.key_pair)
          (some message.identity_key) (some message.base_key))
    fresh ← lift (required (make_room r).state unknown)
    state ← lift (ratcheting_session_bob_initialize c.provider fresh parameters)
    local_registration_id ← signal_protocol_identity_get_local_registration_id k
    pure (
      session_record_set_state (make_room r) (
          session_state_set_alice_base_key
            (session_state_set_remote_registration_id
              (session_state_set_local_registration_id state local_registration_id)
              message.registration_id)
            message.base_key),
      used_up message.pre_key_id,
    )

  unfoldable pub session_builder_process_pre_key_signal_message_v3 :
      SessionRecord → PreKeySignalMessage → Action (World S) (SessionRecord × Option ℕ)
  unfolding session_record_has_session_state start_session
  session_builder_process_pre_key_signal_message_v3 r message =
      if session_record_has_session_state r message.version (some message.base_key)
      then pure (r, none)
      else start_session r message

  unfoldable pub session_builder_process_pre_key_signal_message :
      SessionRecord → PreKeySignalMessage → Action (World S) (SessionRecord × Option ℕ)
  unfolding check_trusted session_builder_process_pre_key_signal_message_v3
  session_builder_process_pre_key_signal_message r message = do
    check_trusted (some message.identity_key)
    (r', unsigned_pre_key_id) ← session_builder_process_pre_key_signal_message_v3 r message
    signal_protocol_identity_save_identity k remote_address (some message.identity_key)
    pure (r', unsigned_pre_key_id)

  unfoldable pub bundle_pre_key_id : SessionPreKeyBundle → Option ℕ
  bundle_pre_key_id bundle = elim bundle.pre_key_public [
    | none ↦ none
    | some _ ↦ some bundle.pre_key_id
  ]

  -- Alice's side, once the signed pre key is known to be theirs.
  unfoldable pub start_from_bundle :
      SessionPreKeyBundle → (signed_pre_key : PublicKey) → Action (World S) (Unit {0})
  unfolding make_room bundle_pre_key_id
  start_from_bundle bundle signed_pre_key = do
    r ← signal_protocol_session_load_session c remote_address
    our_base_key ← on_random (curve_generate_key_pair c.provider)
    our_identity_key ← signal_protocol_identity_get_key_pair k
    parameters ← lift (
        alice_signal_protocol_parameters_create (some our_identity_key) (some our_base_key)
          bundle.identity_key (some signed_pre_key) bundle.pre_key_public (some signed_pre_key))
    fresh ← lift (required (make_room r).state unknown)
    state ← on_random (ratcheting_session_alice_initialize c.provider fresh parameters)
    local_registration_id ← signal_protocol_identity_get_local_registration_id k
    signal_protocol_session_store_session c remote_address (
        session_record_set_state (make_room r) (
          session_state_set_alice_base_key
            (session_state_set_remote_registration_id
              (session_state_set_local_registration_id
                (session_state_set_unacknowledged_pre_key_message state (bundle_pre_key_id bundle)
                  bundle.signed_pre_key_id our_base_key.public_key)
                local_registration_id)
              bundle.registration_id)
            our_base_key.public_key))
    signal_protocol_identity_save_identity k remote_address bundle.identity_key

  unfoldable pub session_builder_process_pre_key_bundle :
      SessionPreKeyBundle → Action (World S) (Unit {0})
  unfolding check_trusted verified_pre_key start_from_bundle
  session_builder_process_pre_key_bundle bundle = do
    check_trusted bundle.identity_key
    signed_pre_key ← lift (
        verified_pre_key c.provider bundle.signed_pre_key_public bundle.identity_key
          bundle.signed_pre_key_signature)
    start_from_bundle bundle signed_pre_key
