-- ===== src/SessionService.antt =====
-- session_cipher.c: the calls of a session's cipher, on the record that the client's store holds.
pub mod Atomic
use rn_signal_protocol_messa.Base.{ℕ, ◌%◌, Bool, true, Option, none, some, ◌==◌, not, if◌then◌else◌}
use rn_signal_protocol_messa.Status.{Result, ok, err, inval, unknown, no_session, guard, required}
use rn_signal_protocol_messa.Status as Status
use rn_signal_protocol_messa.Action.{Action, pure, lift, ◌>>=◌, ◌>>◌}
use rn_signal_protocol_messa.Crypto.{Buffer}
use rn_signal_protocol_messa.Store.{World, on_random}
use rn_signal_protocol_messa.SignalMessage.{SignalMessage}
use rn_signal_protocol_messa.PreKeyMessage.{PreKeySignalMessage, pre_key_signal_message_create}
use rn_signal_protocol_messa.SessionState.{SessionState}
use rn_signal_protocol_messa.SessionRecord.{session_record_set_state}
use rn_signal_protocol_messa.SessionCipher.{encrypt_with_state, advance_sender_chain}
use rn_signal_protocol_messa.SessionTrial.{session_cipher_decrypt_from_record_and_signal_message}
use rn_signal_protocol_messa.SessionStore.{
  Address, SessionContext, signal_protocol_session_load_session,
  signal_protocol_session_store_session, signal_protocol_session_contains_session,
}

-- `ciphertext_message`, by its type.
pub data CiphertextMessage : Type 0 where
  signal_type : SignalMessage → CiphertextMessage
  pre_key_type : PreKeySignalMessage → CiphertextMessage

-- The cipher object. Its callback is an argument of the functions that call it.
pub record SessionCipher : Type 0 where
  pub remote_address : Address
  pub inside_callback : Bool

abbrev pub Callback : Type 0 → Type 0
Callback S = SessionCipher → Buffer → Action (World S) (Unit {0})

module _ {S : Type 0} (c : SessionContext S) where
  unfoldable pub refuse_reentry :
      {A : Type 0} → SessionCipher → Action (World S) A → Action (World S) A
  refuse_reentry cipher m = if cipher.inside_callback then lift (err inval) else m

  -- While the other side has not answered, a message goes with what starts the session.
  unfoldable pub wrap_message : SessionState → SignalMessage → Result CiphertextMessage
  wrap_message state message = elim state.pending_pre_key [
    | none ↦ ok (signal_type message)
    | some pending ↦ Status.◌>>=◌ (required pending.base_key unknown) λ base_key.
        Status.◌>>=◌ (required state.local_identity_public unknown) λ local_identity_key.
          Status.◌>>=◌
            (pre_key_signal_message_create c.pre_key_message_codec (state.session_version % 256)
              state.local_registration_id pending.pre_key_id pending.signed_pre_key_id base_key
              local_identity_key message)
            λ pre_key_message. ok (pre_key_type pre_key_message)
  ]

  unfoldable pub encrypt_body : Address → Buffer → Action (World S) CiphertextMessage
  unfolding encrypt_with_state wrap_message advance_sender_chain
  encrypt_body address padded_message = do
    r ← signal_protocol_session_load_session c address
    state ← lift (required r.state unknown)
    message ← lift (encrypt_with_state c.provider c.message_codec state padded_message)
    encrypted_message ← lift (wrap_message state message)
    next_state ← lift (advance_sender_chain c.provider state)
    signal_protocol_session_store_session c address (session_record_set_state r next_state)
    pure encrypted_message

  unfoldable pub session_cipher_encrypt :
      SessionCipher → Buffer → Action (World S) CiphertextMessage
  unfolding refuse_reentry encrypt_body
  session_cipher_encrypt cipher padded_message =
      refuse_reentry cipher (encrypt_body cipher.remote_address padded_message)

  -- The cipher that the callback is given is inside it.
  unfoldable pub session_cipher_decrypt_callback :
      SessionCipher → Option (Callback S) → Buffer → Action (World S) (Unit {0})
  session_cipher_decrypt_callback cipher none plaintext = pure tt
  session_cipher_decrypt_callback cipher (some callback) plaintext =
      callback (record cipher { inside_callback = true }) plaintext

  unfoldable pub decrypt_body :
      SessionCipher → Option (Callback S) → SignalMessage → Action (World S) Buffer
  unfolding session_cipher_decrypt_callback session_cipher_decrypt_from_record_and_signal_message
  decrypt_body cipher callback ciphertext = do
    found ← signal_protocol_session_contains_session c cipher.remote_address
    lift (guard (not (found == 0)) no_session)
    r ← signal_protocol_session_load_session c cipher.remote_address
    (plaintext, r') ← on_random (
        session_cipher_decrypt_from_record_and_signal_message c.provider c.state_codec ciphertext r)
    session_cipher_decrypt_callback cipher callback plaintext
    signal_protocol_session_store_session c cipher.remote_address r'
    pure plaintext

  unfoldable pub session_cipher_decrypt_signal_message :
      SessionCipher → Option (Callback S) → SignalMessage → Action (World S) Buffer
  unfolding refuse_reentry decrypt_body
  session_cipher_decrypt_signal_message cipher callback ciphertext =
      refuse_reentry cipher (decrypt_body cipher callback ciphertext)

  unfoldable pub session_cipher_get_remote_registration_id : SessionCipher → Action (World S) ℕ
  session_cipher_get_remote_registration_id cipher = do
    r ← signal_protocol_session_load_session c cipher.remote_address
    state ← lift (required r.state unknown)
    pure state.remote_registration_id

  unfoldable pub read_version : Address → Action (World S) ℕ
  read_version address = do
    r ← signal_protocol_session_load_session c address
    state ← lift (required r.state unknown)
    pure state.session_version

  -- A number that is neither 0 nor 1 succeeds with the version 0.
  unfoldable pub version_if_found : Address → (found : ℕ) → Action (World S) ℕ
  unfolding read_version
  version_if_found address found =
      if found == 1
      then read_version address
      else lift (if found == 0 then err no_session else ok 0)

  unfoldable pub session_cipher_get_session_version : SessionCipher → Action (World S) ℕ
  unfolding version_if_found
  session_cipher_get_session_version cipher = do
    found ← signal_protocol_session_contains_session c cipher.remote_address
    version_if_found cipher.remote_address found
