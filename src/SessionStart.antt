-- ===== src/SessionStart.antt =====
-- session_cipher.c: the first message of the other side, which starts a session before it is
-- decrypted in it.
use rn_signal_protocol_messa.Base.{ℕ, Option, none, some}
use rn_signal_protocol_messa.Action.{Action, pure, ◌>>=◌, ◌>>◌}
use rn_signal_protocol_messa.Crypto.{Buffer}
use rn_signal_protocol_messa.Store.{World, on_random}
use rn_signal_protocol_messa.PreKeyMessage.{PreKeySignalMessage}
use rn_signal_protocol_messa.SessionTrial.{session_cipher_decrypt_from_record_and_signal_message}
use rn_signal_protocol_messa.SessionStore.{
  SessionContext, signal_protocol_session_load_session, signal_protocol_session_store_session,
}
use rn_signal_protocol_messa.SessionService.{
  SessionCipher, Callback, refuse_reentry, session_cipher_decrypt_callback,
}
use rn_signal_protocol_messa.KeyStore.{KeyStores, signal_protocol_pre_key_remove_key}
use rn_signal_protocol_messa.SessionBuilder.{session_builder_process_pre_key_signal_message}

module _ {S : Type 0} (c : SessionContext S) (k : KeyStores S) where
  -- A one-time pre key is removed once it has been used.
  unfoldable pub remove_used : Option ℕ → Action (World S) (Unit {0})
  unfolding signal_protocol_pre_key_remove_key
  remove_used none = pure tt
  remove_used (some id) = signal_protocol_pre_key_remove_key k id

  unfoldable pub decrypt_first :
      SessionCipher → Option (Callback S) → PreKeySignalMessage → Action (World S) Buffer
  unfolding remove_used session_cipher_decrypt_callback
      session_builder_process_pre_key_signal_message
      session_cipher_decrypt_from_record_and_signal_message
  decrypt_first cipher callback ciphertext = do
    r ← signal_protocol_session_load_session c cipher.remote_address
    (started, unsigned_pre_key_id) ←
        session_builder_process_pre_key_signal_message c k cipher.remote_address r ciphertext
    (plaintext, r') ← on_random (
        session_cipher_decrypt_from_record_and_signal_message c.provider c.state_codec
          ciphertext.message started)
    session_cipher_decrypt_callback c cipher callback plaintext
    signal_protocol_session_store_session c cipher.remote_address r'
    remove_used unsigned_pre_key_id
    pure plaintext

  unfoldable pub session_cipher_decrypt_pre_key_signal_message :
      SessionCipher → Option (Callback S) → PreKeySignalMessage → Action (World S) Buffer
  unfolding refuse_reentry decrypt_first
  session_cipher_decrypt_pre_key_signal_message cipher callback ciphertext =
      refuse_reentry c cipher (decrypt_first cipher callback ciphertext)
