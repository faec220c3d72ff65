-- ===== src/SessionCipher.antt =====
-- session_cipher.c: a message that is encrypted with the state of a session, and one that is
-- decrypted on a copy of the state, which is dropped after an error.
pub mod Encrypt
pub mod EndToEnd
use rn_signal_protocol_messa.Base.{
  ℕ, ◌/◌, ◌%◌, ◌^◌, Option, none, some, [], ◌∷◌, ◌++◌, replicate, leb, ◌==◌, if◌then◌else◌,
}
use rn_signal_protocol_messa.Status.{Result, ok, err, unknown, invalid_message, guard, required}
use rn_signal_protocol_messa.Status as Status
use rn_signal_protocol_messa.Action.{Action, pure, lift, ◌>>=◌, ◌>>◌}
use rn_signal_protocol_messa.Crypto.{
  Buffer, Provider, Codec, Cipher, aes_ctr_nopadding, aes_cbc_pkcs5,
}
use rn_signal_protocol_messa.Ratchet.{
  RatchetMessageKeys, ratchet_chain_key_get_message_keys, ratchet_chain_key_create_next,
}
use rn_signal_protocol_messa.SessionState.{
  SessionState, session_state_get_sender_chain_key, session_state_get_sender_ratchet_key,
  session_state_has_sender_chain, session_state_set_sender_chain_key,
  session_state_clear_unacknowledged_pre_key_message,
}
use rn_signal_protocol_messa.SessionChain.{session_cipher_get_or_create_chain_key}
use rn_signal_protocol_messa.SessionSkip.{session_cipher_get_or_create_message_keys}
use rn_signal_protocol_messa.SignalMessage.{
  SignalMessageStructure, SignalMessage, signal_message_create, signal_message_verify_mac,
}

-- The counter in the first four bytes, the highest first.
abbrev pub counter_iv : (counter : ℕ) → Buffer
counter_iv counter =
    (counter / 2 ^ 24 % 256 ∷ counter / 2 ^ 16 % 256 ∷ counter / 2 ^ 8 % 256 ∷ counter % 256 ∷ [])
    ++ replicate 12 0

module _ (p : Provider) where
  unfoldable pub session_cipher_get_ciphertext :
      (version : ℕ) → RatchetMessageKeys → (plaintext : Buffer) → Result Buffer
  session_cipher_get_ciphertext version message_keys plaintext =
      if leb 3 version
      then p.encrypt aes_cbc_pkcs5 message_keys.cipher_key message_keys.iv plaintext
      else p.encrypt aes_ctr_nopadding message_keys.cipher_key (counter_iv message_keys.counter)
          plaintext

  unfoldable pub session_cipher_get_plaintext :
      (version : ℕ) → RatchetMessageKeys → (ciphertext : Buffer) → Result Buffer
  session_cipher_get_plaintext version message_keys ciphertext =
      if leb 3 version
      then p.decrypt aes_cbc_pkcs5 message_keys.cipher_key message_keys.iv ciphertext
      else p.decrypt aes_ctr_nopadding message_keys.cipher_key (counter_iv message_keys.counter)
          ciphertext

  -- session_cipher_encrypt, from the state to the message; `signal_message_create` takes the
  -- version as a byte.
  unfoldable pub encrypt_with_state :
      Codec SignalMessageStructure → SessionState → (padded_message : Buffer) → Result SignalMessage
  unfolding session_cipher_get_ciphertext
  encrypt_with_state codec state padded_message =
      Status.◌>>=◌ (required (session_state_get_sender_chain_key state) unknown) λ chain_key.
        Status.◌>>=◌ (ratchet_chain_key_get_message_keys p chain_key) λ message_keys.
          Status.◌>>=◌ (required (session_state_get_sender_ratchet_key state) unknown)
            λ sender_ephemeral.
              Status.◌>>=◌
                (session_cipher_get_ciphertext state.session_version message_keys padded_message)
                λ ciphertext.
                  Status.◌>>=◌ (required state.local_identity_public unknown) λ local_identity_key.
                    Status.◌>>=◌ (required state.remote_identity_public unknown)
                      λ remote_identity_key.
                        signal_message_create p codec (state.session_version % 256)
                          message_keys.mac_key sender_ephemeral chain_key.index
                          state.previous_counter ciphertext (some local_identity_key)
                          (some remote_identity_key)

  -- session_cipher_encrypt: the chain moves on after the message.
  unfoldable pub advance_sender_chain : SessionState → Result SessionState
  advance_sender_chain state =
      Status.◌>>=◌ (required (session_state_get_sender_chain_key state) unknown) λ chain_key.
        Status.◌>>=◌ (ratchet_chain_key_create_next p chain_key)
          λ next_chain_key. session_state_set_sender_chain_key state next_chain_key

  -- The key and the body of a message that was read are never null.
  unfoldable pub session_cipher_decrypt_from_state_and_signal_message :
      SessionState → SignalMessage → Action ℕ (Buffer × SessionState)
  unfolding session_cipher_get_or_create_chain_key session_cipher_get_or_create_message_keys
      session_cipher_get_plaintext
  session_cipher_decrypt_from_state_and_signal_message state ciphertext = do
    lift (guard (session_state_has_sender_chain state) invalid_message)
    lift (guard (ciphertext.message_version == state.session_version) invalid_message)
    let their_ephemeral = ciphertext.sender_ratchet_key
    (chain_key, with_chain) ← session_cipher_get_or_create_chain_key p state their_ephemeral
    (message_keys, with_keys) ← lift (
        session_cipher_get_or_create_message_keys p their_ephemeral with_chain chain_key
          ciphertext.counter)
    remote_identity_key ← lift (required with_keys.remote_identity_public unknown)
    local_identity_key ← lift (required with_keys.local_identity_public unknown)
    verified ← lift (
        signal_message_verify_mac p ciphertext (some remote_identity_key) (some local_identity_key)
          message_keys.mac_key)
    lift (guard verified invalid_message)
    plaintext ←
        lift (
          session_cipher_get_plaintext ciphertext.message_version message_keys
            ciphertext.ciphertext)
    pure (plaintext, session_state_clear_unacknowledged_pre_key_message with_keys)
