-- ===== src/GroupCipher/Errors.antt =====
-- The errors of group_cipher.c.
use rn_signal_protocol_messa.Base.{◌≡◌, ◌≢◌, refl, true, Option, arith}
use rn_signal_protocol_messa.Status.{Error, Result, ok, err, inval, invalid_key, invalid_key_id}
use rn_signal_protocol_messa.Action.{Action, map_error}
use rn_signal_protocol_messa.Crypto.{Buffer}
use rn_signal_protocol_messa.GroupMessage.{SenderKeyMessage}
use rn_signal_protocol_messa.Store.{Context, World}
use rn_signal_protocol_messa.GroupCipher.{
  GroupCipher, Callback, no_session_error, invalid_message_error, refuse_reentry, encrypt_body,
  decrypt_body, group_cipher_encrypt, group_cipher_decrypt,
}

module _ {S : Type 0} (c : Context S) where
  -- Inside its own decryption callback a cipher refuses to encrypt and to decrypt, with SG_ERR_INVAL,
  -- and touches neither the store nor the random source.
  pub refuses_reentry :
      (cipher : GroupCipher) (plaintext : Buffer) (callback : Option (Callback S))
      (message : SenderKeyMessage) (w : World S)
      → cipher.inside_callback ≡ true
      → (group_cipher_encrypt c cipher plaintext w ≡ (err inval, w))
        × (group_cipher_decrypt c cipher callback message w ≡ (err inval, w))
  unfolding group_cipher_encrypt group_cipher_decrypt refuse_reentry
  refuses_reentry cipher plaintext callback message w inside = rw inside (refl, refl)

mapped :
    {S A : Type 0} (f : Error → Error) (m : Action S A) (e : Error)
    → ((d : Error) → f d ≢ e)
    → (s : S) → (map_error f m s).0 ≢ err e
mapped {S} {A} f m e never s = go (m s).0
  where
    go : (r : Result A) → (elim r as (λ _. Result A) [ ok a ↦ ok a | err d ↦ err (f d) ]) ≢ err e
    go (ok a) h = cc
    go (err d) h = never d (cc h)

never_invalid_key_id : (d : Error) → no_session_error d ≢ invalid_key_id
unfolding no_session_error
never_invalid_key_id d h = ground arith

never_invalid_key : (d : Error) → invalid_message_error d ≢ invalid_key
unfolding invalid_message_error
never_invalid_key d h = ground arith

never_invalid_key_id_either : (d : Error) → invalid_message_error d ≢ invalid_key_id
unfolding invalid_message_error
never_invalid_key_id_either d h = ground arith

module _ {S : Type 0} (c : Context S) (cipher : GroupCipher) (w : World S) where
  -- Whatever fails below, SG_ERR_INVALID_KEY_ID never comes out of an encryption, and neither it nor
  -- SG_ERR_INVALID_KEY out of a decryption.
  pub hides_key_errors :
      (plaintext : Buffer) (callback : Option (Callback S)) (message : SenderKeyMessage)
      → ((group_cipher_encrypt c cipher plaintext w).0 ≢ err invalid_key_id)
        × ((group_cipher_decrypt c cipher callback message w).0 ≢ err invalid_key_id)
        × ((group_cipher_decrypt c cipher callback message w).0 ≢ err invalid_key)
  unfolding group_cipher_encrypt group_cipher_decrypt
  hides_key_errors plaintext callback message = (
    mapped no_session_error
        (refuse_reentry c cipher (encrypt_body c cipher.sender_key_id plaintext)) invalid_key_id
        never_invalid_key_id w,
    mapped invalid_message_error (refuse_reentry c cipher (decrypt_body c cipher callback message))
        invalid_key_id never_invalid_key_id_either w,
    mapped invalid_message_error (refuse_reentry c cipher (decrypt_body c cipher callback message))
        invalid_key never_invalid_key w,
  )
