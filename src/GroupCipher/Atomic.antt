-- ===== src/GroupCipher/Atomic.antt =====
-- A call that fails has stored nothing.
use rn_signal_protocol_messa.Base.{◌≡◌, Bool-cases, inl, inr, Option}
use rn_signal_protocol_messa.Status.{Error, err, inval}
use rn_signal_protocol_messa.Action.{Action}
use rn_signal_protocol_messa.Crypto.{Buffer}
use rn_signal_protocol_messa.KeyRecord.{SenderKeyRecord, sender_key_record_serialize}
use rn_signal_protocol_messa.GroupMessage.{SenderKeyMessage}
use rn_signal_protocol_messa.Store.{
  SenderKeyName, Context, World, signal_protocol_sender_key_load_key,
  signal_protocol_sender_key_store_key, read_loaded, attach,
}
use rn_signal_protocol_messa.Store.Laws.{IsTransactional}
use rn_signal_protocol_messa.Store.Atomic.{
  Still, IsAtomic, Still-lift, Still-on_random, Still-pure, Still-bind, IsAtomic-Still,
  IsAtomic-bind, IsAtomic-last, IsAtomic-map_error,
}
use rn_signal_protocol_messa.GroupCipher.{
  GroupCipher, Callback, no_session_error, invalid_message_error, refuse_reentry, encrypt_body,
  decrypt_body, group_cipher_encrypt, group_cipher_decrypt, group_cipher_decrypt_callback,
}

module _ {S : Type 0} (c : Context S) (t : IsTransactional c.sender_key_store) where
  Still-load : (name : SenderKeyName) → Still (signal_protocol_sender_key_load_key c name)
  unfolding signal_protocol_sender_key_load_key
  Still-load name =
      Still-bind (record { at = λ w. t.reading name w.stored })
        λ loaded.
          Still-bind (Still-lift (read_loaded c loaded.code loaded.buffer))
            λ r. Still-pure (attach loaded.user_buffer r)

  IsAtomic-store :
      (name : SenderKeyName) (r : SenderKeyRecord)
      → IsAtomic (signal_protocol_sender_key_store_key c name r)
  unfolding signal_protocol_sender_key_store_key
  IsAtomic-store name r =
      IsAtomic-bind (Still-lift (sender_key_record_serialize c.record_codec r))
        λ bytes. record { at = λ w e h. t.refusing name bytes r.user_record w.stored e h }

  IsAtomic-refuse :
      {A : Type 0} (cipher : GroupCipher) {m : Action (World S) A}
      → IsAtomic m
      → IsAtomic (refuse_reentry c cipher m)
  unfolding refuse_reentry
  IsAtomic-refuse cipher a = elim (Bool-cases cipher.inside_callback) [
    | inl e ↦ rw e (IsAtomic-Still (Still-lift (err inval)))
    | inr e ↦ rw e a
  ]

  ruleset atomic = (
    IsAtomic-bind, IsAtomic-last, IsAtomic-store, Still-load, Still-lift, Still-on_random,
    Still-pure,
  )

  IsAtomic-encrypt_body :
      (name : SenderKeyName) (plaintext : Buffer) → IsAtomic (encrypt_body c name plaintext)
  unfolding encrypt_body
  IsAtomic-encrypt_body name plaintext = search (atomic) depth 25 fits 5000

  module _ (cipher : GroupCipher) (callback : Option (Callback S)) where
    IsAtomic-decrypt_body :
        ((plaintext : Buffer) → Still (group_cipher_decrypt_callback c cipher callback plaintext))
        → (message : SenderKeyMessage) → IsAtomic (decrypt_body c cipher callback message)
    unfolding decrypt_body
    IsAtomic-decrypt_body quiet message = search (atomic) depth 25 fits 5000

    -- For a store whose loads and refused writes change nothing, and a callback that leaves the store
    -- alone (or none): a group_cipher_decrypt that returns an error, whichever and wherever it arises,
    -- leaves the client's store as it was, so the sender's keys are not used up.
    pub group_cipher_decrypt_atomic :
        ((plaintext : Buffer) (w : World S)
          → (group_cipher_decrypt_callback c cipher callback plaintext w).1.stored ≡ w.stored)
        → (message : SenderKeyMessage) (w : World S) (e : Error)
        → (group_cipher_decrypt c cipher callback message w).0 ≡ err e
        → (group_cipher_decrypt c cipher callback message w).1.stored ≡ w.stored
    unfolding group_cipher_decrypt
    group_cipher_decrypt_atomic quiet message w e h =
        (IsAtomic-map_error invalid_message_error (
            IsAtomic-refuse cipher
              (IsAtomic-decrypt_body (λ plaintext. record { at = quiet plaintext }) message))).at
          w e h

  -- For a store whose loads and refused writes change nothing: a group_cipher_encrypt that returns an
  -- error leaves the client's store as it was, so the chain has not moved on.
  pub group_cipher_encrypt_atomic :
      (cipher : GroupCipher) (plaintext : Buffer) (w : World S) (e : Error)
      → (group_cipher_encrypt c cipher plaintext w).0 ≡ err e
      → (group_cipher_encrypt c cipher plaintext w).1.stored ≡ w.stored
  unfolding group_cipher_encrypt
  group_cipher_encrypt_atomic cipher plaintext w e h =
      (IsAtomic-map_error no_session_error
          (IsAtomic-refuse cipher (IsAtomic-encrypt_body cipher.sender_key_id plaintext))).at
        w e h
