-- ===== src/SessionService/Atomic.antt =====
-- A call on a session that fails has stored nothing.
use rn_signal_protocol_messa.Base.{◌≡◌, Bool-cases, inl, inr, Option, some}
use rn_signal_protocol_messa.Status.{Error, err, inval}
use rn_signal_protocol_messa.Action.{Action}
use rn_signal_protocol_messa.Crypto.{Buffer}
use rn_signal_protocol_messa.Store.{World}
use rn_signal_protocol_messa.Store.Atomic.{
  Still, IsAtomic, Still-lift, Still-on_random, Still-pure, Still-bind, IsAtomic-Still,
  IsAtomic-bind, IsAtomic-last,
}
use rn_signal_protocol_messa.SignalMessage.{SignalMessage}
use rn_signal_protocol_messa.SessionRecord.{SessionRecord, session_record_serialize}
use rn_signal_protocol_messa.SessionStore.{
  Address, SessionStore, SessionContext, read_loaded, attach, signal_protocol_session_load_session,
  signal_protocol_session_store_session, signal_protocol_session_contains_session,
}
use rn_signal_protocol_messa.SessionService.{
  SessionCipher, Callback, refuse_reentry, encrypt_body, session_cipher_encrypt,
  session_cipher_decrypt_callback, decrypt_body, session_cipher_decrypt_signal_message,
}

-- A store whose state a load or a question never changes, nor a refused write.
pub record IsTransactional {S : Type 0} (k : SessionStore S) : Type 0 where
  pub reading : (address : Address) (s : S) → (k.load_session address s).1 ≡ s
  pub asking : (address : Address) (s : S) → (k.contains_session address s).1 ≡ s
  pub refusing :
      (address : Address) (bytes : Buffer) (user : Option Buffer) (s : S) (e : Error)
      → (k.store_session address bytes user s).0 ≡ err e
      → (k.store_session address bytes user s).1 ≡ s

module _ {S : Type 0} (c : SessionContext S) (t : IsTransactional c.session_store) where
  Still-load : (address : Address) → Still (signal_protocol_session_load_session c address)
  unfolding signal_protocol_session_load_session
  Still-load address =
      Still-bind (record { at = λ w. t.reading address w.stored })
        λ loaded.
          Still-bind (Still-lift (read_loaded c loaded.code loaded.buffer))
            λ r. Still-pure (attach loaded.user_buffer r)

  Still-contains : (address : Address) → Still (signal_protocol_session_contains_session c address)
  unfolding signal_protocol_session_contains_session
  Still-contains address = record { at = λ w. t.asking address w.stored }

  IsAtomic-store :
      (address : Address) (r : SessionRecord)
      → IsAtomic (signal_protocol_session_store_session c address r)
  unfolding signal_protocol_session_store_session
  IsAtomic-store address r =
      IsAtomic-bind (Still-lift (session_record_serialize c.record_codec (some r)))
        λ bytes. record { at = λ w e h. t.refusing address bytes r.user_record w.stored e h }

  IsAtomic-refuse :
      {A : Type 0} (cipher : SessionCipher) {m : Action (World S) A}
      → IsAtomic m
      → IsAtomic (refuse_reentry c cipher m)
  unfolding refuse_reentry
  IsAtomic-refuse cipher a = elim (Bool-cases cipher.inside_callback) [
    | inl e ↦ rw e (IsAtomic-Still (Still-lift (err inval)))
    | inr e ↦ rw e a
  ]

  ruleset atomic = (
    IsAtomic-bind, IsAtomic-last, IsAtomic-store, Still-load, Still-contains, Still-lift,
    Still-on_random, Still-pure,
  )

  IsAtomic-encrypt_body :
      (address : Address) (plaintext : Buffer) → IsAtomic (encrypt_body c address plaintext)
  unfolding encrypt_body
  IsAtomic-encrypt_body address plaintext = search (atomic) depth 25 fits 5000

  module _ (cipher : SessionCipher) (callback : Option (Callback S))
      (quiet : (plaintext : Buffer) (w : World S)
        → (session_cipher_decrypt_callback c cipher callback plaintext w).1.stored ≡ w.stored) where
    Still-callback :
        (plaintext : Buffer) → Still (session_cipher_decrypt_callback c cipher callback plaintext)
    Still-callback plaintext = record { at = quiet plaintext }

    IsAtomic-decrypt_body :
        (message : SignalMessage) → IsAtomic (decrypt_body c cipher callback message)
    unfolding decrypt_body
    IsAtomic-decrypt_body message = search (atomic, Still-callback) depth 25 fits 5000

    -- For a store whose loads, questions and refused writes change nothing, and a callback that
    -- leaves the store alone (or none): a session_cipher_decrypt_signal_message that returns an
    -- error, whichever and wherever it arises, leaves the client's store as it was, so no key was
    -- used up.
    pub session_cipher_decrypt_atomic :
        (message : SignalMessage) (w : World S) (e : Error)
        → (session_cipher_decrypt_signal_message c cipher callback message w).0 ≡ err e
        → (session_cipher_decrypt_signal_message c cipher callback message w).1.stored ≡ w.stored
    unfolding session_cipher_decrypt_signal_message
    session_cipher_decrypt_atomic message w e h =
        (IsAtomic-refuse cipher (IsAtomic-decrypt_body message)).at w e h

  -- For a store whose loads, questions and refused writes change nothing: a session_cipher_encrypt
  -- that returns an error leaves the client's store as it was, so the chain has not moved on.
  pub session_cipher_encrypt_atomic :
      (cipher : SessionCipher) (plaintext : Buffer) (w : World S) (e : Error)
      → (session_cipher_encrypt c cipher plaintext w).0 ≡ err e
      → (session_cipher_encrypt c cipher plaintext w).1.stored ≡ w.stored
  unfolding session_cipher_encrypt
  session_cipher_encrypt_atomic cipher plaintext w e h =
      (IsAtomic-refuse cipher (IsAtomic-encrypt_body cipher.remote_address plaintext)).at w e h
