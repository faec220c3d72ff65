-- ===== src/GroupCipher/Decrypt.antt =====
-- What a successful decryption checks, yields and stores, and what the unsuccessful ones return.
use rn_signal_protocol_messa.Base.{
  ◌≡◌, ◌∙◌, refl, sym, ap, none, inl, inr, [], ◌∷◌, List, ℕ, Bool-cases, false, true, take, drop,
  length, ◌-◌, ◌==◌,
}
use rn_signal_protocol_messa.Status.{ok, err, Result-cases, Error}
use rn_signal_protocol_messa.Action.{◌>>=◌}
use rn_signal_protocol_messa.Crypto.{Buffer, aes_cbc_pkcs5, Provider}
use rn_signal_protocol_messa.SenderKey.{SenderMessageKey}
use rn_signal_protocol_messa.KeyState.{SenderKeyState}
use rn_signal_protocol_messa.KeyRecord.{
  SenderKeyRecord, find_state, set_by_id, sender_key_record_is_empty,
  sender_key_record_get_sender_key_state_by_id,
}
use rn_signal_protocol_messa.GroupMessage.{
  SenderKeyMessage, sender_key_message_verify_signature, signature_length, valid_or_error,
}
use rn_signal_protocol_messa.GroupRatchet.{group_cipher_get_sender_key}
use rn_signal_protocol_messa.Store.{Context, World, signal_protocol_sender_key_store_key}
use rn_signal_protocol_messa.Store.Laws.{IsContext, saved, store_key_lem}
use rn_signal_protocol_messa.GroupCipher.{
  GroupCipher, invalid_message_error, refuse_reentry, require_states, decrypt_body,
  group_cipher_decrypt, group_cipher_decrypt_callback,
}
use rn_signal_protocol_messa.GroupCipher.Encrypt.{Loads, map_error-ok}
use rn_signal_protocol_messa.Curve.{curve_verify_signature, PublicKey}

has_states :
    (r : SenderKeyRecord) (id : ℕ) (s : SenderKeyState)
    → sender_key_record_get_sender_key_state_by_id r id ≡ ok s
    → require_states r ≡ ok tt
unfolding sender_key_record_get_sender_key_state_by_id require_states sender_key_record_is_empty
    find_state
has_states r id s e = go r.states e
  where
    go :
        (ss : List SenderKeyState)
        → find_state ss id ≡ ok s
        → require_states (record { states = ss; user_record = none }) ≡ ok tt
    go [] h = cc
    go (t ∷ ts) h = refl

-- The last 64 bytes of a message, and what stands before them.
abbrev pub signature_of : SenderKeyMessage → Buffer
signature_of m = drop (length m.serialized - signature_length) m.serialized

abbrev pub signed_part : SenderKeyMessage → Buffer
signed_part m = take (length m.serialized - signature_length) m.serialized

verify_signature-ok :
    (p : Provider) (m : SenderKeyMessage) (key : PublicKey)
    → sender_key_message_verify_signature p m key ≡ ok tt
    → p.verify (signature_of m) key.point (signed_part m) ≡ true
unfolding sender_key_message_verify_signature valid_or_error curve_verify_signature
verify_signature-ok p m key h = elim (Bool-cases (length (signature_of m) == 64)) [
  | inr wrong ↦ cc (rw wrong at h)
  | inl sized ↦ elim (Bool-cases (p.verify (signature_of m) key.point (signed_part m))) [
    | inl good ↦ good
    | inr bad ↦ cc (rw (sized, bad) at h)
  ]
]

module _ {S : Type 0} (c : Context S) (cipher : GroupCipher) (m : SenderKeyMessage)
    (r : SenderKeyRecord) (v : World S) where
  -- The signature verifies under the key of the state of that id, the state yields the message key of
  -- the iteration, the ciphertext decrypts under it, and the state that is left is stored.
  pub record IsReceived (plaintext : Buffer) (v' : World S) : Type 0 where
    pub state : SenderKeyState
    pub found : sender_key_record_get_sender_key_state_by_id r m.key_id ≡ ok state
    pub verified :
        sender_key_message_verify_signature c.provider m state.signature_public_key ≡ ok tt
    pub key : SenderMessageKey
    pub later : SenderKeyState
    pub stepped : group_cipher_get_sender_key c.provider state m.iteration ≡ ok (key, later)
    pub decrypted :
        c.provider.decrypt aes_cbc_pkcs5 key.cipher_key key.iv m.ciphertext ≡ ok plaintext
    pub left : v' ≡ saved c cipher.sender_key_id (set_by_id r m.key_id later) v

  module _ (laws : IsContext c) (free : cipher.inside_callback ≡ false)
      (loads : Loads c cipher.sender_key_id r v) where
    pub decrypt_lem :
        (plaintext : Buffer) (v' : World S)
        → IsReceived plaintext v'
        → group_cipher_decrypt c cipher none m v ≡ (ok plaintext, v')
    unfolding group_cipher_decrypt refuse_reentry decrypt_body group_cipher_decrypt_callback ◌>>=◌
    decrypt_lem plaintext v' g = rw (
      free,
      loads,
      has_states r m.key_id g.state g.found,
      g.found,
      g.verified,
      g.stepped,
      g.decrypted,
      store_key_lem c laws,
      g.left,
    )

    -- The refusals of the ratchet come out as they are or, for a bad key, as an invalid message.
    pub decrypt_refused :
        (state : SenderKeyState) (e : Error)
        → sender_key_record_get_sender_key_state_by_id r m.key_id ≡ ok state
        → sender_key_message_verify_signature c.provider m state.signature_public_key ≡ ok tt
        → group_cipher_get_sender_key c.provider state m.iteration ≡ err e
        → group_cipher_decrypt c cipher none m v ≡ (err (invalid_message_error e), v)
    unfolding group_cipher_decrypt refuse_reentry decrypt_body group_cipher_decrypt_callback ◌>>=◌
        invalid_message_error
    decrypt_refused state e found verified bad =
        rw (free, loads, has_states r m.key_id state found, found, verified, bad)

  module _ (laws : IsContext c) (loads : Loads c cipher.sender_key_id r v) where
    decrypt_body-IsReceived :
        (plaintext : Buffer) (v' : World S)
        → decrypt_body c cipher none m v ≡ (ok plaintext, v')
        → IsReceived plaintext v'
    unfolding decrypt_body group_cipher_decrypt_callback ◌>>=◌
    decrypt_body-IsReceived plaintext v' e =
        elim (Result-cases (sender_key_record_get_sender_key_state_by_id r m.key_id)) [
          | inr (d, bad) ↦ elim (Result-cases (require_states r)) [
            | inr (d', bad') ↦ cc (rw (loads, bad') at e)
            | inl (_, there) ↦ cc (rw (loads, there, bad) at e)
          ]
          | inl (state, found) ↦
              let some_states = has_states r m.key_id state found in
              elim (Result-cases
                (sender_key_message_verify_signature c.provider m state.signature_public_key)) [
                  | inr (d, bad) ↦ cc (rw (loads, some_states, found, bad) at e)
                  | inl (_, verified) ↦
                      let now = rw (loads, some_states, found, verified) at e in
                      elim (Result-cases
                        (group_cipher_get_sender_key c.provider state m.iteration)) [
                          | inr (d, bad) ↦ cc (rw bad at now)
                          | inl ((key, later), stepped) ↦
                              elim (Result-cases (
                                c.provider.decrypt aes_cbc_pkcs5 key.cipher_key key.iv
                                  m.ciphertext)) [
                                    | inr (d, bad) ↦ cc (rw (stepped, bad) at now)
                                    | inl (plain, decrypted) ↦
                                        let whole =
                                          rw (stepped, decrypted, store_key_lem c laws) at now in
                                        record {
                                          state = state;
                                          found = found;
                                          verified = verified;
                                          key = key;
                                          later = later;
                                          stepped = stepped;
                                          decrypted = decrypted ∙ ap (λ x. x.0) whole;
                                          left = sym (ap (λ x. x.1) whole);
                                        }
                                  ]
                        ]
                ]
        ]

    pub decrypt-IsReceived :
        (plaintext : Buffer) (v' : World S)
        → group_cipher_decrypt c cipher none m v ≡ (ok plaintext, v')
        → IsReceived plaintext v'
    unfolding group_cipher_decrypt refuse_reentry
    decrypt-IsReceived plaintext v' e = elim (Bool-cases cipher.inside_callback) [
      | inl inside ↦ cc (rw inside at e)
      | inr free ↦
          decrypt_body-IsReceived plaintext v'
            (map_error-ok invalid_message_error (decrypt_body c cipher none m v) (rw free at e))
    ]

    -- With a record that the store loads, a codec and a store that keep what they are given, an
    -- HMAC-SHA256 that always succeeds with 32 bytes, and no callback: if group_cipher_decrypt
    -- succeeds, then the record has a state of the message's id, the last 64 bytes of the message
    -- verify as a signature under the public key of that state over all the bytes before them, the
    -- plaintext is what the message key of the iteration decrypts, and of the store only the
    -- record of the sender is written, with the state that is left in the place of the old one.
    pub decrypt_authentic :
        (plaintext : Buffer) (v' : World S)
        → group_cipher_decrypt c cipher none m v ≡ (ok plaintext, v')
        → (state later : SenderKeyState) × (key : SenderMessageKey)
          × (sender_key_record_get_sender_key_state_by_id r m.key_id ≡ ok state)
          × (c.provider.verify (signature_of m) state.signature_public_key.point (signed_part m)
              ≡ true)
          × (group_cipher_get_sender_key c.provider state m.iteration ≡ ok (key, later))
          × (c.provider.decrypt aes_cbc_pkcs5 key.cipher_key key.iv m.ciphertext ≡ ok plaintext)
          × (signal_protocol_sender_key_store_key c cipher.sender_key_id
                (set_by_id r m.key_id later)
                v
              ≡ (ok tt, v'))
    decrypt_authentic plaintext v' e =
        let g = decrypt-IsReceived plaintext v' e in
        (
          g.state,
          g.later,
          g.key,
          g.found,
          verify_signature-ok c.provider m g.state.signature_public_key g.verified,
          g.stepped,
          g.decrypted,
          store_key_lem c laws cipher.sender_key_id (set_by_id r m.key_id g.later) v
              ∙ ap (λ x. (ok tt, x)) (sym g.left),
        )
