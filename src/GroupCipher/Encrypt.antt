-- ===== src/GroupCipher/Encrypt.antt =====
-- What a successful encryption sends and stores.
use rn_signal_protocol_messa.Base.{
  ◌≡◌, ap, some, inl, inr, List, ◌∷◌, [], Option, Bool-cases, arith, ◌∙◌, sym, subst,
}
use rn_signal_protocol_messa.Status.{ok, err, Result-cases, Error, Result}
use rn_signal_protocol_messa.Action.{◌>>=◌}
use rn_signal_protocol_messa.Crypto.{Buffer, mac, aes_cbc_pkcs5, IsCodec}
use rn_signal_protocol_messa.Curve.{PrivateKey}
use rn_signal_protocol_messa.SenderKey.{SenderMessageKey, add_u32}
use rn_signal_protocol_messa.SenderKey.Chain.{
  message_key_of, create_message_key_lem, create_next_lem,
}
use rn_signal_protocol_messa.KeyState.{SenderKeyState, sender_key_state_set_chain_key}
use rn_signal_protocol_messa.KeyRecord.{
  SenderKeyRecord, sender_key_record_get_sender_key_state, set_head,
}
use rn_signal_protocol_messa.GroupMessage.{SenderKeyMessage, sender_key_message_create}
use rn_signal_protocol_messa.Store.{
  SenderKeyName, Context, World, signal_protocol_sender_key_load_key,
}
use rn_signal_protocol_messa.Store.Laws.{IsContext, saved, store_key_lem, load-saved}
use rn_signal_protocol_messa.GroupCipher.{
  GroupCipher, no_session_error, refuse_reentry, require_private, encrypt_body,
  group_cipher_encrypt, Result,
}
use rn_signal_protocol_messa.KeyState.RoundTrip as StateTrip
use rn_signal_protocol_messa.KeyRecord.RoundTrip.{IsWellFormed}
use rn_signal_protocol_messa.GroupMessage.RoundTrip.{IsSigned, create-IsSigned}

module _ {S : Type 0} (c : Context S) where
  -- The client's store has this record for the sender, and loading it changes nothing.
  abbrev pub Loads : SenderKeyName → SenderKeyRecord → World S → Type 0
  Loads name r w = signal_protocol_sender_key_load_key c name w ≡ (ok r, w)

  abbrev pub current_key : SenderKeyState → SenderMessageKey
  current_key state =
      message_key_of c.provider state.chain_key.iteration
        (mac c.provider state.chain_key.chain_key (1 ∷ []))

  -- The state with its chain one iteration on.
  abbrev pub advanced : SenderKeyState → SenderKeyState
  advanced state = record state {
    chain_key = record {
      iteration = add_u32 state.chain_key.iteration 1;
      chain_key = mac c.provider state.chain_key.chain_key (2 ∷ []);
    };
  }

  advanced-IsWellFormed :
      (state : SenderKeyState)
      → StateTrip.IsWellFormed c.provider state
      → StateTrip.IsWellFormed c.provider (advanced state)
  advanced-IsWellFormed state w = record {
    public_size = w.public_size;
    private_size = w.private_size;
    derived = w.derived;
    bounded = w.bounded;
  }

  module _ (name : SenderKeyName) (state : SenderKeyState) (rest : List SenderKeyState)
      (user : Option Buffer) (plaintext : Buffer) (w : World S) where
    abbrev pub sender_record : SenderKeyState → SenderKeyRecord
    sender_record s = record { states = s ∷ rest; user_record = user }

    -- The message is made by the private key, from a ciphertext under the chain's current key; then
    -- the record is stored with its chain one iteration on.
    pub record IsSent (m : SenderKeyMessage) (w' : World S) : Type 0 where
      pub key : PrivateKey
      pub has_key : state.signature_private_key ≡ some key
      pub ciphertext : Buffer
      pub encrypted :
          c.provider.encrypt aes_cbc_pkcs5
            (current_key state).cipher_key
            (current_key state).iv
            plaintext
          ≡ ok ciphertext
      pub made :
          (sender_key_message_create c.provider c.message_codec state.key_id
            state.chain_key.iteration ciphertext key w.draws).0
          ≡ ok m
      pub left :
          w'
          ≡ saved c name (sender_record (advanced state)) (record {
            draws =
                (sender_key_message_create c.provider c.message_codec state.key_id
                  state.chain_key.iteration ciphertext key w.draws).1;
            stored = w.stored;
          })

    require_private_lem :
        (k : Option PrivateKey) (key : PrivateKey) → require_private k ≡ ok key → k ≡ some key
    unfolding require_private
    require_private_lem k key e = ground arith

    encrypt_body-IsSent :
        IsContext c
        → Loads name (sender_record state) w
        → (m : SenderKeyMessage) (w' : World S) → encrypt_body c name plaintext w ≡ (ok m, w')
        → IsSent m w'
    unfolding encrypt_body ◌>>=◌ sender_key_record_get_sender_key_state set_head
        sender_key_state_set_chain_key message_key_of
    encrypt_body-IsSent laws loads m w' e =
        let known = create_message_key_lem c.provider laws.has_mac state.chain_key in
        let next = create_next_lem c.provider laws.has_mac state.chain_key in
        elim (Result-cases (require_private state.signature_private_key)) [
          | inr (d, bad) ↦ cc (rw (loads, bad) at e)
          | inl (key, has) ↦
              elim (Result-cases (
                c.provider.encrypt aes_cbc_pkcs5 (current_key state).cipher_key
                  (current_key state).iv plaintext)) [
                    | inr (d, bad) ↦ cc (rw (loads, has, known, bad) at e)
                    | inl (ciphertext, encrypted) ↦
                        elim (Result-cases
                          (sender_key_message_create c.provider c.message_codec state.key_id
                            state.chain_key.iteration ciphertext key w.draws).0) [
                              | inr (d, bad) ↦ cc (rw (loads, has, known, encrypted, bad) at e)
                              | inl (m0, made) ↦
                                  let whole =
                                    rw
                                      (
                                        loads,
                                        has,
                                        known,
                                        encrypted,
                                        made,
                                        next,
                                        store_key_lem c laws,
                                      )
                                      at e in
                                  record {
                                    key = key;
                                    has_key =
                                        require_private_lem state.signature_private_key key has;
                                    ciphertext = ciphertext;
                                    encrypted = encrypted;
                                    made = made ∙ ap (λ x. x.0) whole;
                                    left = sym (ap (λ x. x.1) whole);
                                  }
                            ]
                  ]
        ]

pub map_error-ok :
    {S A : Type 0} (f : Error → Error) (r : Result A × S) {a : A} {s : S}
    → ◌≡◌ {A = Result A × S}
        (elim r.0 as (λ _. Result A) [ ok x ↦ ok x | err e ↦ err (f e) ], r.1)
        (ok a, s)
    → r ≡ (ok a, s)
map_error-ok f (ok x, s) e = e
map_error-ok f (err d, s) e = cc

module _ {S : Type 0} (c : Context S) (laws : IsContext c) (cipher : GroupCipher)
    (state : SenderKeyState) (rest : List SenderKeyState) (user : Option Buffer)
    (plaintext : Buffer) (w : World S) where
  pub group_cipher_encrypt-IsSent :
      Loads c cipher.sender_key_id (record { states = state ∷ rest; user_record = user }) w
      → (m : SenderKeyMessage) (w' : World S)
      → group_cipher_encrypt c cipher plaintext w ≡ (ok m, w')
      → IsSent c cipher.sender_key_id state rest user plaintext w m w'
  unfolding group_cipher_encrypt refuse_reentry
  group_cipher_encrypt-IsSent loads m w' e = elim (Bool-cases cipher.inside_callback) [
    | inl inside ↦ cc (rw inside at e)
    | inr free ↦
        encrypt_body-IsSent c cipher.sender_key_id state rest user plaintext w laws loads m w' (
          map_error-ok no_session_error (encrypt_body c cipher.sender_key_id plaintext w)
            (rw free at e))
  ]

  module _ (codec : IsCodec c.message_codec) (m : SenderKeyMessage) (w' : World S)
      (sent : IsSent c cipher.sender_key_id state rest user plaintext w m w') where
    pub IsSent-IsSigned :
        IsSigned c.provider c.message_codec codec state.key_id state.chain_key.iteration
          sent.ciphertext sent.key m
    IsSent-IsSigned =
        create-IsSigned c.provider c.message_codec codec state.key_id state.chain_key.iteration
          sent.ciphertext sent.key w.draws
          (sender_key_message_create c.provider c.message_codec state.key_id
            state.chain_key.iteration sent.ciphertext sent.key w.draws).1
          m
          (λ i. (
            sent.made i,
            (sender_key_message_create c.provider c.message_codec state.key_id
                state.chain_key.iteration sent.ciphertext sent.key w.draws).1,
          ))

  -- For a store, codecs and a MAC that do what is documented of them, and a well-formed record of
  -- the sender in the store: a successful group_cipher_encrypt sends a message of the record's
  -- first state, with the id of the state, the iteration of its chain and a ciphertext under the
  -- chain's current key. Afterwards the store has the record with the chain of that state one
  -- iteration on, and all else as it was.
  pub group_cipher_encrypt_sent :
      IsCodec c.message_codec
      → IsWellFormed c.provider (record { states = state ∷ rest; user_record = user })
      → signal_protocol_sender_key_load_key c cipher.sender_key_id w
        ≡ (ok (record { states = state ∷ rest; user_record = user }), w)
      → (m : SenderKeyMessage) (w' : World S)
      → group_cipher_encrypt c cipher plaintext w ≡ (ok m, w')
      → (m.key_id ≡ state.key_id)
        × (m.iteration ≡ state.chain_key.iteration)
        × (c.provider.encrypt aes_cbc_pkcs5
              (current_key c state).cipher_key
              (current_key c state).iv
              plaintext
            ≡ ok m.ciphertext)
        × (signal_protocol_sender_key_load_key c cipher.sender_key_id w'
            ≡ (ok (record { states = advanced c state ∷ rest; user_record = user }), w'))
  group_cipher_encrypt_sent codec well loads m w' e =
      let sent = group_cipher_encrypt-IsSent loads m w' e in
      let signed = IsSent-IsSigned codec m w' sent in
      (
        ap (λ (x : SenderKeyMessage). x.key_id) signed.whole,
        ap (λ (x : SenderKeyMessage). x.iteration) signed.whole,
        sent.encrypted ∙ ap ok (sym (ap (λ (x : SenderKeyMessage). x.ciphertext) signed.whole)),
        subst
            (Loads c cipher.sender_key_id
              (sender_record c cipher.sender_key_id state rest user plaintext w (advanced c state)))
            (sym sent.left)
            (load-saved c laws cipher.sender_key_id _ _
              (advanced-IsWellFormed c state well.0, well.1)),
      )
