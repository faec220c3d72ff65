-- ===== src/GroupCipher/EndToEnd.antt =====
-- What one member of a group encrypts, another decrypts, and only once.
use rn_signal_protocol_messa.Base.{
  ℕ, ◌≡◌, ◌∙◌, refl, ap, subst, none, some, true, false, List, ◌∷◌, Option, ◌⊎◌, inl, inr, ◌+◌, ◌-◌,
  ◌^◌, ◌≤◌, ◌<◌, arith, [],
}
use rn_signal_protocol_messa.Status.{ok}
use rn_signal_protocol_messa.Action.{lift, ◌>>=◌}
use rn_signal_protocol_messa.Crypto.{Buffer, Provider, HasCipher, aes_cbc_pkcs5, mac}
use rn_signal_protocol_messa.Curve.{KeyPair, HasSignature}
use rn_signal_protocol_messa.SenderKey.Chain.{message_key_of, message_key_at}
use rn_signal_protocol_messa.KeyState.{SenderKeyState, holds}
use rn_signal_protocol_messa.KeyRecord.{
  SenderKeyRecord, set_by_id, sender_key_record_get_sender_key_state_by_id,
}
use rn_signal_protocol_messa.GroupMessage.{SenderKeyMessage, sender_key_message_deserialize}
use rn_signal_protocol_messa.GroupMessage.RoundTrip.{
  IsMessageCodec, deserialize_signed, verify_signed,
}
use rn_signal_protocol_messa.GroupRatchet.{max_future, group_cipher_get_sender_key}
use rn_signal_protocol_messa.GroupRatchet.Synced.{key_at, chain_at, IsSynced}
use rn_signal_protocol_messa.GroupRatchet.Behind.{get_sender_key_held}
use rn_signal_protocol_messa.GroupRatchet.Ahead.{get_sender_key_ahead}
use rn_signal_protocol_messa.Store.{Context, World}
use rn_signal_protocol_messa.Store.Laws.{IsContext, saved}
use rn_signal_protocol_messa.GroupCipher.{GroupCipher, group_cipher_encrypt, group_cipher_decrypt}
use rn_signal_protocol_messa.GroupCipher.Encrypt.{
  Loads, current_key, group_cipher_encrypt-IsSent, IsSent-IsSigned,
}
use rn_signal_protocol_messa.GroupCipher.Decrypt.{IsReceived, decrypt_lem}

-- The sender's own state: its chain is at step `n`, and it holds the private half.
pub record IsSender (p : Provider) (pair : KeyPair) (base : ℕ) (first : Buffer) (n : ℕ)
    (state : SenderKeyState) : Type 0 where
  pub chain : state.chain_key ≡ chain_at p base first n
  pub half : state.signature_private_key ≡ some pair.private_key

-- A receiver's record of the same sender: the state of the id follows the chain, and holds the
-- public half.
pub record IsReceiver (p : Provider) (pair : KeyPair) (base : ℕ) (first : Buffer) (n id : ℕ)
    (r : SenderKeyRecord) (state : SenderKeyState) : Type 0 where
  pub found : sender_key_record_get_sender_key_state_by_id r id ≡ ok state
  pub half : state.signature_public_key ≡ pair.public_key
  pub synced : IsSynced p base first n state

module _ {S : Type 0} (c : Context S) (laws : IsContext c) where
  module _ (base : ℕ) (first : Buffer) where
    -- A message that the state can still yield the key of: at most 2000 iterations ahead of the
    -- chain, or skipped and still held.
    abbrev pub IsDue : (n j : ℕ) → SenderKeyState → Type 0
    IsDue n j state =
        ((n ≤ j) × (j ≤ n + max_future)) ⊎ ((j < n) × (holds state.message_keys (base + j) ≡ true))

    due_key :
        (n j : ℕ) (state : SenderKeyState)
        → IsSynced c.provider base first n state
        → base + j + 1 < 2 ^ 32
        → IsDue n j state
        → (later : SenderKeyState) × (group_cipher_get_sender_key c.provider state (base + j)
            ≡ ok (key_at c.provider base first j, later))
    due_key n j state s fits (inl (after, near)) =
        let at : base + n + (j - n) ≡ base + j = omega arith in
        let step : n + (j - n) ≡ j = omega arith in
        (
          _,
          rw (at, step) at
              (get_sender_key_ahead c.provider laws.has_mac base first (j - n) n state s
                (omega arith) (omega arith)),
        )
    due_key n j state s fits (inr (before, held)) =
        let step : base + j - base ≡ j = omega arith in
        (
          _,
          rw step at
              (get_sender_key_held c.provider base first n (base + j) state s (omega arith) held).1,
        )

  -- For a store, codecs, a MAC, a cipher and signatures that do what is documented of them: let
  -- the sender's record have a first state with its chain at step `j`, below iteration 2^32 - 1,
  -- and the receiver's a state of the same id, with the public half of the signing key, that
  -- follows the same chain and can still yield the key of step `j`, because it is at most 2000
  -- steps ahead or was skipped and is held. Then the bytes of any message that
  -- group_cipher_encrypt returns are read and decrypted by the receiver to the sender's plaintext,
  -- and only the receiver's state of that id changes in the store.
  pub decrypt-encrypt :
      (codec : IsMessageCodec c.message_codec) (inverse : HasCipher c.provider) (pair : KeyPair)
      (signs : HasSignature c.provider pair) (base : ℕ) (first : Buffer) (j n : ℕ)
      (sender receiver : GroupCipher) (state : SenderKeyState) (rest : List SenderKeyState)
      (user : Option Buffer) (r : SenderKeyRecord) (held : SenderKeyState) (w v : World S)
      → Loads c sender.sender_key_id (record { states = state ∷ rest; user_record = user }) w
      → IsSender c.provider pair base first j state
      → Loads c receiver.sender_key_id r v
      → IsReceiver c.provider pair base first n state.key_id r held
      → receiver.inside_callback ≡ false
      → IsDue base first n j held
      → base + j + 1 < 2 ^ 32
      → (plaintext : Buffer) (m : SenderKeyMessage) (w' : World S)
      → group_cipher_encrypt c sender plaintext w ≡ (ok m, w')
      → (later : SenderKeyState) × ((lift
                (sender_key_message_deserialize c.message_codec m.serialized)
              >>= group_cipher_decrypt c receiver none)
            v
          ≡ (ok plaintext, saved c receiver.sender_key_id (set_by_id r state.key_id later) v))
  unfolding ◌>>=◌ message_key_at message_key_of
  decrypt-encrypt codec inverse pair signs base first j n sender receiver state rest user r held w v
        sends is_sender receives is_receiver free due fits plaintext m w' e =
      let sent =
        group_cipher_encrypt-IsSent c laws sender state rest user plaintext w sends m w' e in
      let signed = IsSent-IsSigned c laws sender state rest user plaintext w codec.laws m w' sent in
      let id_is : m.key_id ≡ state.key_id = ap (λ (x : SenderKeyMessage). x.key_id) signed.whole in
      let iteration_is : m.iteration ≡ base + j =
        ap (λ (x : SenderKeyMessage). x.iteration) signed.whole
        ∙ ap (λ k. k.iteration) is_sender.chain in
      let body_is : m.ciphertext ≡ sent.ciphertext =
        ap (λ (x : SenderKeyMessage). x.ciphertext) signed.whole in
      let key_is : pair.private_key ≡ sent.key = cc (is_sender.half, sent.has_key) in
      let verified =
        verify_signed c.provider c.message_codec codec.laws state.key_id state.chain_key.iteration
          sent.ciphertext sent.key m pair signs key_is signed in
      let (later, stepped) = due_key base first n j held is_receiver.synced fits due in
      let key : current_key c state ≡ key_at c.provider base first j =
        ap (λ k. message_key_of c.provider k.iteration (mac c.provider k.chain_key (1 ∷ [])))
          is_sender.chain in
      let encrypted =
        subst
          (λ k. c.provider.encrypt aes_cbc_pkcs5 k.cipher_key k.iv plaintext ≡ ok sent.ciphertext)
          key sent.encrypted in
      let decrypted =
        inverse.inverse aes_cbc_pkcs5 (key_at c.provider base first j).cipher_key
          (key_at c.provider base first j).iv plaintext sent.ciphertext encrypted in
      let received : IsReceived c receiver m r v plaintext
          (saved c receiver.sender_key_id (set_by_id r m.key_id later) v) =
        record {
          state = held;
          found = rw id_is is_receiver.found;
          verified = rw is_receiver.half verified;
          key = key_at c.provider base first j;
          later = later;
          stepped = rw iteration_is stepped;
          decrypted = rw body_is decrypted;
          left = refl;
        } in
      let read =
        deserialize_signed c.provider c.message_codec codec.laws state.key_id
          state.chain_key.iteration sent.ciphertext sent.key m
          (codec.filled state.key_id state.chain_key.iteration sent.ciphertext) signed in
      (
        later,
        rw read (
            decrypt_lem c receiver m r v laws free receives plaintext
              (saved c receiver.sender_key_id (set_by_id r m.key_id later) v) received
            ∙ ap (λ x. (ok plaintext, saved c receiver.sender_key_id (set_by_id r x later) v))
                id_is),
      )
