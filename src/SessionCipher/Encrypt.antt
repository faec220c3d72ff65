-- ===== src/SessionCipher/Encrypt.antt =====
-- The message that a state encrypts.
use rn_signal_protocol_messa.Base.{
  ℕ, ◌%◌, ◌≡◌, ◌∙◌, refl, sym, Bool, true, false, Option, some, none, inl, inr, arith, Bool-cases,
  leb,
}
use rn_signal_protocol_messa.Status.{ok, Result-cases, ok_injective}
use rn_signal_protocol_messa.Crypto.{
  Buffer, Provider, Codec, HasMac, HasCipher, aes_ctr_nopadding, aes_cbc_pkcs5,
}
use rn_signal_protocol_messa.Curve.{PublicKey, KeyPair}
use rn_signal_protocol_messa.Ratchet.{RatchetChainKey, RatchetMessageKeys}
use rn_signal_protocol_messa.Ratchet.Keys.{IsVersion, message_keys_of, get_message_keys_lem}
use rn_signal_protocol_messa.SessionState.{
  SessionState, session_state_get_sender_ratchet_key_pair, session_state_get_sender_chain_key,
  session_state_get_sender_ratchet_key, session_state_has_sender_chain,
}
use rn_signal_protocol_messa.SignalMessage.{SignalMessageStructure, SignalMessage}
use rn_signal_protocol_messa.SignalMessage.RoundTrip.{
  IsSupported, IsSignalCodec, created, create_lem,
}
use rn_signal_protocol_messa.SessionCipher.{
  session_cipher_get_ciphertext, session_cipher_get_plaintext, encrypt_with_state, counter_iv,
}

pub get_plaintext-get_ciphertext :
    (p : Provider) (version : ℕ) (keys : RatchetMessageKeys) (plaintext ciphertext : Buffer)
    → HasCipher p
    → session_cipher_get_ciphertext p version keys plaintext ≡ ok ciphertext
    → session_cipher_get_plaintext p version keys ciphertext ≡ ok plaintext
unfolding session_cipher_get_ciphertext session_cipher_get_plaintext
get_plaintext-get_ciphertext p version keys plaintext ciphertext good e =
    elim (Bool-cases (leb 3 version)) [
      | inl new ↦
          rw new
            (good.inverse aes_cbc_pkcs5 keys.cipher_key keys.iv plaintext ciphertext (rw new at e))
      | inr old ↦ rw old (
          good.inverse aes_ctr_nopadding keys.cipher_key (counter_iv keys.counter) plaintext
            ciphertext (rw old at e))
    ]

pub has_sender_chain_lem :
    (state : SessionState) (chain_key : RatchetChainKey)
    → session_state_get_sender_chain_key state ≡ some chain_key
    → session_state_has_sender_chain state ≡ true
unfolding session_state_get_sender_chain_key session_state_has_sender_chain
has_sender_chain_lem state chain_key e =
    elim state.sender_chain
        as (λ c.
          elim c as (λ _. Option RatchetChainKey) [ some x ↦ x.chain_key | none ↦ none ]
            ≡ some chain_key
          → elim c as (λ _. Bool) [ some _ ↦ true | none ↦ false ] ≡ true) [
            | some x ↦ λ _. refl
            | none ↦ λ h. cc
          ]
      e

ratchet_key_of :
    (state : SessionState) (pair : KeyPair)
    → session_state_get_sender_ratchet_key_pair state ≡ some pair
    → session_state_get_sender_ratchet_key state ≡ some pair.public_key
unfolding session_state_get_sender_ratchet_key
ratchet_key_of state pair e = rw (e, session_state_get_sender_ratchet_key)

-- The two identities that a state needs.
pub record HasIdentities (state : SessionState) (ours theirs : PublicKey) : Type 0 where
  pub ours_is : state.local_identity_public ≡ some ours
  pub theirs_is : state.remote_identity_public ≡ some theirs

module _ (p : Provider) (codec : Codec SignalMessageStructure) where
  -- The message that is created with a chain key.
  abbrev pub written :
      SessionState
      → RatchetChainKey
      → (key ours theirs : PublicKey) → (ciphertext : Buffer) → SignalMessage
  written state chain_key key ours theirs ciphertext =
      created p codec state.session_version (message_keys_of p chain_key).mac_key key
        chain_key.index state.previous_counter ciphertext ours theirs

module _ (p : Provider) (h : HasMac p) (codec : Codec SignalMessageStructure)
    (good : IsSignalCodec codec) where
  pub encrypt_with_state_made :
      (sender : SessionState) (chain_key : RatchetChainKey) (pair : KeyPair)
      (ours theirs : PublicKey) (plaintext ciphertext : Buffer)
      → session_state_get_sender_chain_key sender ≡ some chain_key
      → session_state_get_sender_ratchet_key_pair sender ≡ some pair
      → HasIdentities sender ours theirs
      → IsVersion chain_key.kdf
      → IsSupported sender.session_version
      → session_cipher_get_ciphertext p sender.session_version
          (message_keys_of p chain_key)
          plaintext
        ≡ ok ciphertext
      → encrypt_with_state p codec sender plaintext
        ≡ ok (written p codec sender chain_key pair.public_key ours theirs ciphertext)
  unfolding encrypt_with_state
  encrypt_with_state_made sender chain_key pair ours theirs plaintext ciphertext has_chain has_pair
        ids v s made =
      let version = sender.session_version in
      let byte : version % 256 ≡ version = omega (arith, s.1) in
      simp
        (
          has_chain,
          get_message_keys_lem p h chain_key v,
          ratchet_key_of sender pair has_pair,
          made,
          ids.ours_is,
          ids.theirs_is,
          byte,
        )
        (create_lem p h codec good version s (message_keys_of p chain_key).mac_key pair.public_key
          chain_key.index sender.previous_counter ciphertext ours theirs)

  -- A message that was encrypted, from the fields of the state.
  pub encrypt_with_state_lem :
      (sender : SessionState) (chain_key : RatchetChainKey) (pair : KeyPair)
      (ours theirs : PublicKey) (plaintext : Buffer) (m : SignalMessage)
      → session_state_get_sender_chain_key sender ≡ some chain_key
      → session_state_get_sender_ratchet_key_pair sender ≡ some pair
      → HasIdentities sender ours theirs
      → IsVersion chain_key.kdf
      → IsSupported sender.session_version
      → encrypt_with_state p codec sender plaintext ≡ ok m
      → (ciphertext : Buffer) × (session_cipher_get_ciphertext p sender.session_version
            (message_keys_of p chain_key)
            plaintext
          ≡ ok ciphertext)
        × (m ≡ written p codec sender chain_key pair.public_key ours theirs ciphertext)
  unfolding encrypt_with_state
  encrypt_with_state_lem sender chain_key pair ours theirs plaintext m has_chain has_pair ids v s
        e =
      elim (Result-cases (
        session_cipher_get_ciphertext p sender.session_version (message_keys_of p chain_key)
          plaintext)) [
            | inr (d, bad) ↦ cc (
                simp
                  (
                    has_chain,
                    get_message_keys_lem p h chain_key v,
                    ratchet_key_of sender pair has_pair,
                    bad,
                  )
                  at e)
            | inl (ciphertext, made) ↦ (
              ciphertext,
              made,
              sym (
                  ok_injective (
                    sym (
                      encrypt_with_state_made sender chain_key pair ours theirs plaintext ciphertext
                        has_chain has_pair ids v s made)
                    ∙ e)),
            )
          ]
