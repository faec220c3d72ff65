-- ===== src/SessionCipher/EndToEnd.antt =====
-- A message of one end of a session, decrypted by the other end.
use rn_signal_protocol_messa.Base.{
  ℕ, suc, ◌+◌, ◌^◌, ◌≤◌, ◌<◌, ◌≡◌, ◌∙◌, sym, ap, subst, some, none, arith, eq→==,
}
use rn_signal_protocol_messa.Status.{ok}
use rn_signal_protocol_messa.Action.{◌>>=◌}
use rn_signal_protocol_messa.Crypto.{Buffer, Provider, Codec, HasMac, HasCipher}
use rn_signal_protocol_messa.Curve.{
  PublicKey, KeyPair, curve_generate_key_pair, curve_calculate_agreement,
}
use rn_signal_protocol_messa.Ratchet.{RatchetChainKey}
use rn_signal_protocol_messa.Ratchet.Keys.{IsVersion, message_keys_of, chain_of}
use rn_signal_protocol_messa.SessionState.{
  SessionState, session_state_clear_unacknowledged_pre_key_message, session_state_set_sender_chain,
  session_state_set_root_key,
}
use rn_signal_protocol_messa.SignalMessage.{SignalMessageStructure, SignalMessage}
use rn_signal_protocol_messa.SignalMessage.RoundTrip.{IsSupported, IsSignalCodec, verify_created}
use rn_signal_protocol_messa.SessionCipher.{
  session_cipher_get_ciphertext, encrypt_with_state,
  session_cipher_decrypt_from_state_and_signal_message,
}
use rn_signal_protocol_messa.Curve.Agreement.{HasAgreement, generate_key_pair-IsPair}
use rn_signal_protocol_messa.SessionState.Chains.{
  session_state_find_receiver_chain, session_state_get_receiver_chain_key,
  session_state_add_receiver_chain,
}
use rn_signal_protocol_messa.SessionState.Ahead.{
  IsAhead, chain_after, kdf_of_chain_after, index_of_chain_after, IsAhead_chains,
}
use rn_signal_protocol_messa.SessionState.Bounded.{new_chain, find_receiver_chain-add}
use rn_signal_protocol_messa.SessionChain.Step.{stepped, stepped_lem, stepped-IsAhead}
use rn_signal_protocol_messa.SessionSkip.{max_future, session_cipher_get_or_create_message_keys}
use rn_signal_protocol_messa.SessionSkip.Ahead.{get_or_create_message_keys_ahead}
use rn_signal_protocol_messa.SessionCipher.Encrypt.{
  HasIdentities, written, encrypt_with_state_lem, get_plaintext-get_ciphertext,
  has_sender_chain_lem,
}

module _ (p : Provider) (h : HasMac p) (codec : Codec SignalMessageStructure)
    (good : IsSignalCodec codec) (agreement : HasAgreement p) (ciphers : HasCipher p)
    (sender receiver : SessionState) (ahead : IsAhead p sender receiver) (n n' : ℕ)
    (fresh : KeyPair) (secret : Buffer)
    (new : session_state_find_receiver_chain receiver ahead.pair.public_key ≡ none)
    (made : curve_generate_key_pair p n ≡ (ok fresh, n'))
    (agreed : curve_calculate_agreement p (some ahead.pair.public_key) (some fresh.private_key)
      ≡ ok secret)
    (near : ahead.sent ≤ max_future) (fits : ahead.first.index + ahead.sent < 2 ^ 32)
    (ours theirs : PublicKey) (ids : HasIdentities sender ours theirs)
    (their_ids : HasIdentities receiver theirs ours)
    (supported : IsSupported sender.session_version)
    (same : sender.session_version ≡ receiver.session_version) where
  abbrev last : RatchetChainKey
  last = chain_after p ahead.sent ahead.first

  last-IsVersion : IsVersion last.kdf
  last-IsVersion =
      subst IsVersion (sym (kdf_of_chain_after p ahead.sent ahead.first)) ahead.first_version

  abbrev next : SessionState
  next =
      stepped receiver ahead.pair.public_key ahead.first ahead.their_chain fresh
        (chain_of p ahead.root secret)

  next_found :
      session_state_find_receiver_chain next ahead.pair.public_key
      ≡ some (new_chain ahead.pair.public_key ahead.first)
  unfolding session_state_find_receiver_chain session_state_set_sender_chain
      session_state_add_receiver_chain
  next_found =
      find_receiver_chain-add (session_state_set_root_key receiver (chain_of p ahead.root secret).0)
        ahead.pair.public_key ahead.first new

  next_ids : HasIdentities next theirs ours
  unfolding session_state_set_sender_chain session_state_add_receiver_chain
  next_ids = record { ours_is = their_ids.ours_is; theirs_is = their_ids.theirs_is }

  -- What the receiver's call leaves, for a message of the sender's chain key.
  decrypt_written :
      (plaintext ciphertext : Buffer)
      → session_cipher_get_ciphertext p sender.session_version (message_keys_of p last) plaintext
        ≡ ok ciphertext
      → (receiver' : SessionState) × (session_cipher_decrypt_from_state_and_signal_message p
            receiver
            (written p codec sender last ahead.pair.public_key ours theirs ciphertext)
            n
          ≡ (ok (plaintext, receiver'), n'))
        × IsAhead p receiver' sender
        × (session_state_get_receiver_chain_key receiver' ahead.pair.public_key
            ≡ some (chain_after p (suc ahead.sent) ahead.first))
  unfolding session_cipher_decrypt_from_state_and_signal_message ◌>>=◌
      session_state_clear_unacknowledged_pre_key_message session_state_get_receiver_chain_key
      session_state_find_receiver_chain
  decrypt_written plaintext ciphertext encrypted =
      let key = ahead.pair.public_key in
      let chain = new_chain key ahead.first in
      let (with_keys, taken, found, _, _, _, rest) =
        get_or_create_message_keys_ahead p h key next chain ahead.first ahead.sent next_found
          (omega arith) ahead.first_version near fits in
      let taken_here =
        ap (session_cipher_get_or_create_message_keys p key next ahead.first)
          (index_of_chain_after p ahead.sent ahead.first fits)
        ∙ taken in
      let local = ap (λ (s : SessionState). s.local_identity_public) rest ∙ next_ids.ours_is in
      let remote = ap (λ (s : SessionState). s.remote_identity_public) rest ∙ next_ids.theirs_is in
      (
        session_state_clear_unacknowledged_pre_key_message with_keys,
        simp (
          session_cipher_decrypt_from_state_and_signal_message,
          has_sender_chain_lem receiver ahead.their_chain ahead.has_their_chain,
          eq→== sender.session_version receiver.session_version same,
          stepped_lem p h agreement sender receiver ahead n n' fresh secret new made agreed,
          taken_here,
          local,
          remote,
          verify_created p h codec good sender.session_version supported
              (message_keys_of p last).mac_key key last.index sender.previous_counter ciphertext
              ours theirs,
          get_plaintext-get_ciphertext p sender.session_version (message_keys_of p last) plaintext
              ciphertext ciphers encrypted,
        ),
        subst (λ s. IsAhead p (session_state_clear_unacknowledged_pre_key_message s) sender)
            (sym rest)
            (IsAhead_chains p next sender _ (
              stepped-IsAhead p h agreement sender receiver ahead fresh secret
                (generate_key_pair-IsPair p n n' fresh made) agreed)),
        rw (found, session_state_get_receiver_chain_key),
      )

  -- The sender is ahead of the receiver, which does not know the sender's ratchet key, and has
  -- sent at most 2000 messages on its chain. Both states have version 2 or 3 and each the other's
  -- identity; the MAC never fails, the cipher and the agreement invert and commute, and the codec
  -- fills at least one byte. Where the receiver can make a key pair that agrees with the sender's
  -- ratchet key, it decrypts the sender's next message to the plaintext. Its chain is then one
  -- step past the message, and it is ahead of the sender in turn.
  pub decrypt_from_state-encrypt :
      (plaintext : Buffer) (m : SignalMessage)
      → encrypt_with_state p codec sender plaintext ≡ ok m
      → (receiver' : SessionState) × (session_cipher_decrypt_from_state_and_signal_message p
            receiver m n
          ≡ (ok (plaintext, receiver'), n'))
        × IsAhead p receiver' sender
        × (session_state_get_receiver_chain_key receiver' ahead.pair.public_key
            ≡ some (chain_after p (suc ahead.sent) ahead.first))
  decrypt_from_state-encrypt plaintext m e =
      let (ciphertext, encrypted, whole) =
        encrypt_with_state_lem p h codec good sender last ahead.pair ours theirs plaintext m
          ahead.has_chain ahead.has_pair ids last-IsVersion supported e in
      let (receiver', run, turned, chain) = decrypt_written plaintext ciphertext encrypted in
      (
        receiver',
        ap (λ w. session_cipher_decrypt_from_state_and_signal_message p receiver w n) whole ∙ run,
        turned,
        chain,
      )
