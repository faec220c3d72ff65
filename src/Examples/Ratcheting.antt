-- ===== src/Examples/Ratcheting.antt =====
-- The session's theorems at the two ends of the examples.
use rn_signal_protocol_messa.Base.{◌≡◌, refl, some, arith}
use rn_signal_protocol_messa.Status.{ok}
use rn_signal_protocol_messa.SessionState.{SessionState}
use rn_signal_protocol_messa.SessionState.Chains.{session_state_get_receiver_chain_key}
use rn_signal_protocol_messa.SessionState.Ahead.{IsAhead, chain_after}
use rn_signal_protocol_messa.SessionChain.{session_cipher_get_or_create_chain_key}
use rn_signal_protocol_messa.SessionChain.Step.{get_or_create_chain_key-IsAhead}
use rn_signal_protocol_messa.SessionCipher.{session_cipher_decrypt_from_state_and_signal_message}
use rn_signal_protocol_messa.SessionCipher.EndToEnd.{decrypt_from_state-encrypt}
use rn_signal_protocol_messa.Examples.Exchange.{
  exchange, exchange-HasMac, exchange-HasCipher, exchange-HasAgreement,
}
use rn_signal_protocol_messa.Examples.Format.{codec}
use rn_signal_protocol_messa.Examples.SessionFormat.{signal_format}
use rn_signal_protocol_messa.Examples.Pairwise.{
  sending, alice_identity, bob_identity, first, sender, receiver, sender_ahead, signal_codec, fresh,
  fresh_made, secret, secret_agreed, first_index, not_known, text, message, message_encrypted,
}

decrypt_from_state-encrypt_example :
    (receiver' : SessionState) × (session_cipher_decrypt_from_state_and_signal_message exchange
        receiver message 5
      ≡ (ok (text, receiver'), 6))
    × IsAhead exchange receiver' sender
    × (session_state_get_receiver_chain_key receiver' sending.public_key
        ≡ some (chain_after exchange 3 first))
unfolding sender_ahead
decrypt_from_state-encrypt_example =
    decrypt_from_state-encrypt exchange exchange-HasMac (codec signal_format) signal_codec
      exchange-HasAgreement exchange-HasCipher sender receiver sender_ahead 5 6 fresh secret
      not_known fresh_made secret_agreed (omega arith) (omega (arith, first_index)) alice_identity
      bob_identity (record { ours_is = refl; theirs_is = refl })
      (record { ours_is = refl; theirs_is = refl }) (omega arith, omega arith) refl text message
      message_encrypted

get_or_create_chain_key-IsAhead_example :
    (receiver' : SessionState) × (session_cipher_get_or_create_chain_key exchange receiver
        sending.public_key 5
      ≡ (ok (first, receiver'), 6))
    × IsAhead exchange receiver' sender
    × (session_state_get_receiver_chain_key receiver' sending.public_key ≡ some first)
    × (receiver'.previous_counter ≡ 3)
unfolding sender_ahead
get_or_create_chain_key-IsAhead_example =
    get_or_create_chain_key-IsAhead exchange exchange-HasMac exchange-HasAgreement sender receiver
      sender_ahead 5 6 fresh secret not_known fresh_made secret_agreed
