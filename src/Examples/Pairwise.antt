-- ===== src/Examples/Pairwise.antt =====
-- Two ends of a session, and runs of the session's definitions on them.
use rn_signal_protocol_messa.Base.{◌≡◌, refl, some, none, [], ◌∷◌, ◌++◌, replicate, length, arith}
use rn_signal_protocol_messa.Status.{ok}
use rn_signal_protocol_messa.Action.{◌>>=◌}
use rn_signal_protocol_messa.Crypto.{Buffer}
use rn_signal_protocol_messa.Curve.{
  PublicKey, KeyPair, curve_generate_public_key, curve_generate_key_pair, curve_calculate_agreement,
}
use rn_signal_protocol_messa.Curve.Agreement.{IsPair}
use rn_signal_protocol_messa.Hkdf.Output.{version_three}
use rn_signal_protocol_messa.Ratchet.{RatchetRootKey, RatchetChainKey}
use rn_signal_protocol_messa.Ratchet.Keys.{
  chain_of, chain_of-IsVersion, create_chain_lem, message_keys_of, IsVersion,
}
use rn_signal_protocol_messa.SessionState.{
  SessionState, SenderChain, session_state_get_sender_ratchet_key_pair,
  session_state_get_sender_chain_key,
}
use rn_signal_protocol_messa.SessionState.Chains.{session_state_find_receiver_chain, find_chain}
use rn_signal_protocol_messa.SessionState.Ahead.{IsAhead, chain_after}
use rn_signal_protocol_messa.SignalMessage.{SignalMessage, signal_message_deserialize}
use rn_signal_protocol_messa.SignalMessage.RoundTrip.{IsSignalCodec, deserialize_lem}
use rn_signal_protocol_messa.SessionCipher.{
  encrypt_with_state, session_cipher_get_ciphertext,
  session_cipher_decrypt_from_state_and_signal_message,
}
use rn_signal_protocol_messa.SessionCipher.Encrypt.{written, encrypt_with_state_made}
use rn_signal_protocol_messa.Examples.Trivial.{trivial}
use rn_signal_protocol_messa.Examples.Exchange.{
  exchange, exchange-HasMac, add, exchange-HasAgreement, exchange-HasCipher,
}
use rn_signal_protocol_messa.Examples.Format.{codec, codec-IsCodec}
use rn_signal_protocol_messa.Examples.SessionFormat.{signal_format}
use rn_signal_protocol_messa.SessionCipher.EndToEnd.{decrypt_from_state-encrypt}

abbrev pub of_scalar : Buffer → KeyPair
of_scalar scalar = record {
  public_key = record { point = add 32 scalar (9 ∷ replicate 31 0) };
  private_key = record { scalar = scalar };
}

pub of_scalar-IsPair : (scalar : Buffer) → IsPair exchange (of_scalar scalar)
unfolding curve_generate_public_key exchange
of_scalar-IsPair scalar = refl

abbrev pub sending : KeyPair
sending = of_scalar (replicate 32 1)

abbrev pub receiving : KeyPair
receiving = of_scalar (replicate 32 2)

abbrev pub alice_identity : PublicKey
alice_identity = (of_scalar (replicate 32 3)).public_key

abbrev pub bob_identity : PublicKey
bob_identity = (of_scalar (replicate 32 4)).public_key

abbrev pub before : RatchetRootKey
before = record { kdf = version_three; key = replicate 32 1 }

abbrev pub shared : Buffer
shared = add 32 receiving.private_key.scalar sending.public_key.point

pub shared_agreed :
    curve_calculate_agreement exchange (some sending.public_key) (some receiving.private_key)
    ≡ ok shared
unfolding curve_calculate_agreement exchange
shared_agreed = refl

abbrev pub root : RatchetRootKey
root = (chain_of exchange before shared).0

abbrev pub first : RatchetChainKey
first = (chain_of exchange before shared).1

abbrev pub blank : SessionState
blank = record {
  session_version = 3;
  local_identity_public = none;
  remote_identity_public = none;
  root_key = none;
  previous_counter = 0;
  sender_chain = none;
  receiver_chains = [];
  pending_key_exchange = none;
  pending_pre_key = none;
  remote_registration_id = 0;
  local_registration_id = 0;
  needs_refresh = 0;
  alice_base_key = none;
}

abbrev chain_of_pair : KeyPair → RatchetChainKey → SenderChain
chain_of_pair pair chain_key = record {
  sender_ratchet_key_pair = some pair;
  chain_key = some chain_key;
}

-- Two messages were sent before.
abbrev pub sender : SessionState
sender = record blank {
  local_identity_public = some alice_identity;
  remote_identity_public = some bob_identity;
  root_key = some root;
  sender_chain = some (chain_of_pair sending (chain_after exchange 2 first));
}

abbrev pub their_chain : RatchetChainKey
their_chain = record { kdf = version_three; key = replicate 32 5; index = 4 }

abbrev pub receiver : SessionState
receiver = record blank {
  local_identity_public = some bob_identity;
  remote_identity_public = some alice_identity;
  root_key = some before;
  sender_chain = some (chain_of_pair receiving their_chain);
}

unfoldable pub sender_ahead : IsAhead exchange sender receiver
unfolding session_state_get_sender_ratchet_key_pair session_state_get_sender_chain_key
sender_ahead = record {
  pair = sending;
  their_pair = receiving;
  root = root;
  their_root = before;
  first = first;
  sent = 2;
  has_pair = refl;
  has_chain = refl;
  their_chain = their_chain;
  has_their_chain = refl;
  version = (chain_of-IsVersion exchange before shared (omega arith)).0;
  first_version = (chain_of-IsVersion exchange before shared (omega arith)).1;
  has_root = refl;
  has_their_pair = refl;
  has_their_root = refl;
  derives =
      create_chain_lem exchange exchange-HasMac before sending.public_key receiving.private_key
        shared (omega arith) shared_agreed;
  sound = of_scalar-IsPair (replicate 32 1);
}

pub signal_codec : IsSignalCodec (codec signal_format)
signal_codec = record { laws = codec-IsCodec signal_format; filled = λ s key h. rw h (omega arith) }

-- The sixth request of the random source.
abbrev pub fresh : KeyPair
fresh = of_scalar (0 ∷ (replicate 30 5 ++ (69 ∷ [])))

pub fresh_made : curve_generate_key_pair exchange 5 ≡ (ok fresh, 6)
unfolding curve_generate_key_pair ◌>>=◌ exchange trivial
fresh_made = refl

abbrev pub secret : Buffer
secret = add 32 fresh.private_key.scalar sending.public_key.point

pub secret_agreed :
    curve_calculate_agreement exchange (some sending.public_key) (some fresh.private_key)
    ≡ ok secret
unfolding curve_calculate_agreement exchange
secret_agreed = refl

pub first_index : first.index ≡ 0
unfolding chain_of
first_index = refl

pub not_known : session_state_find_receiver_chain receiver sending.public_key ≡ none
unfolding session_state_find_receiver_chain find_chain
not_known = refl

abbrev pub text : Buffer
text = 7 ∷ 8 ∷ []

abbrev pub third : RatchetChainKey
third = chain_after exchange 2 first

abbrev pub message : SignalMessage
message =
    written exchange (codec signal_format) sender third sending.public_key alice_identity
      bob_identity text

text_encrypted :
    session_cipher_get_ciphertext exchange 3 (message_keys_of exchange third) text ≡ ok text
unfolding session_cipher_get_ciphertext exchange trivial
text_encrypted = refl

third-IsVersion : IsVersion third.kdf
unfolding chain_after chain_of
third-IsVersion = omega arith

pub message_encrypted : encrypt_with_state exchange (codec signal_format) sender text ≡ ok message
unfolding session_state_get_sender_ratchet_key_pair session_state_get_sender_chain_key
message_encrypted =
    encrypt_with_state_made exchange exchange-HasMac (codec signal_format) signal_codec sender third
      sending alice_identity bob_identity text text refl refl
      (record { ours_is = refl; theirs_is = refl }) third-IsVersion (omega arith, omega arith)
      text_encrypted

-- The receiver reads the message, and keeps a state.
pub message_read :
    (receiver' : SessionState) × (session_cipher_decrypt_from_state_and_signal_message exchange
        receiver message 5
      ≡ (ok (text, receiver'), 6))
unfolding sender_ahead
message_read =
    let (receiver', run, _, _) =
      decrypt_from_state-encrypt exchange exchange-HasMac (codec signal_format) signal_codec
        exchange-HasAgreement exchange-HasCipher sender receiver sender_ahead 5 6 fresh secret
        not_known fresh_made secret_agreed (omega arith) (omega (arith, first_index)) alice_identity
        bob_identity (record { ours_is = refl; theirs_is = refl })
        (record { ours_is = refl; theirs_is = refl }) (omega arith, omega arith) refl text message
        message_encrypted in
    (receiver', run)

-- Keys of the examples have 32 bytes.
pub points : (scalar : Buffer) → length (add 32 scalar (9 ∷ replicate 31 0)) ≡ 32
unfolding add
points scalar = refl

pub message_readable :
    signal_message_deserialize (codec signal_format) message.serialized ≡ ok message
message_readable =
    deserialize_lem exchange exchange-HasMac (codec signal_format) signal_codec 3
      (omega arith, omega arith) (message_keys_of exchange third).mac_key sending.public_key
      third.index 0 text alice_identity bob_identity (points (replicate 32 1))
