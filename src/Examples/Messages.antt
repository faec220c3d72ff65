-- ===== src/Examples/Messages.antt =====
-- The messages of a session, written and read in the byte format of the examples.
use rn_signal_protocol_messa.Base.{
  ◌≡◌, ◌↔◌, refl, Bool, true, some, replicate, take, drop, length, arith, ◌-◌,
}
use rn_signal_protocol_messa.Status.{ok}
use rn_signal_protocol_messa.SignalMessage.{
  SignalMessage, signal_message_create, signal_message_deserialize, signal_message_verify_mac,
}
use rn_signal_protocol_messa.SignalMessage.RoundTrip.{
  mac_of, verify_mac-exact, verify_mac-deserialize-create,
}
use rn_signal_protocol_messa.PreKeyMessage.{
  PreKeySignalMessage, pre_key_signal_message_create, pre_key_signal_message_deserialize,
}
use rn_signal_protocol_messa.PreKeyMessage.RoundTrip.{IsPreKeyCodec, pre_key_deserialize-create}
use rn_signal_protocol_messa.Examples.Exchange.{exchange, exchange-HasMac}
use rn_signal_protocol_messa.Examples.Format.{codec, codec-IsCodec}
use rn_signal_protocol_messa.Examples.SessionFormat.{signal_format, pre_key_message_format}
use rn_signal_protocol_messa.Examples.Pairwise.{
  sending, alice_identity, bob_identity, signal_codec, text, message, message_readable, points,
}

verify_mac-deserialize-create_example :
    (m : SignalMessage) × (signal_message_create exchange
        (codec signal_format)
        3
        (replicate 32 2)
        sending.public_key
        4
        1
        text
        (some alice_identity)
        (some bob_identity)
      ≡ ok m)
    × (m ≡ record {
      message_version = 3;
      sender_ratchet_key = sending.public_key;
      counter = 4;
      previous_counter = 1;
      ciphertext = text;
      serialized = m.serialized;
    })
    × (signal_message_deserialize (codec signal_format) m.serialized ≡ ok m)
    × (signal_message_verify_mac exchange m
          (some alice_identity)
          (some bob_identity)
          (replicate 32 2)
        ≡ ok true)
verify_mac-deserialize-create_example =
    verify_mac-deserialize-create exchange exchange-HasMac (codec signal_format) signal_codec 3
      (omega arith, omega arith) (replicate 32 2) sending.public_key 4 1 text alice_identity
      bob_identity (points (replicate 32 1))

verify_mac-exact_example :
    (b : Bool) × (signal_message_verify_mac exchange message
        (some alice_identity)
        (some bob_identity)
        (replicate 32 2)
      ≡ ok b)
    × ((b ≡ true) ↔ (
        mac_of exchange 3 alice_identity bob_identity
          (replicate 32 2)
          (take (length message.serialized - 8) message.serialized)
        ≡ drop (length message.serialized - 8) message.serialized))
verify_mac-exact_example =
    verify_mac-exact exchange exchange-HasMac message alice_identity bob_identity (replicate 32 2)

pre_key_codec : IsPreKeyCodec (codec pre_key_message_format)
pre_key_codec = record {
  laws = codec-IsCodec pre_key_message_format;
  filled = λ s key h. rw h (omega arith);
}

pre_key_deserialize-create_example :
    (m : PreKeySignalMessage) × (pre_key_signal_message_create
        (codec pre_key_message_format)
        3
        11
        (some 4)
        5
        sending.public_key
        alice_identity
        message
      ≡ ok m)
    × (pre_key_signal_message_deserialize
          (codec pre_key_message_format)
          (codec signal_format)
          m.serialized
        ≡ ok m)
    × (m ≡ record {
      version = 3;
      registration_id = 11;
      pre_key_id = some 4;
      signed_pre_key_id = 5;
      base_key = sending.public_key;
      identity_key = alice_identity;
      message = message;
      serialized = m.serialized;
    })
pre_key_deserialize-create_example =
    pre_key_deserialize-create (codec pre_key_message_format) pre_key_codec (codec signal_format) 11
      (some 4) 5 sending.public_key alice_identity message (points (replicate 32 1))
      (points (replicate 32 3)) refl message_readable
