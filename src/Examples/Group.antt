-- ===== src/Examples/Group.antt =====
-- Runs of the group cipher: group_cipher.c.
use rn_signal_protocol_messa.Base.{◌≡◌, ◌≢◌, refl, none, [], length, replicate, arith, true}
use rn_signal_protocol_messa.Status.{
  ok, err, no_session, duplicate_message, invalid_key, invalid_key_id,
}
use rn_signal_protocol_messa.Action.{lift, ◌>>=◌}
use rn_signal_protocol_messa.KeyRecord.{
  SenderKeyRecord, set_by_id, sender_key_record_get_sender_key_state_by_id,
  sender_key_record_get_sender_key_state, sender_key_record_create, sender_key_record_is_empty,
}
use rn_signal_protocol_messa.KeyState.{SenderKeyState}
use rn_signal_protocol_messa.GroupMessage.{SenderKeyMessage, sender_key_message_deserialize}
use rn_signal_protocol_messa.Store.{
  World, signal_protocol_sender_key_load_key, signal_protocol_sender_key_store_key,
}
use rn_signal_protocol_messa.Store.Laws.{saved}
use rn_signal_protocol_messa.KeyRecord.RoundTrip.{IsWellFormed}
use rn_signal_protocol_messa.Crypto.{aes_cbc_pkcs5}
use rn_signal_protocol_messa.GroupCipher.{
  group_cipher_encrypt, group_cipher_decrypt, group_cipher_decrypt_callback,
}
use rn_signal_protocol_messa.GroupCipher.Encrypt.{current_key, advanced, group_cipher_encrypt_sent}
use rn_signal_protocol_messa.GroupCipher.EndToEnd.{decrypt-encrypt}
use rn_signal_protocol_messa.GroupCipher.Once.{decrypt_once, decrypt_keeps}
use rn_signal_protocol_messa.GroupCipher.Decrypt.{decrypt_authentic, signature_of, signed_part}
use rn_signal_protocol_messa.GroupCipher.Atomic.{
  group_cipher_encrypt_atomic, group_cipher_decrypt_atomic,
}
use rn_signal_protocol_messa.GroupCipher.Errors.{hides_key_errors}
use rn_signal_protocol_messa.Examples.Setting.{
  Map, context, context-IsContext, context-HasCipher, context-HasSignature, message_codec, pair,
  first_chain_key, sender_state, receiver_state, record_of, alice, alice_cipher, empty_world,
  sender_world, receiver_world, sender-Loads, receiver-Loads, alice-IsSender, bob-IsReceiver,
  receiver-IsSynced, sender-IsWellFormed, receiver-IsWellFormed, context-IsTransactional,
}
use rn_signal_protocol_messa.Examples.Run.{
  plaintext, message, encryption, encryption_lem, receiver-IsDue, delivered, decryption_lem,
  message_id, message_iteration,
}
use rn_signal_protocol_messa.SenderKey.{SenderMessageKey}
use rn_signal_protocol_messa.GroupRatchet.{group_cipher_get_sender_key}

decrypt-encrypt_example :
    (later : SenderKeyState) × ((lift
            (sender_key_message_deserialize context.message_codec message.serialized)
          >>= group_cipher_decrypt context alice_cipher none)
        receiver_world
      ≡ (
        ok plaintext,
        saved context alice (set_by_id (record_of receiver_state) 9 later) receiver_world,
      ))
decrypt-encrypt_example =
    decrypt-encrypt context context-IsContext message_codec context-HasCipher pair
      context-HasSignature 0 first_chain_key 0 0 alice_cipher alice_cipher sender_state [] none
      (record_of receiver_state) receiver_state sender_world receiver_world sender-Loads
      alice-IsSender receiver-Loads bob-IsReceiver refl receiver-IsDue (omega arith) plaintext
      message encryption.1 encryption_lem

abbrev after : World Map
after = saved context alice (set_by_id (record_of receiver_state) 9 delivered.0) receiver_world

message_found :
    sender_key_record_get_sender_key_state_by_id (record_of receiver_state) message.key_id
    ≡ ok receiver_state
message_found = rw message_id bob-IsReceiver.found

decrypt_once_example :
    group_cipher_decrypt context alice_cipher none message after ≡ (err duplicate_message, after)
decrypt_once_example =
    decrypt_once context context-IsContext alice_cipher message (record_of receiver_state)
      receiver_world receiver-IsWellFormed receiver-Loads 0 first_chain_key 0 receiver_state refl
      message_found receiver-IsSynced (omega (arith, message_iteration)) plaintext after
      decryption_lem

decrypt_keeps_example :
    (later : SenderKeyRecord) × (signal_protocol_sender_key_load_key context alice after
      ≡ (ok later, after))
    × IsWellFormed context.provider later
    × (length later.states ≡ 1)
decrypt_keeps_example =
    decrypt_keeps context context-IsContext alice_cipher message (record_of receiver_state)
      receiver_world receiver-IsWellFormed receiver-Loads plaintext after decryption_lem

group_cipher_encrypt_sent_example :
    (message.key_id ≡ 9)
    × (message.iteration ≡ 0)
    × (context.provider.encrypt aes_cbc_pkcs5
          (current_key context sender_state).cipher_key
          (current_key context sender_state).iv
          plaintext
        ≡ ok message.ciphertext)
    × (signal_protocol_sender_key_load_key context alice encryption.1
        ≡ (ok (record_of (advanced context sender_state)), encryption.1))
group_cipher_encrypt_sent_example =
    group_cipher_encrypt_sent context context-IsContext alice_cipher sender_state [] none plaintext
      sender_world message_codec.laws sender-IsWellFormed sender-Loads message encryption.1
      encryption_lem

-- Seventy zeros, the last of which are no signature.
abbrev forged : SenderKeyMessage
forged = record {
  message_version = 3;
  key_id = 9;
  iteration = 0;
  ciphertext = [];
  serialized = replicate 70 0;
}

decrypt_authentic_example :
    (state later : SenderKeyState) × (key : SenderMessageKey)
    × (sender_key_record_get_sender_key_state_by_id (record_of receiver_state) message.key_id
        ≡ ok state)
    × (context.provider.verify
          (signature_of message)
          state.signature_public_key.point
          (signed_part message)
        ≡ true)
    × (group_cipher_get_sender_key context.provider state message.iteration ≡ ok (key, later))
    × (context.provider.decrypt aes_cbc_pkcs5 key.cipher_key key.iv message.ciphertext
        ≡ ok plaintext)
    × (signal_protocol_sender_key_store_key context alice
          (set_by_id (record_of receiver_state) message.key_id later)
          receiver_world
        ≡ (
          ok tt,
          saved context alice (set_by_id (record_of receiver_state) 9 delivered.0) receiver_world,
        ))
decrypt_authentic_example =
    decrypt_authentic context alice_cipher message (record_of receiver_state) receiver_world
      context-IsContext receiver-Loads plaintext
      (saved context alice (set_by_id (record_of receiver_state) 9 delivered.0) receiver_world)
      decryption_lem

nothing_to_send :
    (group_cipher_encrypt context alice_cipher plaintext empty_world).0 ≡ err no_session
unfolding group_cipher_encrypt ◌>>=◌ signal_protocol_sender_key_load_key context
    sender_key_record_get_sender_key_state sender_key_record_create
nothing_to_send = refl

group_cipher_encrypt_atomic_example :
    (group_cipher_encrypt context alice_cipher plaintext empty_world).1.stored ≡ empty_world.stored
group_cipher_encrypt_atomic_example =
    group_cipher_encrypt_atomic context context-IsTransactional alice_cipher plaintext empty_world
      no_session nothing_to_send

nothing_to_read :
    (group_cipher_decrypt context alice_cipher none forged empty_world).0 ≡ err no_session
unfolding group_cipher_decrypt ◌>>=◌ signal_protocol_sender_key_load_key context
    sender_key_record_is_empty sender_key_record_create
nothing_to_read = refl

group_cipher_decrypt_atomic_example :
    (group_cipher_decrypt context alice_cipher none forged empty_world).1.stored
    ≡ empty_world.stored
unfolding group_cipher_decrypt_callback
group_cipher_decrypt_atomic_example =
    group_cipher_decrypt_atomic context context-IsTransactional alice_cipher none (λ _ w. refl)
      forged empty_world no_session nothing_to_read

hides_key_errors_example :
    ((group_cipher_encrypt context alice_cipher plaintext empty_world).0 ≢ err invalid_key_id)
    × ((group_cipher_decrypt context alice_cipher none forged empty_world).0 ≢ err invalid_key_id)
    × ((group_cipher_decrypt context alice_cipher none forged empty_world).0 ≢ err invalid_key)
hides_key_errors_example = hides_key_errors context alice_cipher empty_world plaintext none forged
