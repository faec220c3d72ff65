-- ===== src/Examples/Run.antt =====
-- One message, encrypted and decrypted.
use rn_signal_protocol_messa.Base.{◌≡◌, refl, none, [], ◌∷◌, arith, ap, inl}
use rn_signal_protocol_messa.Status.{Result, ok, err}
use rn_signal_protocol_messa.Crypto.{Buffer, pack_checked}
use rn_signal_protocol_messa.Curve.{
  ec_public_key_serialize_protobuf, ec_private_key_serialize_protobuf, curve_decode_point,
  curve_decode_private_point, curve_calculate_signature,
}
use rn_signal_protocol_messa.GroupMessage.RoundTrip.{IsSigned, deserialize_signed}
use rn_signal_protocol_messa.Store.{
  World, signal_protocol_sender_key_load_key, signal_protocol_sender_key_store_key, read_loaded,
  attach,
}
use rn_signal_protocol_messa.Store.Laws.{saved}
use rn_signal_protocol_messa.GroupCipher.{
  group_cipher_encrypt, encrypt_body, refuse_reentry, require_private, group_cipher_decrypt,
}
use rn_signal_protocol_messa.Examples.Trivial.{same, trivial, pad}
use rn_signal_protocol_messa.Examples.Format.{codec, codec-IsCodec, message_format}
use rn_signal_protocol_messa.KeyState.{
  SenderKeyState, sender_key_state_create, sender_key_state_set_chain_key,
}
use rn_signal_protocol_messa.KeyRecord.{
  set_head, prepare_states, sender_key_record_serialize, sender_key_record_get_sender_key_state,
  sender_key_record_deserialize, read_states, set_by_id,
}
use rn_signal_protocol_messa.GroupCipher.Encrypt.{
  IsSent, group_cipher_encrypt-IsSent, IsSent-IsSigned,
}
use rn_signal_protocol_messa.GroupCipher.EndToEnd.{IsDue, decrypt-encrypt}
use rn_signal_protocol_messa.SenderKey.{
  sender_chain_key_create_message_key, sender_message_key_create, sender_chain_key_create_next,
  sender_chain_key_get_derivative, sender_chain_key_create,
}
use rn_signal_protocol_messa.GroupMessage.{
  SenderKeyMessage, sender_key_message_create, sender_key_message_deserialize,
}
use rn_signal_protocol_messa.Action.{◌>>=◌, lift}
use rn_signal_protocol_messa.Hkdf.{
  hkdf_create, hkdf_derive_secrets, hkdf_extract, hkdf_expand, expand_loop,
}
use rn_signal_protocol_messa.KeyState.Structure.{
  sender_key_state_deserialize_protobuf, sender_key_state_serialize_prepare, read_state,
}
use rn_signal_protocol_messa.Examples.Setting.{
  Map, map_store, context, alice, alice_cipher, sender_world, receiver_world, lookup, same_name,
  context-IsContext, sender_state, receiver_state, first_chain_key, record_of, pair, sender-Loads,
  receiver-Loads, alice-IsSender, bob-IsReceiver, message_codec, context-HasCipher,
  context-HasSignature,
}

abbrev pub plaintext : Buffer
plaintext = 100 ∷ 101 ∷ []

abbrev pub value_or : {A : Type 0} → A → Result A → A
value_or a (ok b) = b
value_or a (err e) = a

abbrev pub no_message : SenderKeyMessage
no_message = record {
  message_version = 0;
  key_id = 0;
  iteration = 0;
  ciphertext = [];
  serialized = [];
}

abbrev pub encryption : Result SenderKeyMessage × World Map
encryption = group_cipher_encrypt context alice_cipher plaintext sender_world

abbrev pub message : SenderKeyMessage
message = value_or no_message encryption.0

pub encryption_lem :
    group_cipher_encrypt context alice_cipher plaintext sender_world ≡ (ok message, encryption.1)
unfolding group_cipher_encrypt encrypt_body context map_store pad ◌>>=◌
    signal_protocol_sender_key_load_key signal_protocol_sender_key_store_key
    sender_key_record_get_sender_key_state set_head prepare_states sender_key_record_serialize
    pack_checked sender_chain_key_create_message_key sender_message_key_create hkdf_create
    hkdf_derive_secrets hkdf_extract hkdf_expand expand_loop sender_chain_key_create_next
    sender_chain_key_get_derivative sender_chain_key_create read_loaded attach lookup same_name same
    sender_key_record_deserialize read_states sender_key_state_deserialize_protobuf
    sender_key_state_serialize_prepare read_state refuse_reentry require_private
    ec_public_key_serialize_protobuf ec_private_key_serialize_protobuf curve_decode_point
    curve_decode_private_point sender_key_state_create sender_key_message_create
    curve_calculate_signature sender_key_state_set_chain_key trivial
encryption_lem = refl

-- What the sender's store and message are after it.
pub sent : IsSent context alice sender_state [] none plaintext sender_world message encryption.1
sent =
    group_cipher_encrypt-IsSent context context-IsContext alice_cipher sender_state [] none
      plaintext sender_world sender-Loads message encryption.1 encryption_lem

pub signed :
    IsSigned trivial
      (codec message_format)
      (codec-IsCodec message_format)
      9
      0
      sent.ciphertext
      sent.key
      message
unfolding context
signed =
    IsSent-IsSigned context context-IsContext alice_cipher sender_state [] none plaintext
      sender_world (codec-IsCodec message_format) message encryption.1 sent

pub message_id : message.key_id ≡ 9
message_id = ap (λ (m : SenderKeyMessage). m.key_id) signed.whole

pub message_iteration : message.iteration ≡ 0
message_iteration = ap (λ (m : SenderKeyMessage). m.iteration) signed.whole

pub message_read :
    sender_key_message_deserialize context.message_codec message.serialized ≡ ok message
unfolding context
message_read =
    deserialize_signed trivial (codec message_format) (codec-IsCodec message_format) 9 0
      sent.ciphertext sent.key message (message_codec.filled 9 0 sent.ciphertext) signed

pub receiver-IsDue : IsDue context context-IsContext 0 first_chain_key 0 0 receiver_state
receiver-IsDue = inl (omega arith, omega arith)

-- The receiver's state, and the store, after the message.
abbrev pub Delivered : SenderKeyState → Type 0
Delivered later =
    (lift (sender_key_message_deserialize context.message_codec message.serialized)
        >>= group_cipher_decrypt context alice_cipher none)
      receiver_world
    ≡ (
      ok plaintext,
      saved context alice (set_by_id (record_of receiver_state) 9 later) receiver_world,
    )

pub delivered : (later : SenderKeyState) × Delivered later
delivered =
    decrypt-encrypt context context-IsContext message_codec context-HasCipher pair
      context-HasSignature 0 first_chain_key 0 0 alice_cipher alice_cipher sender_state [] none
      (record_of receiver_state) receiver_state sender_world receiver_world sender-Loads
      alice-IsSender receiver-Loads bob-IsReceiver refl receiver-IsDue (omega arith) plaintext
      message encryption.1 encryption_lem

pub decryption_lem : group_cipher_decrypt context alice_cipher none message receiver_world ≡ (
  ok plaintext,
  saved context alice (set_by_id (record_of receiver_state) 9 delivered.0) receiver_world,
)
unfolding ◌>>=◌
decryption_lem = rw message_read at delivered.1
