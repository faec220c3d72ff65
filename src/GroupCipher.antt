-- ===== src/GroupCipher.antt =====
-- group_cipher.c: encryption and decryption of a group's messages.
pub mod Errors
pub mod Atomic
pub mod Encrypt
pub mod Decrypt
pub mod EndToEnd
pub mod Once
use rn_signal_protocol_messa.Base.{Bool, true, Option, none, some, if◌then◌else◌}
use rn_signal_protocol_messa.Status.{
  Error, Result, ok, err, inval, invalid_key, invalid_key_id, invalid_message, no_session,
}
use rn_signal_protocol_messa.Action.{Action, pure, lift, map_error, ◌>>=◌, ◌>>◌}
use rn_signal_protocol_messa.Crypto.{Buffer, aes_cbc_pkcs5}
use rn_signal_protocol_messa.Curve.{PrivateKey}
use rn_signal_protocol_messa.SenderKey.{
  sender_chain_key_create_message_key, sender_chain_key_create_next,
}
use rn_signal_protocol_messa.KeyState.{sender_key_state_set_chain_key}
use rn_signal_protocol_messa.KeyRecord.{
  SenderKeyRecord, sender_key_record_is_empty, sender_key_record_get_sender_key_state,
  sender_key_record_get_sender_key_state_by_id, set_head, set_by_id,
}
use rn_signal_protocol_messa.GroupMessage.{
  SenderKeyMessage, sender_key_message_create, sender_key_message_verify_signature,
}
use rn_signal_protocol_messa.GroupRatchet.{group_cipher_get_sender_key}
use rn_signal_protocol_messa.Store.{
  SenderKeyName, Context, World, on_random, signal_protocol_sender_key_load_key,
  signal_protocol_sender_key_store_key,
}

-- The cipher object. Its callback is an argument of the functions that call it.
pub record GroupCipher : Type 0 where
  pub sender_key_id : SenderKeyName
  pub inside_callback : Bool

-- What decrypt_callback may do: it is given the cipher and the plaintext, and the world.
abbrev pub Callback : Type 0 → Type 0
Callback S = GroupCipher → Buffer → Action (World S) (Unit {0})

unfoldable pub no_session_error : Error → Error
no_session_error invalid_key_id = no_session
no_session_error e = e

unfoldable pub invalid_message_error : Error → Error
invalid_message_error invalid_key = invalid_message
invalid_message_error invalid_key_id = invalid_message
invalid_message_error e = e

-- `if(!signing_key_private)`
unfoldable pub require_private : Option PrivateKey → Result PrivateKey
require_private none = err invalid_key
require_private (some key) = ok key

-- `if(sender_key_record_is_empty(record))`
unfoldable pub require_states : SenderKeyRecord → Result (Unit {0})
require_states r = if sender_key_record_is_empty r then err no_session else ok tt

module _ {S : Type 0} (c : Context S) where
  -- What both functions do where the cipher is inside its callback.
  unfoldable pub refuse_reentry :
      {A : Type 0} → GroupCipher → Action (World S) A → Action (World S) A
  refuse_reentry cipher m = if cipher.inside_callback then lift (err inval) else m

  unfoldable pub encrypt_body : SenderKeyName → Buffer → Action (World S) SenderKeyMessage
  unfolding require_private
  encrypt_body name padded_plaintext = do
    r ← signal_protocol_sender_key_load_key c name
    state ← lift (sender_key_record_get_sender_key_state r)
    signing_key_private ← lift (require_private state.signature_private_key)
    sender_key ← lift (sender_chain_key_create_message_key c.provider state.chain_key)
    ciphertext ←
        lift (c.provider.encrypt aes_cbc_pkcs5 sender_key.cipher_key sender_key.iv padded_plaintext)
    message ← on_random (
        sender_key_message_create c.provider c.message_codec state.key_id sender_key.iteration
          ciphertext signing_key_private)
    next_chain_key ← lift (sender_chain_key_create_next c.provider state.chain_key)
    signal_protocol_sender_key_store_key c name
        (set_head r (sender_key_state_set_chain_key state next_chain_key))
    pure message

  unfoldable pub group_cipher_encrypt : GroupCipher → Buffer → Action (World S) SenderKeyMessage
  unfolding refuse_reentry encrypt_body no_session_error
  group_cipher_encrypt cipher padded_plaintext =
      map_error no_session_error
        (refuse_reentry cipher (encrypt_body cipher.sender_key_id padded_plaintext))

  -- The cipher that the callback is given is inside it.
  unfoldable pub group_cipher_decrypt_callback :
      GroupCipher → Option (Callback S) → Buffer → Action (World S) (Unit {0})
  group_cipher_decrypt_callback cipher none plaintext = pure tt
  group_cipher_decrypt_callback cipher (some callback) plaintext =
      callback (record cipher { inside_callback = true }) plaintext

  unfoldable pub decrypt_body :
      GroupCipher → Option (Callback S) → SenderKeyMessage → Action (World S) Buffer
  unfolding require_states group_cipher_decrypt_callback group_cipher_get_sender_key
  decrypt_body cipher callback message = do
    r ← signal_protocol_sender_key_load_key c cipher.sender_key_id
    lift (require_states r)
    state ← lift (sender_key_record_get_sender_key_state_by_id r message.key_id)
    lift (sender_key_message_verify_signature c.provider message state.signature_public_key)
    (sender_key, state') ← lift (group_cipher_get_sender_key c.provider state message.iteration)
    plaintext ←
        lift
          (c.provider.decrypt aes_cbc_pkcs5 sender_key.cipher_key sender_key.iv message.ciphertext)
    group_cipher_decrypt_callback cipher callback plaintext
    signal_protocol_sender_key_store_key c cipher.sender_key_id (set_by_id r message.key_id state')
    pure plaintext

  unfoldable pub group_cipher_decrypt :
      GroupCipher → Option (Callback S) → SenderKeyMessage → Action (World S) Buffer
  unfolding refuse_reentry decrypt_body invalid_message_error
  group_cipher_decrypt cipher callback message =
      map_error invalid_message_error (refuse_reentry cipher (decrypt_body cipher callback message))
