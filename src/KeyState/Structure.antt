-- ===== src/KeyState/Structure.antt =====
-- sender_key_state.c and LocalStorageProtocol.pb-c.h: the protobuf structure of a state. A pair
-- `has_x`, `x` and a nullable pointer are an option.
use rn_signal_protocol_messa.Base.{ℕ, Option, none, some, List, [], ◌∷◌}
use rn_signal_protocol_messa.Status.{Result, ok, err, invalid_proto_buf, ◌>>=◌}
use rn_signal_protocol_messa.Crypto.{Buffer, Provider, Codec, pack_checked}
use rn_signal_protocol_messa.Curve.{
  PublicKey, PrivateKey, curve_decode_point, curve_decode_private_point,
  ec_public_key_serialize_protobuf, ec_private_key_serialize_protobuf,
}
use rn_signal_protocol_messa.SenderKey.{
  SenderMessageKey, SenderChainKey, sender_chain_key_create, sender_message_key_create,
}
use rn_signal_protocol_messa.KeyState.{
  SenderKeyState, sender_key_state_create, sender_key_state_add_sender_message_key,
}

pub record ChainKeyStructure : Type 0 where
  pub iteration : Option ℕ
  pub seed : Option Buffer

pub record SigningKeyStructure : Type 0 where
  pub public_bytes : Option Buffer
  pub private_bytes : Option Buffer

pub record MessageKeyStructure : Type 0 where
  pub iteration : Option ℕ
  pub seed : Option Buffer

pub record StateStructure : Type 0 where
  pub senderkeyid : Option ℕ
  pub senderchainkey : Option ChainKeyStructure
  pub sendersigningkey : Option SigningKeyStructure
  pub sendermessagekeys : List MessageKeyStructure

unfoldable pub prepare_message_keys : List SenderMessageKey → List MessageKeyStructure
prepare_message_keys [] = []
prepare_message_keys (k ∷ ks) =
    record { iteration = some k.iteration; seed = some k.seed } ∷ prepare_message_keys ks

unfoldable pub prepare_private : Option PrivateKey → Option Buffer
prepare_private none = none
prepare_private (some key) = some (ec_private_key_serialize_protobuf key)

unfoldable pub sender_key_state_serialize_prepare : SenderKeyState → StateStructure
unfolding prepare_message_keys prepare_private
sender_key_state_serialize_prepare state = record {
  senderkeyid = some state.key_id;
  senderchainkey = some (record {
    iteration = some state.chain_key.iteration;
    seed = some state.chain_key.chain_key;
  });
  sendersigningkey = some (record {
    public_bytes = some (ec_public_key_serialize_protobuf state.signature_public_key);
    private_bytes = prepare_private state.signature_private_key;
  });
  sendermessagekeys = prepare_message_keys state.message_keys;
}

unfoldable pub read_chain : Option ℕ → Option Buffer → Result (Option SenderChainKey)
read_chain (some iteration) (some seed) = do
  key ← sender_chain_key_create iteration (some seed)
  ok (some key)
read_chain _ _ = ok none

-- The chain key, if both fields are there.
unfoldable pub read_chain_key : Option ChainKeyStructure → Result (Option SenderChainKey)
unfolding read_chain
read_chain_key none = ok none
read_chain_key (some c) = read_chain c.iteration c.seed

unfoldable pub read_public : Option Buffer → Result (Option PublicKey)
read_public none = ok none
read_public (some bytes) = do key ← curve_decode_point bytes; ok (some key)

unfoldable pub read_private : Option Buffer → Result (Option PrivateKey)
read_private none = ok none
read_private (some bytes) = do key ← curve_decode_private_point bytes; ok (some key)

unfoldable pub read_signing_key :
    Option SigningKeyStructure → Result (Option PublicKey × Option PrivateKey)
unfolding read_public read_private
read_signing_key none = ok (none, none)
read_signing_key (some s) = do
  public_key ← read_public s.public_bytes
  private_key ← read_private s.private_bytes
  ok (public_key, private_key)

module _ (p : Provider) where
  -- One message key of the loop; an incomplete one is passed over.
  unfoldable pub read_message_key :
      Option ℕ → Option Buffer → SenderKeyState → Result SenderKeyState
  read_message_key (some iteration) (some seed) state = do
    message_key ← sender_message_key_create p iteration (some seed)
    ok (sender_key_state_add_sender_message_key state message_key)
  read_message_key _ _ state = ok state

  unfoldable pub read_message_keys :
      List MessageKeyStructure → SenderKeyState → Result SenderKeyState
  unfolding read_message_key
  read_message_keys [] state = ok state
  read_message_keys (m ∷ ms) state = do
    next ← read_message_key m.iteration m.seed state
    read_message_keys ms next

  -- `has_senderkeyid && chain_key && signature_public_key`
  unfoldable pub read_state :
      Option ℕ
      → Option SenderChainKey
      → Option PublicKey × Option PrivateKey
      → List MessageKeyStructure
      → Result SenderKeyState
  unfolding read_message_keys
  read_state (some id) (some chain_key) (some public_key, private_key) ms = do
    state ← sender_key_state_create id (some chain_key) (some public_key) private_key
    read_message_keys ms state
  read_state _ _ _ ms = err invalid_proto_buf

  unfoldable pub sender_key_state_deserialize_protobuf : StateStructure → Result SenderKeyState
  unfolding read_chain_key read_signing_key read_state
  sender_key_state_deserialize_protobuf s = do
    chain_key ← read_chain_key s.senderchainkey
    keys ← read_signing_key s.sendersigningkey
    read_state s.senderkeyid chain_key keys s.sendermessagekeys

  module _ (codec : Codec StateStructure) where
    unfoldable pub sender_key_state_serialize : SenderKeyState → Result Buffer
    unfolding sender_key_state_serialize_prepare
    sender_key_state_serialize state = pack_checked codec (sender_key_state_serialize_prepare state)

    unfoldable pub sender_key_state_deserialize : Buffer → Result SenderKeyState
    unfolding sender_key_state_deserialize_protobuf
    sender_key_state_deserialize bytes = elim (codec.unpack bytes) [
      | none ↦ err invalid_proto_buf
      | some s ↦ sender_key_state_deserialize_protobuf s
    ]

    unfoldable pub sender_key_state_copy : SenderKeyState → Result SenderKeyState
    unfolding sender_key_state_serialize sender_key_state_deserialize
    sender_key_state_copy other_state = do
      bytes ← sender_key_state_serialize other_state
      sender_key_state_deserialize bytes
