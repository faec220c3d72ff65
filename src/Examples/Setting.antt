-- ===== src/Examples/Setting.antt =====
-- A client whose store is a function from names, a group's context on it, and two members.
use rn_signal_protocol_messa.Base.{
  ◌≡◌, refl, Bool, true, false, ◌&&◌, Option, none, some, [], ◌∷◌, ◌==◌, if◌then◌else◌, eq→==,
  replicate, arith,
}
use rn_signal_protocol_messa.Status.{ok}
use rn_signal_protocol_messa.Crypto.{Buffer, HasCipher}
use rn_signal_protocol_messa.Curve.{KeyPair, PrivateKey, HasSignature}
use rn_signal_protocol_messa.GroupMessage.RoundTrip.{IsMessageCodec, IsDistributionCodec}
use rn_signal_protocol_messa.Store.{SenderKeyName, SenderKeyStore, Loaded, Context, World}
use rn_signal_protocol_messa.Store.Laws.{IsStore, IsTransactional, IsContext, saved, load-saved}
use rn_signal_protocol_messa.GroupCipher.{GroupCipher}
use rn_signal_protocol_messa.Examples.Trivial.{
  same, same_refl, trivial, trivial-HasMac, trivial-HasCipher, trivial-HasSignature,
  trivial-HasKeys,
}
use rn_signal_protocol_messa.Examples.Format.{
  codec, codec-IsCodec, record_format, message_format, distribution_format,
}
use rn_signal_protocol_messa.KeyState.{SenderKeyState}
use rn_signal_protocol_messa.KeyRecord.{
  SenderKeyRecord, find_state, sender_key_record_get_sender_key_state_by_id,
}
use rn_signal_protocol_messa.KeyRecord.RoundTrip.{IsWellFormed}
use rn_signal_protocol_messa.GroupCipher.Encrypt.{Loads}
use rn_signal_protocol_messa.GroupCipher.EndToEnd.{IsSender, IsReceiver}
use rn_signal_protocol_messa.GroupRatchet.Synced.{IsSynced}
use rn_signal_protocol_messa.SenderKey.Chain.{chain_after}
use rn_signal_protocol_messa.Curve.Generate.{HasKeys}

abbrev pub Map : Type 0
Map = SenderKeyName → Option (Buffer × Option Buffer)

unfoldable pub same_name : SenderKeyName → SenderKeyName → Bool
unfolding same
same_name a b =
    same a.group_id b.group_id && same a.sender_name b.sender_name && a.device_id == b.device_id

same_name_refl : (name : SenderKeyName) → same_name name name ≡ true
unfolding same_name
same_name_refl name =
    rw (
      same_refl name.group_id,
      same_refl name.sender_name,
      eq→== name.device_id name.device_id refl,
    )

unfoldable pub lookup : Option (Buffer × Option Buffer) → Loaded
lookup none = record { code = 0; buffer = none; user_buffer = none }
lookup (some (bytes, user)) = record { code = 1; buffer = some bytes; user_buffer = user }

unfoldable pub map_store : SenderKeyStore Map
unfolding lookup same_name
map_store = record {
  store_sender_key = λ name bytes user map.
      (ok tt, λ other. if same_name name other then some (bytes, user) else map other);
  load_sender_key = λ name map. (ok (lookup (map name)), map);
}

pub map_store-IsStore : IsStore map_store
unfolding map_store
map_store-IsStore = record {
  accepts = λ name bytes user map. refl;
  reading = λ name map. refl;
  read_back = λ name bytes user map. rw (same_name_refl name);
}

pub map_store-IsTransactional : IsTransactional map_store
unfolding map_store
map_store-IsTransactional = record {
  reading = λ name map. refl;
  refusing = λ name bytes user map e h. cc;
}

unfoldable pub context : Context Map
unfolding map_store
context = record {
  provider = trivial;
  record_codec = codec record_format;
  message_codec = codec message_format;
  distribution_codec = codec distribution_format;
  sender_key_store = map_store;
}

pub context-IsContext : IsContext context
unfolding context
context-IsContext = record {
  has_mac = trivial-HasMac;
  codec = codec-IsCodec record_format;
  store = map_store-IsStore;
}

pub message_codec : IsMessageCodec context.message_codec
unfolding context
message_codec = record {
  laws = codec-IsCodec message_format;
  filled = λ id iteration ciphertext. omega arith;
}

pub distribution_codec : IsDistributionCodec context.distribution_codec
unfolding context
distribution_codec = record {
  laws = codec-IsCodec distribution_format;
  filled = λ id iteration chain_key key. omega arith;
}

abbrev pub empty_world : World Map
empty_world = record { draws = 7; stored = λ _. none }

abbrev pub alice : SenderKeyName
alice = record { group_id = 1 ∷ []; sender_name = 2 ∷ []; device_id = 1 }

abbrev pub alice_cipher : GroupCipher
alice_cipher = record { sender_key_id = alice; inside_callback = false }

abbrev pub pair : KeyPair
pair = record {
  public_key = record { point = replicate 32 8 };
  private_key = record { scalar = replicate 32 8 };
}

abbrev pub first_chain_key : Buffer
first_chain_key = replicate 32 3

-- The state of a sender whose chain starts at iteration 0.
abbrev pub state_of : Option PrivateKey → SenderKeyState
state_of own = record {
  key_id = 9;
  chain_key = record { iteration = 0; chain_key = first_chain_key };
  signature_public_key = pair.public_key;
  signature_private_key = own;
  message_keys = [];
}

abbrev pub sender_state : SenderKeyState
sender_state = state_of (some pair.private_key)

abbrev pub receiver_state : SenderKeyState
receiver_state = state_of none

abbrev pub record_of : SenderKeyState → SenderKeyRecord
record_of state = record { states = state ∷ []; user_record = none }

pub sender-IsWellFormed : IsWellFormed context.provider (record_of sender_state)
sender-IsWellFormed =
    (record { public_size = refl; private_size = refl; derived = tt; bounded = omega arith }, tt)

pub receiver-IsWellFormed : IsWellFormed context.provider (record_of receiver_state)
receiver-IsWellFormed =
    (record { public_size = refl; private_size = tt; derived = tt; bounded = omega arith }, tt)

-- The sender's own store, and the receiver's.
abbrev pub sender_world : World Map
sender_world = saved context alice (record_of sender_state) empty_world

abbrev pub receiver_world : World Map
receiver_world = saved context alice (record_of receiver_state) empty_world

pub sender-Loads : Loads context alice (record_of sender_state) sender_world
sender-Loads =
    load-saved context context-IsContext alice (record_of sender_state) empty_world
      sender-IsWellFormed

pub receiver-Loads : Loads context alice (record_of receiver_state) receiver_world
receiver-Loads =
    load-saved context context-IsContext alice (record_of receiver_state) empty_world
      receiver-IsWellFormed

pub alice-IsSender : IsSender context.provider pair 0 first_chain_key 0 sender_state
unfolding chain_after
alice-IsSender = record { chain = refl; half = refl }

pub receiver-IsSynced : IsSynced context.provider 0 first_chain_key 0 receiver_state
unfolding chain_after
receiver-IsSynced = record { chain = refl; keys = tt; distinct = tt }

pub bob-IsReceiver :
    IsReceiver context.provider pair 0 first_chain_key 0 9 (record_of receiver_state) receiver_state
unfolding sender_key_record_get_sender_key_state_by_id find_state
bob-IsReceiver = record { found = refl; half = refl; synced = receiver-IsSynced }

pub context-HasCipher : HasCipher context.provider
unfolding context
context-HasCipher = trivial-HasCipher

pub context-HasSignature : HasSignature context.provider pair
unfolding context
context-HasSignature = trivial-HasSignature pair refl

pub context-IsTransactional : IsTransactional context.sender_key_store
unfolding context
context-IsTransactional = map_store-IsTransactional

pub context-HasKeys : HasKeys context.provider
unfolding context
context-HasKeys = trivial-HasKeys
