-- ===== src/Store.antt =====
-- signal_protocol.c: the sender key store of the client behind its callbacks, and what the group
-- functions share: the provider, the protobuf functions and the store.
pub mod Laws
pub mod Atomic
use rn_signal_protocol_messa.Base.{
  ℕ, zero, suc, Bool, true, false, Option, none, some, List, ◌==◌, if◌then◌else◌,
}
use rn_signal_protocol_messa.Status.{Result, ok, err, unknown, other}
use rn_signal_protocol_messa.Action.{Action, lift, pure, zoom, ◌>>=◌}
use rn_signal_protocol_messa.Crypto.{Buffer, Provider, Codec}
use rn_signal_protocol_messa.KeyState.Structure.{StateStructure}
use rn_signal_protocol_messa.KeyRecord.{
  SenderKeyRecord, sender_key_record_create, sender_key_record_serialize,
  sender_key_record_deserialize, sender_key_record_set_user_record,
}
use rn_signal_protocol_messa.GroupMessage.{SenderKeyMessageStructure, DistributionStructure}

-- `signal_protocol_sender_key_name`; the device id is passed on, never computed with.
pub record SenderKeyName : Type 0 where
  pub group_id : Buffer
  pub sender_name : Buffer
  pub device_id : ℕ

-- What `load_sender_key` returns that is not negative, and the two buffers.
pub record Loaded : Type 0 where
  pub code : ℕ
  pub buffer : Option Buffer
  pub user_buffer : Option Buffer

-- `signal_protocol_sender_key_store`, over the client's own state.
pub record SenderKeyStore (S : Type 0) : Type 0 where
  pub store_sender_key : SenderKeyName → Buffer → Option Buffer → Action S (Unit {0})
  pub load_sender_key : SenderKeyName → Action S Loaded

pub record Context (S : Type 0) : Type 0 where
  pub provider : Provider
  pub record_codec : Codec (List StateStructure)
  pub message_codec : Codec SenderKeyMessageStructure
  pub distribution_codec : Codec DistributionStructure
  pub sender_key_store : SenderKeyStore S

-- The random requests made so far, and the client's store.
pub record World (S : Type 0) : Type 0 where
  pub draws : ℕ
  pub stored : S

abbrev pub on_store : {S A : Type 0} → Action S A → Action (World S) A
on_store {S} = zoom {T = World S} (λ w. w.stored) (λ s w. record { draws = w.draws; stored = s })

abbrev pub on_random : {S A : Type 0} → Action ℕ A → Action (World S) A
on_random {S} = zoom {T = World S} (λ w. w.draws) (λ n w. record { draws = n; stored = w.stored })

-- `if(user_buffer) sender_key_record_set_user_record(…)`
unfoldable pub attach : Option Buffer → SenderKeyRecord → SenderKeyRecord
attach none r = r
attach (some user) r = sender_key_record_set_user_record r user

module _ {S : Type 0} (c : Context S) where
  unfoldable pub signal_protocol_sender_key_store_key :
      SenderKeyName → SenderKeyRecord → Action (World S) (Unit {0})
  signal_protocol_sender_key_store_key name r = do
    bytes ← lift (sender_key_record_serialize c.record_codec r)
    on_store (c.sender_key_store.store_sender_key name bytes r.user_record)

  -- 0 wants no buffer, 1 wants one, and any other number is an error. The code -1 is `other 1`.
  unfoldable pub read_loaded : ℕ → Option Buffer → Result SenderKeyRecord
  read_loaded code none =
      if code == 0
      then ok sender_key_record_create
      else if code == 1
      then err (other 1)
      else err unknown
  read_loaded code (some bytes) =
      if code == 0
      then err unknown
      else if code == 1
      then sender_key_record_deserialize c.record_codec c.provider bytes
      else err unknown

  unfoldable pub signal_protocol_sender_key_load_key :
      SenderKeyName → Action (World S) SenderKeyRecord
  unfolding read_loaded attach
  signal_protocol_sender_key_load_key name = do
    loaded ← on_store (c.sender_key_store.load_sender_key name)
    r ← lift (read_loaded loaded.code loaded.buffer)
    pure (attach loaded.user_buffer r)
