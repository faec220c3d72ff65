-- ===== src/KeyRecord.antt =====
-- sender_key_record.c: the states of one sender in a group, newest first. A pointer to a state of
-- the record is modelled by the state; the code that writes through it says so by `set_head` or
-- `set_by_id`, which put the new value in its place.
pub mod Capacity
pub mod RoundTrip
pub mod ById
use rn_signal_protocol_messa.Base.{
  ℕ, zero, suc, Bool, true, false, Option, none, some, List, [], ◌∷◌, ◌++◌, length, ltb, ◌==◌,
  if◌then◌else◌,
}
use rn_signal_protocol_messa.Status.{Result, ok, err, invalid_key_id, invalid_proto_buf, ◌>>=◌}
use rn_signal_protocol_messa.Crypto.{Buffer, Provider, Codec, pack_checked}
use rn_signal_protocol_messa.Curve.{PublicKey, PrivateKey, KeyPair}
use rn_signal_protocol_messa.SenderKey.{sender_chain_key_create}
use rn_signal_protocol_messa.KeyState.{SenderKeyState, sender_key_state_create}
use rn_signal_protocol_messa.KeyState.Structure.{
  StateStructure, sender_key_state_serialize_prepare, sender_key_state_deserialize_protobuf,
}

abbrev pub max_states : ℕ
max_states = 5

pub record SenderKeyRecord : Type 0 where
  pub states : List SenderKeyState
  pub user_record : Option Buffer

unfoldable pub sender_key_record_create : SenderKeyRecord
sender_key_record_create = record { states = []; user_record = none }

unfoldable pub sender_key_record_is_empty : SenderKeyRecord → Bool
sender_key_record_is_empty r = elim r.states [ [] ↦ true | _ ↦ false ]

unfoldable pub head_state : List SenderKeyState → Result SenderKeyState
head_state [] = err invalid_key_id
head_state (s ∷ _) = ok s

unfoldable pub sender_key_record_get_sender_key_state : SenderKeyRecord → Result SenderKeyState
unfolding head_state
sender_key_record_get_sender_key_state r = head_state r.states

unfoldable pub find_state : List SenderKeyState → ℕ → Result SenderKeyState
find_state [] key_id = err invalid_key_id
find_state (s ∷ ss) key_id = if s.key_id == key_id then ok s else find_state ss key_id

unfoldable pub sender_key_record_get_sender_key_state_by_id :
    SenderKeyRecord → ℕ → Result SenderKeyState
unfolding find_state
sender_key_record_get_sender_key_state_by_id r key_id = find_state r.states key_id

-- What a write through the pointer of `get_sender_key_state` leaves.
unfoldable pub replace_head : List SenderKeyState → SenderKeyState → List SenderKeyState
replace_head [] state = []
replace_head (_ ∷ ss) state = state ∷ ss

unfoldable pub set_head : SenderKeyRecord → SenderKeyState → SenderKeyRecord
unfolding replace_head
set_head r state = record r { states = replace_head r.states state }

-- What a write through the pointer of `get_sender_key_state_by_id` leaves.
unfoldable pub replace_state : List SenderKeyState → ℕ → SenderKeyState → List SenderKeyState
replace_state [] key_id state = []
replace_state (s ∷ ss) key_id state =
    if s.key_id == key_id then state ∷ ss else s ∷ replace_state ss key_id state

unfoldable pub set_by_id : SenderKeyRecord → ℕ → SenderKeyState → SenderKeyRecord
unfolding replace_state
set_by_id r key_id state = record r { states = replace_state r.states key_id state }

-- DL_DELETE of `head->prev`, the last node.
unfoldable pub drop_last : List SenderKeyState → List SenderKeyState
drop_last [] = []
drop_last (s ∷ []) = []
drop_last (s ∷ t ∷ ss) = s ∷ drop_last (t ∷ ss)

-- `while(count > MAX_STATES)`: the tail goes, and the count goes down.
unfoldable pub evict_states : (count : ℕ) → List SenderKeyState → List SenderKeyState
evict_states zero ss = ss
evict_states (suc count) ss =
    let rest = evict_states count (drop_last ss) in if ltb max_states (suc count) then rest else ss

unfoldable pub add_sender_key_state_impl :
    SenderKeyRecord
    → (id iteration : ℕ) → Option Buffer
    → Option PublicKey
    → Option PrivateKey
    → Result SenderKeyRecord
unfolding evict_states drop_last
add_sender_key_state_impl r id iteration chain_key signature_public_key signature_private_key = do
  chain_key_element ← sender_chain_key_create iteration chain_key
  state ←
      sender_key_state_create id (some chain_key_element) signature_public_key signature_private_key
  let states = state ∷ r.states
  ok (record r { states = evict_states (length states) states })

unfoldable pub sender_key_record_add_sender_key_state :
    SenderKeyRecord → (id iteration : ℕ) → Buffer → PublicKey → Result SenderKeyRecord
unfolding add_sender_key_state_impl
sender_key_record_add_sender_key_state r id iteration chain_key signature_key =
    add_sender_key_state_impl r id iteration (some chain_key) (some signature_key) none

unfoldable pub sender_key_record_set_sender_key_state :
    SenderKeyRecord → (id iteration : ℕ) → Buffer → KeyPair → Result SenderKeyRecord
unfolding add_sender_key_state_impl
sender_key_record_set_sender_key_state r id iteration chain_key pair =
    add_sender_key_state_impl (record r { states = [] }) id iteration (some chain_key)
      (some pair.public_key) (some pair.private_key)

-- The structure is the list of the states' structures.
unfoldable pub prepare_states : List SenderKeyState → List StateStructure
prepare_states [] = []
prepare_states (s ∷ ss) = sender_key_state_serialize_prepare s ∷ prepare_states ss

unfoldable pub read_states : Provider → List StateStructure → Result (List SenderKeyState)
read_states p [] = ok []
read_states p (s ∷ ss) = do
  state ← sender_key_state_deserialize_protobuf p s
  states ← read_states p ss
  ok (state ∷ states)

module _ (codec : Codec (List StateStructure)) where
  unfoldable pub sender_key_record_serialize : SenderKeyRecord → Result Buffer
  unfolding prepare_states
  sender_key_record_serialize r = pack_checked codec (prepare_states r.states)

  module _ (p : Provider) where
    unfoldable pub sender_key_record_deserialize : Buffer → Result SenderKeyRecord
    unfolding read_states
    sender_key_record_deserialize bytes = elim (codec.unpack bytes) [
      | none ↦ err invalid_proto_buf
      | some structures ↦ (do
        states ← read_states p structures
        ok (record { states = states; user_record = none }))
    ]

    unfoldable pub sender_key_record_copy : SenderKeyRecord → Result SenderKeyRecord
    unfolding sender_key_record_serialize sender_key_record_deserialize
    sender_key_record_copy other_record = do
      bytes ← sender_key_record_serialize other_record
      result_record ← sender_key_record_deserialize bytes
      ok (record result_record { user_record = other_record.user_record })

unfoldable pub sender_key_record_set_user_record : SenderKeyRecord → Buffer → SenderKeyRecord
sender_key_record_set_user_record r user_record = record r { user_record = some user_record }
