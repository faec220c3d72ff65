-- ===== src/KeyState.antt =====
-- sender_key_state.c: what is kept of one sender key of a group: the chain, the signing key, and the
-- message keys that were skipped, oldest first (the doubly linked list of utlist.h).
pub mod Structure
pub mod Keys
pub mod Capacity
pub mod RoundTrip
use rn_signal_protocol_messa.Base.{
  ℕ, ◌-◌, Bool, true, false, Option, none, some, List, [], ◌∷◌, ◌++◌, length, ltb, ◌==◌,
  if◌then◌else◌,
}
use rn_signal_protocol_messa.Status.{Result, ok, err, inval}
use rn_signal_protocol_messa.Curve.{PublicKey, PrivateKey}
use rn_signal_protocol_messa.SenderKey.{SenderMessageKey, SenderChainKey}

abbrev pub max_message_keys : ℕ
max_message_keys = 2000

pub record SenderKeyState : Type 0 where
  pub key_id : ℕ
  pub chain_key : SenderChainKey
  pub signature_public_key : PublicKey
  pub signature_private_key : Option PrivateKey
  pub message_keys : List SenderMessageKey

unfoldable pub sender_key_state_create :
    ℕ → Option SenderChainKey → Option PublicKey → Option PrivateKey → Result SenderKeyState
sender_key_state_create id (some chain_key) (some signature_public_key) signature_private_key =
    ok (record {
      key_id = id;
      chain_key = chain_key;
      signature_public_key = signature_public_key;
      signature_private_key = signature_private_key;
      message_keys = [];
    })
sender_key_state_create id _ _ signature_private_key = err inval

unfoldable pub sender_key_state_set_chain_key : SenderKeyState → SenderChainKey → SenderKeyState
sender_key_state_set_chain_key state chain_key = record state { chain_key = chain_key }

-- The walk of DL_FOREACH over the nodes.
unfoldable pub holds : List SenderMessageKey → ℕ → Bool
holds [] iteration = false
holds (k ∷ ks) iteration = if k.iteration == iteration then true else holds ks iteration

unfoldable pub sender_key_state_has_sender_message_key : SenderKeyState → ℕ → Bool
unfolding holds
sender_key_state_has_sender_message_key state iteration = holds state.message_keys iteration

-- `while(count > MAX_MESSAGE_KEYS)`: the head goes, and the count goes down.
unfoldable pub evict : (count : ℕ) → List SenderMessageKey → List SenderMessageKey
evict count [] = []
evict count (k ∷ ks) =
    let rest = evict (count - 1) ks in if ltb max_message_keys count then rest else k ∷ ks

unfoldable pub sender_key_state_add_sender_message_key :
    SenderKeyState → SenderMessageKey → SenderKeyState
unfolding evict
sender_key_state_add_sender_message_key state message_key =
    let keys = state.message_keys ++ (message_key ∷ []) in
    record state { message_keys = evict (length keys) keys }

-- The first node of the iteration is unlinked, and its key is the result.
unfoldable pub unlink : List SenderMessageKey → ℕ → Option SenderMessageKey × List SenderMessageKey
unlink [] iteration = (none, [])
unlink (k ∷ ks) iteration =
    let (found, rest) = unlink ks iteration in
    if k.iteration == iteration then (some k, ks) else (found, k ∷ rest)

unfoldable pub sender_key_state_remove_sender_message_key :
    SenderKeyState → ℕ → Option SenderMessageKey × SenderKeyState
unfolding unlink
sender_key_state_remove_sender_message_key state iteration =
    let (found, rest) = unlink state.message_keys iteration in
    (found, record state { message_keys = rest })
