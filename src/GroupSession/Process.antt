-- ===== src/GroupSession/Process.antt =====
-- What a receiver holds after a distribution message.
use rn_signal_protocol_messa.Base.{
  ℕ, suc, ◌≡◌, ◌≤◌, refl, none, List, [], ◌∷◌, length, take, All, arith, length-take, eq→==, sym,
  Option, zero, ◌+◌,
}
use rn_signal_protocol_messa.Status.{ok}
use rn_signal_protocol_messa.Action.{◌>>=◌}
use rn_signal_protocol_messa.Crypto.{Provider, Buffer}
use rn_signal_protocol_messa.Curve.{KeyPair, PublicKey, PrivateKey}
use rn_signal_protocol_messa.Curve.Format.{IsPoint}
use rn_signal_protocol_messa.SenderKey.Chain.{chain_after}
use rn_signal_protocol_messa.KeyState.{SenderKeyState}
use rn_signal_protocol_messa.KeyState.RoundTrip as StateTrip
use rn_signal_protocol_messa.KeyRecord.{
  SenderKeyRecord, max_states, find_state, sender_key_record_get_sender_key_state_by_id,
}
use rn_signal_protocol_messa.KeyRecord.Capacity.{added, add_sender_key_state_lem}
use rn_signal_protocol_messa.KeyRecord.RoundTrip.{IsWellFormed}
use rn_signal_protocol_messa.GroupMessage.{SenderKeyDistributionMessage}
use rn_signal_protocol_messa.GroupRatchet.Synced.{IsSynced}
use rn_signal_protocol_messa.GroupCipher.Encrypt.{Loads}
use rn_signal_protocol_messa.GroupCipher.EndToEnd.{IsReceiver}
use rn_signal_protocol_messa.Store.{
  Context, World, SenderKeyName, signal_protocol_sender_key_load_key,
}
use rn_signal_protocol_messa.Store.Laws.{IsContext, saved, store_key_lem, load-saved}
use rn_signal_protocol_messa.GroupSession.{group_session_builder_process_session}

All-take :
    (P : SenderKeyState → Type 0) (n : ℕ) (ss : List SenderKeyState) → All P ss → All P (take n ss)
All-take P zero ss all = tt
All-take P (suc n) [] all = tt
All-take P (suc n) (s ∷ ss) all = (all.0, All-take P n ss all.1)

-- A state that was just added is at step 0 of its own chain.
pub added-IsSynced :
    (p : Provider) (id base : ℕ) (first : Buffer) (half : PublicKey) (own : Option PrivateKey)
    → IsSynced p base first 0 (added id base first half own)
unfolding chain_after
added-IsSynced p id base first half own =
    let e : base + 0 ≡ base = omega arith in record { chain = rw e; keys = tt; distinct = tt }

module _ {S : Type 0} (c : Context S) (laws : IsContext c) (name : SenderKeyName)
    (r : SenderKeyRecord) (m : SenderKeyDistributionMessage) (v : World S) where
  abbrev joined : SenderKeyRecord
  joined = record r {
    states = take max_states (added m.id m.iteration m.chain_key m.signature_key none ∷ r.states);
  }

  process_session_lem :
      Loads c name r v
      → group_session_builder_process_session c name m v ≡ (ok tt, saved c name joined v)
  unfolding group_session_builder_process_session ◌>>=◌
  process_session_lem loads = rw (
    loads,
    add_sender_key_state_lem r m.id m.iteration m.chain_key m.signature_key,
    store_key_lem c laws,
  )

  joined-IsWellFormed :
      IsPoint m.signature_key → IsWellFormed c.provider r → IsWellFormed c.provider joined
  joined-IsWellFormed point well = (
    record { public_size = point; private_size = tt; derived = tt; bounded = omega arith },
    All-take (StateTrip.IsWellFormed c.provider) 4 r.states well,
  )

  -- For a store, a codec and a MAC that do what is documented of them, a well-formed record of the
  -- sender in the store, and a signing key of 32 bytes in the message:
  -- group_session_builder_process_session succeeds, and the store has a well-formed record of at
  -- most MAX_STATES states, whose state of the message's id is at step 0 of the chain that the
  -- message tells, and holds its signing key.
  pub process_session_joins :
      (pair : KeyPair)
      → pair.public_key ≡ m.signature_key
      → IsPoint m.signature_key
      → IsWellFormed c.provider r
      → signal_protocol_sender_key_load_key c name v ≡ (ok r, v)
      → (v' : World S) × (r' : SenderKeyRecord) × (state : SenderKeyState)
        × (group_session_builder_process_session c name m v ≡ (ok tt, v'))
        × (signal_protocol_sender_key_load_key c name v' ≡ (ok r', v'))
        × IsWellFormed c.provider r'
        × (length r'.states ≤ max_states)
        × IsReceiver c.provider pair m.iteration m.chain_key 0 m.id r' state
  unfolding sender_key_record_get_sender_key_state_by_id find_state
  process_session_joins pair half point well loads =
      let well' = joined-IsWellFormed point well in
      (
        saved c name joined v,
        joined,
        added m.id m.iteration m.chain_key m.signature_key none,
        process_session_lem loads,
        load-saved c laws name joined v well',
        well',
        omega (
          arith,
          length-take max_states
              (added m.id m.iteration m.chain_key m.signature_key none ∷ r.states),
        ),
        record {
          found = rw (eq→== m.id m.id refl);
          half = sym half;
          synced = added-IsSynced c.provider m.id m.iteration m.chain_key m.signature_key none;
        },
      )
