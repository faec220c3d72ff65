-- ===== src/Store/Laws.antt =====
-- What a client's store promises, and what the library's two functions make of it.
use rn_signal_protocol_messa.Base.{◌≡◌, refl, Option, some, none, List}
use rn_signal_protocol_messa.Status.{Error, ok, err}
use rn_signal_protocol_messa.Action.{◌>>=◌}
use rn_signal_protocol_messa.Crypto.{Buffer, HasMac, IsCodec}
use rn_signal_protocol_messa.KeyRecord.{
  SenderKeyRecord, prepare_states, sender_key_record_set_user_record,
}
use rn_signal_protocol_messa.KeyRecord.RoundTrip.{IsWellFormed, serialize_lem, deserialize-pack}
use rn_signal_protocol_messa.Store.{
  SenderKeyName, SenderKeyStore, Context, World, attach, read_loaded,
  signal_protocol_sender_key_store_key, signal_protocol_sender_key_load_key,
}
use rn_signal_protocol_messa.KeyState.{SenderKeyState}

-- A store that keeps what it is given, until the same name is stored again.
pub record IsStore {S : Type 0} (k : SenderKeyStore S) : Type 0 where
  pub accepts :
      (name : SenderKeyName) (bytes : Buffer) (user : Option Buffer) (s : S)
      → (k.store_sender_key name bytes user s).0 ≡ ok tt
  pub reading : (name : SenderKeyName) (s : S) → (k.load_sender_key name s).1 ≡ s
  pub read_back :
      (name : SenderKeyName) (bytes : Buffer) (user : Option Buffer) (s : S)
      → (k.load_sender_key name (k.store_sender_key name bytes user s).1).0
        ≡ ok (record { code = 1; buffer = some bytes; user_buffer = user })

-- A store whose state a load never changes, nor a refused write.
pub record IsTransactional {S : Type 0} (k : SenderKeyStore S) : Type 0 where
  pub reading : (name : SenderKeyName) (s : S) → (k.load_sender_key name s).1 ≡ s
  pub refusing :
      (name : SenderKeyName) (bytes : Buffer) (user : Option Buffer) (s : S) (e : Error)
      → (k.store_sender_key name bytes user s).0 ≡ err e
      → (k.store_sender_key name bytes user s).1 ≡ s

-- What the group functions rest on, of all the code that they call.
pub record IsContext {S : Type 0} (c : Context S) : Type 0 where
  pub has_mac : HasMac c.provider
  pub codec : IsCodec c.record_codec
  pub store : IsStore c.sender_key_store

attach_lem :
    (states : List SenderKeyState) (user : Option Buffer)
    → attach user (record { states = states; user_record = none })
      ≡ record { states = states; user_record = user }
unfolding attach sender_key_record_set_user_record
attach_lem states none = refl
attach_lem states (some user) = refl

module _ {S : Type 0} (c : Context S) where
  abbrev pub bytes_of : SenderKeyRecord → Buffer
  bytes_of r = c.record_codec.pack (prepare_states r.states)

  -- The world after a record is stored.
  abbrev pub saved : SenderKeyName → SenderKeyRecord → World S → World S
  saved name r w = record {
    draws = w.draws;
    stored = (c.sender_key_store.store_sender_key name (bytes_of r) r.user_record w.stored).1;
  }

  module _ (laws : IsContext c) where
    pub store_key_lem :
        (name : SenderKeyName) (r : SenderKeyRecord) (w : World S)
        → signal_protocol_sender_key_store_key c name r w ≡ (ok tt, saved name r w)
    unfolding signal_protocol_sender_key_store_key ◌>>=◌ prepare_states
    store_key_lem name r w = rw (
      serialize_lem c.provider laws.has_mac c.record_codec laws.codec r,
      laws.store.accepts name (bytes_of r) r.user_record w.stored,
    )

    pub load-saved :
        (name : SenderKeyName) (r : SenderKeyRecord) (w : World S)
        → IsWellFormed c.provider r
        → signal_protocol_sender_key_load_key c name (saved name r w) ≡ (ok r, saved name r w)
    unfolding signal_protocol_sender_key_load_key read_loaded ◌>>=◌ prepare_states
    load-saved name r w well = rw (
      laws.store.read_back name (bytes_of r) r.user_record w.stored,
      deserialize-pack c.provider laws.has_mac c.record_codec laws.codec r well,
      attach_lem r.states r.user_record,
      laws.store.reading name (saved name r w).stored,
    )

    -- For a store that keeps what it is given, a codec that unpacks what it packs and an
    -- HMAC-SHA256 that always succeeds with 32 bytes: signal_protocol_sender_key_store_key of a
    -- well-formed record succeeds, and after it signal_protocol_sender_key_load_key of the same
    -- name gives the record as it was, the client's part included, and changes nothing.
    pub load-store :
        (name : SenderKeyName) (r : SenderKeyRecord) (w : World S)
        → IsWellFormed c.provider r
        → (w' : World S) × (signal_protocol_sender_key_store_key c name r w ≡ (ok tt, w'))
          × (signal_protocol_sender_key_load_key c name w' ≡ (ok r, w'))
    load-store name r w well = (saved name r w, store_key_lem name r w, load-saved name r w well)
