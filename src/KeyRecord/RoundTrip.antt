-- ===== src/KeyRecord/RoundTrip.antt =====
-- A record that is written and read again.
use rn_signal_protocol_messa.Base.{◌≡◌, refl, none, List, [], ◌∷◌, All}
use rn_signal_protocol_messa.Status.{ok}
use rn_signal_protocol_messa.Crypto.{Provider, HasMac, Codec, IsCodec, pack_checked_lem}
use rn_signal_protocol_messa.KeyState.{SenderKeyState}
use rn_signal_protocol_messa.KeyState.Structure.{StateStructure}
use rn_signal_protocol_messa.KeyState.RoundTrip as StateTrip
use rn_signal_protocol_messa.KeyRecord.{
  SenderKeyRecord, prepare_states, read_states, sender_key_record_serialize,
  sender_key_record_deserialize, sender_key_record_copy,
}

abbrev pub IsWellFormed : Provider → SenderKeyRecord → Type 0
IsWellFormed p r = All (StateTrip.IsWellFormed p) r.states

module _ (p : Provider) (h : HasMac p) (codec : Codec (List StateStructure))
    (c : IsCodec codec) where
  read-prepare_states :
      (ss : List SenderKeyState)
      → All (StateTrip.IsWellFormed p) ss
      → read_states p (prepare_states ss) ≡ ok ss
  unfolding read_states prepare_states
  read-prepare_states [] w = refl
  read-prepare_states (s ∷ ss) w =
      rw (StateTrip.deserialize-prepare p h s w.0, read-prepare_states ss w.1)

  pub serialize_lem :
      (r : SenderKeyRecord)
      → sender_key_record_serialize codec r ≡ ok (codec.pack (prepare_states r.states))
  unfolding sender_key_record_serialize
  serialize_lem r = pack_checked_lem codec c (prepare_states r.states)

  -- What a well-formed record is written as reads back as its states; the client's part of the
  -- record is kept elsewhere.
  pub deserialize-pack :
      (r : SenderKeyRecord)
      → IsWellFormed p r
      → sender_key_record_deserialize codec p (codec.pack (prepare_states r.states))
        ≡ ok (record r { user_record = none })
  unfolding sender_key_record_deserialize
  deserialize-pack r w = rw (
    c.unpack-pack (prepare_states r.states),
    sender_key_record_deserialize,
    read-prepare_states r.states w,
  )

  -- With an HMAC-SHA256 that always succeeds with 32 bytes and a codec that unpacks what it packs:
  -- sender_key_record_copy of a well-formed record succeeds, with an equal record, the client's
  -- part included.
  pub sender_key_record_copy_lem :
      (r : SenderKeyRecord) → IsWellFormed p r → sender_key_record_copy codec p r ≡ ok r
  unfolding sender_key_record_copy
  sender_key_record_copy_lem r w = rw (serialize_lem r, deserialize-pack r w)
