-- ===== src/KeyState/RoundTrip.antt =====
-- A state that is written and read again.
use rn_signal_protocol_messa.Base.{
  ◌+◌, ◌≤◌, ◌≡◌, refl, ap, Option, none, some, List, [], ◌∷◌, ◌++◌, length, All, arith,
  append_assoc, append-nil, length-append, ◌∙◌,
}
use rn_signal_protocol_messa.Status.{ok}
use rn_signal_protocol_messa.Crypto.{Provider, HasMac, Codec, IsCodec, pack_checked_lem}
use rn_signal_protocol_messa.Curve.{PrivateKey}
use rn_signal_protocol_messa.Curve.Format.{
  IsPoint, IsScalar, decode-serialize_protobuf, decode_private-serialize_protobuf,
}
use rn_signal_protocol_messa.SenderKey.{SenderMessageKey, sender_chain_key_create_lem}
use rn_signal_protocol_messa.SenderKey.Chain.{message_key_of, sender_message_key_create_lem}
use rn_signal_protocol_messa.KeyState.{SenderKeyState, max_message_keys, sender_key_state_create}
use rn_signal_protocol_messa.KeyState.Capacity.{add_sender_message_key_room}
use rn_signal_protocol_messa.KeyState.Structure.{
  StateStructure, prepare_message_keys, prepare_private, sender_key_state_serialize_prepare,
  read_private, read_message_key, read_message_keys, read_state,
  sender_key_state_deserialize_protobuf, sender_key_state_deserialize, sender_key_state_copy,
}

abbrev pub IsPrivate : Option PrivateKey → Type 0
IsPrivate none = Unit
IsPrivate (some key) = IsScalar key

-- A state as the library makes it: keys of 32 bytes, message keys that are derived from their seeds,
-- and no more of them than the bound.
pub record IsWellFormed (p : Provider) (state : SenderKeyState) : Type 0 where
  pub public_size : IsPoint state.signature_public_key
  pub private_size : IsPrivate state.signature_private_key
  pub derived : All (λ k. k ≡ message_key_of p k.iteration k.seed) state.message_keys
  pub bounded : length state.message_keys ≤ max_message_keys

read_private_lem :
    (key : Option PrivateKey) → IsPrivate key → read_private (prepare_private key) ≡ ok key
unfolding read_private prepare_private
read_private_lem none h = refl
read_private_lem (some key) h = rw (decode_private-serialize_protobuf key h)

module _ (p : Provider) (h : HasMac p) where
  -- The keys are appended one by one, in their order.
  read_message_keys_lem :
      (ks : List SenderMessageKey) (state : SenderKeyState)
      → All (λ k. k ≡ message_key_of p k.iteration k.seed) ks
      → length state.message_keys + length ks ≤ max_message_keys
      → read_message_keys p (prepare_message_keys ks) state
        ≡ ok (record state { message_keys = state.message_keys ++ ks })
  unfolding read_message_keys read_message_key prepare_message_keys
  read_message_keys_lem [] state d room = rw append-nil
  read_message_keys_lem (k ∷ ks) state d room =
      rw
        (
          sender_message_key_create_lem p h k.iteration k.seed,
          ← d.0,
          add_sender_message_key_room state k (omega arith),
        )
        (read_message_keys_lem ks (record state { message_keys = state.message_keys ++ (k ∷ []) })
            d.1 (omega (arith, length-append state.message_keys (k ∷ [])))
          ∙ ap (λ l. ok (record state { message_keys = l }))
              (append_assoc state.message_keys (k ∷ []) ks))

  -- Reading what was prepared gives the state back.
  pub deserialize-prepare :
      (state : SenderKeyState)
      → IsWellFormed p state
      → sender_key_state_deserialize_protobuf p (sender_key_state_serialize_prepare state)
        ≡ ok state
  unfolding sender_key_state_deserialize_protobuf sender_key_state_serialize_prepare read_state
      sender_key_state_create
  deserialize-prepare state w =
      rw
        (
          sender_chain_key_create_lem,
          decode-serialize_protobuf state.signature_public_key w.public_size,
          read_private_lem state.signature_private_key w.private_size,
        )
        (read_message_keys_lem state.message_keys (record state { message_keys = [] }) w.derived
          (omega arith))

  -- With an HMAC-SHA256 that always succeeds with 32 bytes and a codec that unpacks what it packs:
  -- sender_key_state_copy of a well-formed state succeeds, with an equal state.
  pub sender_key_state_copy_lem :
      (codec : Codec StateStructure) (state : SenderKeyState)
      → IsCodec codec
      → IsWellFormed p state
      → sender_key_state_copy p codec state ≡ ok state
  unfolding sender_key_state_copy sender_key_state_deserialize
  sender_key_state_copy_lem codec state c w =
      rw
        (
          pack_checked_lem codec c,
          c.unpack-pack (sender_key_state_serialize_prepare state),
          sender_key_state_deserialize,
        )
        (deserialize-prepare state w)
