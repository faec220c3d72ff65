-- ===== src/Examples/Bytes.antt =====
-- Runs of the byte formats and of the key derivation.
use rn_signal_protocol_messa.Base.{◌≡◌, refl, [], ◌∷◌, ◌++◌, take, replicate, arith, some}
use rn_signal_protocol_messa.Status as Status
use rn_signal_protocol_messa.Status.{ok}
use rn_signal_protocol_messa.Crypto.{Buffer, mac, pack_checked}
use rn_signal_protocol_messa.Curve.{KeyPair, curve_generate_key_pair, curve_calculate_signature}
use rn_signal_protocol_messa.Curve.Generate.{curve_generate_key_pair_lem}
use rn_signal_protocol_messa.Hkdf.{hkdf_derive_secrets, hkdf_create}
use rn_signal_protocol_messa.Hkdf.Output.{blocks_from, hkdf_derive_secrets_lem, rfc_blocks}
use rn_signal_protocol_messa.GroupMessage.{
  SenderKeyMessage, sender_key_message_deserialize, sender_key_message_create,
  sender_key_message_verify_signature, sender_key_distribution_message_deserialize,
}
use rn_signal_protocol_messa.GroupMessage.RoundTrip.{
  deserialize-create, distribution_deserialize-create, distribution_create_lem, distribution_made,
}
use rn_signal_protocol_messa.Store.{
  signal_protocol_sender_key_load_key, World, signal_protocol_sender_key_store_key,
}
use rn_signal_protocol_messa.Store.Laws.{load-store}
use rn_signal_protocol_messa.Examples.Setting.{
  context, context-IsContext, context-HasSignature, message_codec, distribution_codec,
  first_chain_key, pair, sender_state, record_of, sender-IsWellFormed, alice, empty_world, Map,
}
use rn_signal_protocol_messa.Action.{◌>>=◌}
use rn_signal_protocol_messa.Examples.Trivial.{trivial, pad}

-- The sixth request of the random source gives bytes of value 5, and the masks make 0 and 69 of two.
abbrev made_scalar : Buffer
made_scalar = 0 ∷ (replicate 30 5 ++ (69 ∷ []))

abbrev pub made_pair : KeyPair
made_pair = record {
  public_key = record { point = made_scalar };
  private_key = record { scalar = made_scalar };
}

-- The public half is the first 32 bytes of the private one, for the provider of the examples.
point_made : context.provider.donna made_scalar (9 ∷ replicate 31 0) ≡ some made_scalar
unfolding context trivial pad
point_made = refl

bytes_drawn : context.provider.random 5 32 ≡ ok (5 ∷ (replicate 30 5 ++ (5 ∷ [])))
unfolding context trivial
bytes_drawn = refl

curve_generate_key_pair_lem_example : curve_generate_key_pair context.provider 5 ≡ (ok made_pair, 6)
curve_generate_key_pair_lem_example =
    curve_generate_key_pair_lem context.provider 5 5 5 (replicate 30 5) (some made_scalar)
      bytes_drawn (omega arith) (omega arith) refl point_made

hkdf_derive_secrets_lem_example :
    ((Status.◌>>=◌
        (hkdf_create 3)
        λ h. hkdf_derive_secrets context.provider h (1 ∷ []) (2 ∷ []) (3 ∷ []) 48)
      ≡ ok (
          take 48
            (rfc_blocks context.provider (mac context.provider (2 ∷ []) (1 ∷ [])) (3 ∷ []) 2)))
    × ((Status.◌>>=◌
          (hkdf_create 2)
          λ h. hkdf_derive_secrets context.provider h (1 ∷ []) (2 ∷ []) (3 ∷ []) 48)
        ≡ ok (
            take 48
              (blocks_from context.provider (mac context.provider (2 ∷ []) (1 ∷ [])) (3 ∷ []) 0 2)))
hkdf_derive_secrets_lem_example =
    hkdf_derive_secrets_lem context.provider (1 ∷ []) (2 ∷ []) (3 ∷ []) 48 context-IsContext.has_mac
      (omega arith)

load-store_example :
    (w' : World Map) × (signal_protocol_sender_key_store_key context alice
        (record_of sender_state)
        empty_world
      ≡ (ok tt, w'))
    × (signal_protocol_sender_key_load_key context alice w' ≡ (ok (record_of sender_state), w'))
load-store_example =
    load-store context context-IsContext alice (record_of sender_state) empty_world
      sender-IsWellFormed

abbrev small : SenderKeyMessage
small = record {
  message_version = 3;
  key_id = 9;
  iteration = 4;
  ciphertext = 1 ∷ [];
  serialized =
      51
      ∷ 1
      ∷ 9
      ∷ 1
      ∷ 4
      ∷ 1
      ∷ 1
      ∷ 1
      ∷ (replicate 32 8 ++ (51 ∷ 1 ∷ 9 ∷ 1 ∷ 4 ∷ 1 ∷ 1 ∷ 1 ∷ replicate 24 0));
}

small_created :
    sender_key_message_create context.provider context.message_codec 9 4 (1 ∷ []) pair.private_key 0
    ≡ (ok small, 1)
unfolding sender_key_message_create ◌>>=◌ pack_checked context curve_calculate_signature trivial
small_created = refl

deserialize-create_example :
    (sender_key_message_deserialize context.message_codec small.serialized ≡ ok small)
    × (sender_key_message_verify_signature context.provider small pair.public_key ≡ ok tt)
    × (small.key_id ≡ 9)
    × (small.iteration ≡ 4)
    × (small.ciphertext ≡ 1 ∷ [])
deserialize-create_example =
    deserialize-create context.provider context.message_codec message_codec 9 4 (1 ∷ []) pair 0 1
      small context-HasSignature small_created

distribution_deserialize-create_example :
    sender_key_distribution_message_deserialize context.distribution_codec
      (distribution_made context.distribution_codec 9 4 first_chain_key pair.public_key).serialized
    ≡ ok (distribution_made context.distribution_codec 9 4 first_chain_key pair.public_key)
distribution_deserialize-create_example =
    distribution_deserialize-create context.distribution_codec 9 4 first_chain_key pair.public_key
      (distribution_made context.distribution_codec 9 4 first_chain_key pair.public_key)
      distribution_codec.laws refl (distribution_codec.filled 9 4 first_chain_key pair.public_key)
      (distribution_create_lem context.distribution_codec 9 4 first_chain_key pair.public_key
        distribution_codec.laws)
