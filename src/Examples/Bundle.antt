-- ===== src/Examples/Bundle.antt =====
-- A client that trusts every identity, and a bundle of keys that it starts a session from.
use rn_signal_protocol_messa.Base.{ℕ, suc, ◌≡◌, none, some, [], ◌∷◌, ◌++◌, replicate, refl}
use rn_signal_protocol_messa.Status.{ok}
use rn_signal_protocol_messa.Action.{◌>>=◌}
use rn_signal_protocol_messa.Crypto.{Buffer, pack_checked}
use rn_signal_protocol_messa.Curve.{
  PublicKey, ec_public_key_serialize, curve_verify_signature, curve_generate_key_pair,
  curve_decode_point, curve_decode_private_point, curve_calculate_agreement,
  ec_public_key_serialize_protobuf, ec_private_key_serialize_protobuf,
}
use rn_signal_protocol_messa.PreKey.{SessionPreKeyBundle}
use rn_signal_protocol_messa.KeyStore.{
  KeyStores, signal_protocol_identity_get_key_pair,
  signal_protocol_identity_get_local_registration_id, signal_protocol_identity_save_identity,
}
use rn_signal_protocol_messa.SessionStore.{
  Address, signal_protocol_session_load_session, signal_protocol_session_store_session,
}
use rn_signal_protocol_messa.SessionBuilder.{session_builder_process_pre_key_bundle}
use rn_signal_protocol_messa.SessionBuilder.Verified.{
  IsTrusted, IsSigned, process_pre_key_bundle-verified,
}
use rn_signal_protocol_messa.Examples.Format.{codec}
use rn_signal_protocol_messa.Examples.PreKeys.{pre_key_format, signed_pre_key_format}
use rn_signal_protocol_messa.Examples.Service.{counting, world}
use rn_signal_protocol_messa.Examples.Trivial.{pad}
use rn_signal_protocol_messa.Examples.Exchange.{exchange}
use rn_signal_protocol_messa.SessionInit.{
  alice_signal_protocol_parameters_create, ratcheting_session_alice_initialize,
}
use rn_signal_protocol_messa.SessionRecord.{
  session_record_create, session_record_serialize, SessionRecord,
}
use rn_signal_protocol_messa.Ratchet.{
  ratcheting_session_calculate_derived_keys, ratchet_root_key_create_chain,
}
use rn_signal_protocol_messa.Hkdf.{hkdf_create, hkdf_derive_secrets, hkdf_extract, hkdf_expand}
use rn_signal_protocol_messa.SessionState.Structure.{session_state_serialize_prepare}
use rn_signal_protocol_messa.SessionState.Chains.{session_state_add_receiver_chain}
use rn_signal_protocol_messa.SessionState.{session_state_set_unacknowledged_pre_key_message}
use rn_signal_protocol_messa.PreKeyMessage.{PreKeySignalMessage}
use rn_signal_protocol_messa.Examples.Pairwise.{message}

unfoldable trusting : KeyStores ℕ
trusting = record {
  pre_key_codec = codec pre_key_format;
  signed_pre_key_codec = codec signed_pre_key_format;
  pre_key_store = record {
    load_pre_key = λ id n. (ok [], n);
    store_pre_key = λ id bytes n. (ok tt, suc n);
    contains_pre_key = λ id n. (ok 0, n);
    remove_pre_key = λ id n. (ok tt, suc n);
  };
  signed_pre_key_store = record {
    load_signed_pre_key = λ id n. (ok [], n);
    store_signed_pre_key = λ id bytes n. (ok tt, suc n);
    contains_signed_pre_key = λ id n. (ok 0, n);
    remove_signed_pre_key = λ id n. (ok tt, suc n);
  };
  identity_key_store = record {
    get_identity_key_pair = λ n. (ok (5 ∷ replicate 32 4, replicate 32 4), n);
    get_local_registration_id = λ n. (ok 3, n);
    save_identity = λ address bytes n. (ok tt, suc n);
    is_trusted_identity = λ address bytes n. (ok 1, n);
  };
}

abbrev their_address : Address
their_address = record { name = 1 ∷ []; device_id = 2 }

abbrev their_identity : PublicKey
their_identity = record { point = replicate 32 9 }

abbrev their_signed_pre_key : PublicKey
their_signed_pre_key = record { point = replicate 32 7 }

abbrev their_signature : Buffer
their_signature = pad 64 (replicate 32 9 ++ (5 ∷ replicate 32 7))

abbrev bundle : SessionPreKeyBundle
bundle = record {
  registration_id = 11;
  device_id = 2;
  pre_key_id = 0;
  pre_key_public = none;
  signed_pre_key_id = 21;
  signed_pre_key_public = some their_signed_pre_key;
  signed_pre_key_signature = some their_signature;
  identity_key = some their_identity;
}

bundle_taken :
    (session_builder_process_pre_key_bundle counting trusting their_address bundle world).0 ≡ ok tt
unfolding session_builder_process_pre_key_bundle ◌>>=◌ counting trusting ec_public_key_serialize
    curve_verify_signature pad exchange signal_protocol_session_load_session curve_generate_key_pair
    signal_protocol_identity_get_key_pair curve_decode_point curve_decode_private_point
    alice_signal_protocol_parameters_create session_record_create
    ratcheting_session_alice_initialize curve_calculate_agreement
    ratcheting_session_calculate_derived_keys hkdf_create hkdf_derive_secrets
    ratchet_root_key_create_chain hkdf_extract hkdf_expand
    signal_protocol_identity_get_local_registration_id signal_protocol_session_store_session
    session_record_serialize pack_checked session_state_serialize_prepare
    session_state_set_unacknowledged_pre_key_message ec_public_key_serialize_protobuf
    ec_private_key_serialize_protobuf session_state_add_receiver_chain
    signal_protocol_identity_save_identity
bundle_taken = refl

process_pre_key_bundle-verified_example :
    (key signed_pre_key : PublicKey) × (signature : Buffer) × (bundle.identity_key ≡ some key)
    × (bundle.signed_pre_key_public ≡ some signed_pre_key)
    × (bundle.signed_pre_key_signature ≡ some signature)
    × IsTrusted counting trusting their_address 12 key
    × IsSigned counting.provider key signed_pre_key signature
process_pre_key_bundle-verified_example =
    process_pre_key_bundle-verified counting trusting their_address bundle world bundle_taken

abbrev scalar : Buffer
scalar = replicate 32 6

-- A client that also has a signed pre key and a one-time pre key.
unfoldable serving : KeyStores ℕ
unfolding trusting
serving = record trusting {
  pre_key_store = record {
    load_pre_key = λ id n. (
      ok (
          (codec pre_key_format).pack
            (record { id = some id; publickey = some (5 ∷ scalar); privatekey = some scalar })),
      n,
    );
    store_pre_key = λ id bytes n. (ok tt, suc n);
    contains_pre_key = λ id n. (ok 1, n);
    remove_pre_key = λ id n. (ok tt, suc n);
  };
  signed_pre_key_store = record {
    load_signed_pre_key = λ id n. (
      ok (
          (codec signed_pre_key_format).pack (record {
            id = some id;
            publickey = some (5 ∷ scalar);
            privatekey = some scalar;
            signature = some (1 ∷ []);
            timestamp = some 7;
          })),
      n,
    );
    store_signed_pre_key = λ id bytes n. (ok tt, suc n);
    contains_signed_pre_key = λ id n. (ok 1, n);
    remove_signed_pre_key = λ id n. (ok tt, suc n);
  };
}

abbrev first_message : PreKeySignalMessage
first_message = record {
  version = 3;
  registration_id = 11;
  pre_key_id = some 31;
  signed_pre_key_id = 21;
  base_key = their_signed_pre_key;
  identity_key = their_identity;
  message = message;
  serialized = [];
}
