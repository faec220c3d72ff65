-- ===== src/SessionInit.antt =====
-- ratchet.c: the first keys of a session, on the side that starts it (Alice) and on the side that is
-- addressed (Bob). The parameters are records; their null tests stand in the functions that make
-- them.
pub mod Agree
pub mod First
use rn_signal_protocol_messa.Base.{
  ℕ, Option, none, some, [], ◌++◌, length, replicate, ltb, if◌then◌else◌,
}
use rn_signal_protocol_messa.Status.{Result, ok, err, inval, unknown, guard}
use rn_signal_protocol_messa.Status as Status
use rn_signal_protocol_messa.Action.{Action, pure, lift, ◌>>=◌}
use rn_signal_protocol_messa.Crypto.{Buffer, Provider}
use rn_signal_protocol_messa.Curve.{
  PublicKey, PrivateKey, KeyPair, curve_calculate_agreement, curve_generate_key_pair,
  ec_public_key_memcmp,
}
use rn_signal_protocol_messa.GroupMessage.{current_version}
use rn_signal_protocol_messa.Ratchet.{
  RatchetChainKey, RatchetRootKey, IdentityKeyPair, ratcheting_session_calculate_derived_keys,
  ratchet_root_key_create_chain,
}
use rn_signal_protocol_messa.SessionState.{
  SessionState, session_state_set_session_version, session_state_set_remote_identity_key,
  session_state_set_local_identity_key, session_state_set_sender_chain, session_state_set_root_key,
}
use rn_signal_protocol_messa.SessionState.Chains.{session_state_add_receiver_chain}

pub record SymmetricParameters : Type 0 where
  pub our_identity_key : IdentityKeyPair
  pub our_base_key : KeyPair
  pub our_ratchet_key : KeyPair
  pub their_base_key : PublicKey
  pub their_ratchet_key : PublicKey
  pub their_identity_key : PublicKey

pub record AliceParameters : Type 0 where
  pub our_identity_key : IdentityKeyPair
  pub our_base_key : KeyPair
  pub their_identity_key : PublicKey
  pub their_signed_pre_key : PublicKey
  pub their_one_time_pre_key : Option PublicKey
  pub their_ratchet_key : PublicKey

pub record BobParameters : Type 0 where
  pub our_identity_key : IdentityKeyPair
  pub our_signed_pre_key : KeyPair
  pub our_one_time_pre_key : Option KeyPair
  pub our_ratchet_key : KeyPair
  pub their_identity_key : PublicKey
  pub their_base_key : PublicKey

unfoldable pub symmetric_signal_protocol_parameters_create :
    Option IdentityKeyPair
    → (our_base_key our_ratchet_key : Option KeyPair)
    → (their_base_key their_ratchet_key their_identity_key : Option PublicKey)
    → Result SymmetricParameters
symmetric_signal_protocol_parameters_create (some our_identity_key) (some our_base_key)
      (some our_ratchet_key) (some their_base_key) (some their_ratchet_key)
      (some their_identity_key) =
    ok (record {
      our_identity_key = our_identity_key;
      our_base_key = our_base_key;
      our_ratchet_key = our_ratchet_key;
      their_base_key = their_base_key;
      their_ratchet_key = their_ratchet_key;
      their_identity_key = their_identity_key;
    })
symmetric_signal_protocol_parameters_create _ _ _ _ _ _ = err inval

-- Only the one-time pre key may be null.
unfoldable pub alice_signal_protocol_parameters_create :
    Option IdentityKeyPair
    → Option KeyPair
    → (their_identity_key : Option PublicKey)
    → (their_signed_pre_key their_one_time_pre_key their_ratchet_key : Option PublicKey)
    → Result AliceParameters
alice_signal_protocol_parameters_create (some our_identity_key) (some our_base_key)
      (some their_identity_key) (some their_signed_pre_key) their_one_time_pre_key
      (some their_ratchet_key) =
    ok (record {
      our_identity_key = our_identity_key;
      our_base_key = our_base_key;
      their_identity_key = their_identity_key;
      their_signed_pre_key = their_signed_pre_key;
      their_one_time_pre_key = their_one_time_pre_key;
      their_ratchet_key = their_ratchet_key;
    })
alice_signal_protocol_parameters_create _ _ _ _ _ _ = err inval

unfoldable pub bob_signal_protocol_parameters_create :
    Option IdentityKeyPair
    → (our_signed_pre_key our_one_time_pre_key our_ratchet_key : Option KeyPair)
    → (their_identity_key their_base_key : Option PublicKey) → Result BobParameters
bob_signal_protocol_parameters_create (some our_identity_key) (some our_signed_pre_key)
      our_one_time_pre_key (some our_ratchet_key) (some their_identity_key) (some their_base_key) =
    ok (record {
      our_identity_key = our_identity_key;
      our_signed_pre_key = our_signed_pre_key;
      our_one_time_pre_key = our_one_time_pre_key;
      our_ratchet_key = our_ratchet_key;
      their_identity_key = their_identity_key;
      their_base_key = their_base_key;
    })
bob_signal_protocol_parameters_create _ _ _ _ _ _ = err inval

-- `discontinuity_data` and what is appended to it
abbrev pub secret_of : (first second third fourth : Buffer) → Buffer
secret_of first second third fourth = replicate 32 255 ++ (first ++ (second ++ (third ++ fourth)))

-- What both sides set at the end.
unfoldable pub settle :
    SessionState
    → (their_identity_key : PublicKey) → IdentityKeyPair
    → KeyPair
    → RatchetChainKey
    → RatchetRootKey
    → SessionState
unfolding session_state_set_sender_chain
settle state their_identity_key our_identity_key ratchet_key chain_key root_key =
    session_state_set_root_key
      (session_state_set_sender_chain
        (session_state_set_local_identity_key
          (session_state_set_remote_identity_key
            (session_state_set_session_version state current_version) their_identity_key)
          our_identity_key.public_key)
        ratchet_key chain_key)
      root_key

module _ (p : Provider) where
  abbrev pub agree : PublicKey → PrivateKey → Result Buffer
  agree theirs ours = curve_calculate_agreement p (some theirs) (some ours)

  -- The agreement with the one-time pre key, if there is one.
  unfoldable pub agree_alice : Option PublicKey → PrivateKey → Result Buffer
  agree_alice none ours = ok []
  agree_alice (some theirs) ours = agree theirs ours

  unfoldable pub agree_bob : PublicKey → Option KeyPair → Result Buffer
  agree_bob theirs none = ok []
  agree_bob theirs (some ours) = agree theirs ours.private_key

  unfoldable pub alice_secret : AliceParameters → Result Buffer
  unfolding agree_alice
  alice_secret a =
      Status.◌>>=◌ (agree a.their_signed_pre_key a.our_identity_key.private_key) λ first.
        Status.◌>>=◌ (agree a.their_identity_key a.our_base_key.private_key) λ second.
          Status.◌>>=◌ (agree a.their_signed_pre_key a.our_base_key.private_key) λ third.
            Status.◌>>=◌ (agree_alice a.their_one_time_pre_key a.our_base_key.private_key) λ fourth.
              Status.◌>>◌ (guard (ltb 0 (length (secret_of first second third fourth))) unknown)
                (ok (secret_of first second third fourth))

  unfoldable pub bob_secret : BobParameters → Result Buffer
  unfolding agree_bob
  bob_secret b = Status.◌>>=◌ (agree b.their_identity_key b.our_signed_pre_key.private_key) λ first.
      Status.◌>>=◌ (agree b.their_base_key b.our_identity_key.private_key) λ second.
        Status.◌>>=◌ (agree b.their_base_key b.our_signed_pre_key.private_key) λ third.
          Status.◌>>=◌ (agree_bob b.their_base_key b.our_one_time_pre_key) λ fourth.
            Status.◌>>◌ (guard (ltb 0 (length (secret_of first second third fourth))) unknown)
              (ok (secret_of first second third fourth))

  unfoldable pub ratcheting_session_alice_initialize :
      SessionState → AliceParameters → Action ℕ SessionState
  unfolding alice_secret settle
  ratcheting_session_alice_initialize state a = do
    sending_ratchet_key ← curve_generate_key_pair p
    secret ← lift (alice_secret a)
    (derived_root, derived_chain) ← lift (ratcheting_session_calculate_derived_keys p secret)
    (sending_chain_root, sending_chain_key) ← lift (
        ratchet_root_key_create_chain p derived_root (some a.their_ratchet_key)
          (some sending_ratchet_key.private_key))
    pure (
        settle (session_state_add_receiver_chain state a.their_ratchet_key derived_chain)
          a.their_identity_key a.our_identity_key sending_ratchet_key sending_chain_key
          sending_chain_root)

  unfoldable pub ratcheting_session_bob_initialize :
      SessionState → BobParameters → Result SessionState
  unfolding bob_secret settle
  ratcheting_session_bob_initialize state b = Status.◌>>=◌ (bob_secret b) λ secret.
      Status.◌>>=◌ (ratcheting_session_calculate_derived_keys p secret)
        λ (derived_root, derived_chain). ok (
          settle state b.their_identity_key b.our_identity_key b.our_ratchet_key derived_chain
            derived_root)

  -- Both sides hold the same two base keys, and the smaller one is Alice's.
  unfoldable pub ratcheting_session_symmetric_initialize :
      SessionState → SymmetricParameters → Action ℕ SessionState
  unfolding ratcheting_session_alice_initialize ratcheting_session_bob_initialize
      alice_signal_protocol_parameters_create bob_signal_protocol_parameters_create
  ratcheting_session_symmetric_initialize state s =
      let as_alice =
        lift (
          alice_signal_protocol_parameters_create (some s.our_identity_key) (some s.our_base_key)
            (some s.their_identity_key) (some s.their_base_key) none (some s.their_ratchet_key))
        >>= λ a. ratcheting_session_alice_initialize state a in
      let as_bob =
        lift (
          bob_signal_protocol_parameters_create (some s.our_identity_key) (some s.our_base_key) none
            (some s.our_ratchet_key) (some s.their_identity_key) (some s.their_base_key))
        >>= λ b. lift (ratcheting_session_bob_initialize state b) in
      if ec_public_key_memcmp s.our_base_key.public_key s.their_base_key then as_alice else as_bob
