-- ===== src/SessionInit/First.antt =====
-- The states of Alice and Bob after they set up a session.
use rn_signal_protocol_messa.Base.{ℕ, ◌≡◌, some}
use rn_signal_protocol_messa.Status.{ok}
use rn_signal_protocol_messa.Action.{◌>>=◌}
use rn_signal_protocol_messa.Crypto.{Buffer, Provider, HasMac}
use rn_signal_protocol_messa.Curve.{
  PublicKey, KeyPair, curve_generate_key_pair, curve_calculate_agreement,
}
use rn_signal_protocol_messa.Curve.Agreement.{IsPair}
use rn_signal_protocol_messa.Ratchet.{
  RatchetChainKey, RatchetRootKey, ratchet_root_key_create_chain,
}
use rn_signal_protocol_messa.Ratchet.Keys.{
  first_keys_of, first_keys_of-IsVersion, calculate_derived_keys_lem, chain_of, create_chain_lem,
}
use rn_signal_protocol_messa.SessionState.{SessionState, session_state_get_sender_chain_key}
use rn_signal_protocol_messa.SessionState.Chains.{
  session_state_get_receiver_chain_key, session_state_add_receiver_chain,
}
use rn_signal_protocol_messa.GroupMessage.{current_version}
use rn_signal_protocol_messa.SessionInit.{
  AliceParameters, alice_secret, settle, ratcheting_session_alice_initialize,
}

-- Each side takes the other's identity for what the other takes it, and Alice reads what Bob sends.
pub record AreMatched (alice bob : SessionState) (bob_ratchet : PublicKey) : Type 0 where
  pub version : alice.session_version ≡ current_version
  pub same_version : bob.session_version ≡ alice.session_version
  pub alice_identity : bob.remote_identity_public ≡ alice.local_identity_public
  pub bob_identity : alice.remote_identity_public ≡ bob.local_identity_public
  pub readable :
      session_state_get_receiver_chain_key alice bob_ratchet
      ≡ session_state_get_sender_chain_key bob

-- What Alice's call did, where it succeeded.
record Began (p : Provider) (alice alice' : SessionState) (a : AliceParameters) : Type 0 where
  pair : KeyPair
  secret : Buffer
  root : RatchetRootKey
  chain : RatchetChainKey
  sound : IsPair p pair
  agreed : alice_secret p a ≡ ok secret
  derives :
      ratchet_root_key_create_chain p
        (first_keys_of p secret).0
        (some a.their_ratchet_key)
        (some pair.private_key)
      ≡ ok (root, chain)
  left :
      settle
        (session_state_add_receiver_chain alice a.their_ratchet_key (first_keys_of p secret).1)
        a.their_identity_key
        a.our_identity_key
        pair
        chain
        root
      ≡ alice'

module _ (p : Provider) (h : HasMac p) where
  -- Alice's call, where it has what it needs.
  pub alice_initialize_made :
      (alice : SessionState) (a : AliceParameters) (n n' : ℕ) (pair : KeyPair)
      (secret shared : Buffer)
      → curve_generate_key_pair p n ≡ (ok pair, n')
      → alice_secret p a ≡ ok secret
      → curve_calculate_agreement p (some a.their_ratchet_key) (some pair.private_key) ≡ ok shared
      → ratcheting_session_alice_initialize p alice a n ≡ (
        ok (
            settle
              (session_state_add_receiver_chain alice a.their_ratchet_key
                (first_keys_of p secret).1)
              a.their_identity_key
              a.our_identity_key
              pair
              (chain_of p (first_keys_of p secret).0 shared).1
              (chain_of p (first_keys_of p secret).0 shared).0),
        n',
      )
  unfolding ratcheting_session_alice_initialize ◌>>=◌
  alice_initialize_made alice a n n' pair secret shared made agreed met = rw (
    made,
    agreed,
    calculate_derived_keys_lem p h secret,
    create_chain_lem p h (first_keys_of p secret).0 a.their_ratchet_key pair.private_key shared
        (first_keys_of-IsVersion p secret).0 met,
  )
