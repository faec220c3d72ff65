-- ===== src/Examples/Begin.antt =====
-- Alice and Bob set up a session.
use rn_signal_protocol_messa.Base.{some, replicate}
use rn_signal_protocol_messa.Crypto.{Buffer}
use rn_signal_protocol_messa.Curve.{KeyPair}
use rn_signal_protocol_messa.Ratchet.{IdentityKeyPair}
use rn_signal_protocol_messa.Ratchet.Keys.{first_keys_of, chain_of}
use rn_signal_protocol_messa.SessionState.{SessionState}
use rn_signal_protocol_messa.SessionState.Chains.{session_state_add_receiver_chain}
use rn_signal_protocol_messa.SessionInit.{settle, secret_of}
use rn_signal_protocol_messa.SessionInit.Agree.{Parties}
use rn_signal_protocol_messa.Examples.Exchange.{exchange, add}
use rn_signal_protocol_messa.Examples.Pairwise.{of_scalar, blank, fresh}

abbrev identity : KeyPair → IdentityKeyPair
identity pair = record { public_key = pair.public_key; private_key = pair.private_key }

abbrev parties : Parties
parties = record {
  alice_identity = identity (of_scalar (replicate 32 1));
  alice_base = of_scalar (replicate 32 2);
  bob_identity = identity (of_scalar (replicate 32 3));
  bob_signed_pre_key = of_scalar (replicate 32 4);
  bob_one_time_pre_key = some (of_scalar (replicate 32 5));
  bob_ratchet = of_scalar (replicate 32 4);
}

-- The secret of a private and a public key.
abbrev met : (ours theirs : KeyPair) → Buffer
met ours theirs = add 32 ours.private_key.scalar theirs.public_key.point

abbrev secret : Buffer
secret =
    secret_of (met (of_scalar (replicate 32 1)) (of_scalar (replicate 32 4)))
      (met (of_scalar (replicate 32 2)) (of_scalar (replicate 32 3)))
      (met (of_scalar (replicate 32 2)) (of_scalar (replicate 32 4)))
      (met (of_scalar (replicate 32 2)) (of_scalar (replicate 32 5)))

abbrev shared : Buffer
shared = met fresh (of_scalar (replicate 32 4))

alice_state : SessionState
unfolding settle
alice_state =
    settle
      (session_state_add_receiver_chain blank parties.bob_ratchet.public_key
        (first_keys_of exchange secret).1)
      parties.bob_identity.public_key parties.alice_identity fresh
      (chain_of exchange (first_keys_of exchange secret).0 shared).1
      (chain_of exchange (first_keys_of exchange secret).0 shared).0
