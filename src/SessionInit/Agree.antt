-- ===== src/SessionInit/Agree.antt =====
-- What Alice and Bob hold after they set up a session.
use rn_signal_protocol_messa.Base.{◌≡◌, refl, Option, some, none}
use rn_signal_protocol_messa.Crypto.{Provider}
use rn_signal_protocol_messa.Curve.{PublicKey, KeyPair}
use rn_signal_protocol_messa.Curve.Agreement.{IsPair, HasAgreement}
use rn_signal_protocol_messa.Ratchet.{IdentityKeyPair}
use rn_signal_protocol_messa.SessionInit.{
  AliceParameters, BobParameters, agree_alice, agree_bob, alice_secret, bob_secret,
}

abbrev pub pair_of : IdentityKeyPair → KeyPair
pair_of identity = record { public_key = identity.public_key; private_key = identity.private_key }

-- The public half of the one-time pre key.
abbrev pub public_half : Option KeyPair → Option PublicKey
public_half none = none
public_half (some pair) = some pair.public_key

abbrev pub IsOptionalPair : Provider → Option KeyPair → Type 0
IsOptionalPair p none = Unit
IsOptionalPair p (some pair) = IsPair p pair

-- The keys of both sides.
pub record Parties : Type 0 where
  pub alice_identity : IdentityKeyPair
  pub alice_base : KeyPair
  pub bob_identity : IdentityKeyPair
  pub bob_signed_pre_key : KeyPair
  pub bob_one_time_pre_key : Option KeyPair
  pub bob_ratchet : KeyPair

pub record ArePairs (p : Provider) (k : Parties) : Type 0 where
  pub alice_identity : IsPair p (pair_of k.alice_identity)
  pub alice_base : IsPair p k.alice_base
  pub bob_identity : IsPair p (pair_of k.bob_identity)
  pub bob_signed_pre_key : IsPair p k.bob_signed_pre_key
  pub bob_one_time_pre_key : IsOptionalPair p k.bob_one_time_pre_key
  pub bob_ratchet : IsPair p k.bob_ratchet

-- Each side knows its own keys and the public halves of the others.
abbrev pub alice_of : Parties → AliceParameters
alice_of k = record {
  our_identity_key = k.alice_identity;
  our_base_key = k.alice_base;
  their_identity_key = k.bob_identity.public_key;
  their_signed_pre_key = k.bob_signed_pre_key.public_key;
  their_one_time_pre_key = public_half k.bob_one_time_pre_key;
  their_ratchet_key = k.bob_ratchet.public_key;
}

abbrev pub bob_of : Parties → BobParameters
bob_of k = record {
  our_identity_key = k.bob_identity;
  our_signed_pre_key = k.bob_signed_pre_key;
  our_one_time_pre_key = k.bob_one_time_pre_key;
  our_ratchet_key = k.bob_ratchet;
  their_identity_key = k.alice_identity.public_key;
  their_base_key = k.alice_base.public_key;
}

module _ (p : Provider) (agreement : HasAgreement p) (k : Parties) (pairs : ArePairs p k) where
  one_time_agreed :
      (one_time : Option KeyPair)
      → IsOptionalPair p one_time
      → agree_alice p (public_half one_time) k.alice_base.private_key
        ≡ agree_bob p k.alice_base.public_key one_time
  unfolding agree_alice agree_bob
  one_time_agreed none h = refl
  one_time_agreed (some pair) h = agreement.commutes k.alice_base pair pairs.alice_base h

  -- Both sides compute one secret, or one error.
  pub secret_agreed : alice_secret p (alice_of k) ≡ bob_secret p (bob_of k)
  unfolding alice_secret bob_secret
  secret_agreed = rw (
    agreement.commutes (pair_of k.alice_identity) k.bob_signed_pre_key pairs.alice_identity
        pairs.bob_signed_pre_key,
    agreement.commutes k.alice_base (pair_of k.bob_identity) pairs.alice_base pairs.bob_identity,
    agreement.commutes k.alice_base k.bob_signed_pre_key pairs.alice_base pairs.bob_signed_pre_key,
    one_time_agreed k.bob_one_time_pre_key pairs.bob_one_time_pre_key,
  )
