-- ===== src/SessionChain/Step.antt =====
-- The Diffie-Hellman ratchet: the receiver's step yields the sender's chain, and turns the roles.
use rn_signal_protocol_messa.Base.{ℕ, ◌≡◌, ◌∙◌, refl, ◌-◌, some, none}
use rn_signal_protocol_messa.Status.{ok}
use rn_signal_protocol_messa.Action.{◌>>=◌}
use rn_signal_protocol_messa.Crypto.{Provider, HasMac, Buffer}
use rn_signal_protocol_messa.Curve.{
  PublicKey, KeyPair, curve_generate_key_pair, curve_calculate_agreement,
}
use rn_signal_protocol_messa.Curve.Agreement.{IsPair, HasAgreement, generate_key_pair-IsPair}
use rn_signal_protocol_messa.Ratchet.{RatchetChainKey, RatchetRootKey}
use rn_signal_protocol_messa.Ratchet.Keys.{chain_of, chain_of-IsVersion, create_chain_lem}
use rn_signal_protocol_messa.SessionState.{
  SessionState, session_state_get_sender_ratchet_key_pair, session_state_get_sender_chain_key,
  session_state_set_sender_chain, session_state_set_previous_counter, session_state_set_root_key,
}
use rn_signal_protocol_messa.SessionState.Chains.{
  session_state_get_receiver_chain_key, session_state_find_receiver_chain,
  session_state_add_receiver_chain,
}
use rn_signal_protocol_messa.SessionState.Bounded.{find_receiver_chain-add}
use rn_signal_protocol_messa.SessionState.Ahead.{IsAhead, chain_after, create_chain_swap}
use rn_signal_protocol_messa.SessionChain.{ratchet_step, session_cipher_get_or_create_chain_key}

get_missing :
    (state : SessionState) (theirs : PublicKey)
    → session_state_find_receiver_chain state theirs ≡ none
    → session_state_get_receiver_chain_key state theirs ≡ none
unfolding session_state_get_receiver_chain_key
get_missing state theirs missing = rw (missing, session_state_get_receiver_chain_key)

-- The receiver's state after the step, from its new key pair, root and chain.
abbrev pub stepped :
    (receiver : SessionState)
    → (theirs : PublicKey) → (received : RatchetChainKey) → (previous : RatchetChainKey) → KeyPair
    → RatchetRootKey × RatchetChainKey
    → SessionState
stepped receiver theirs received previous fresh next =
    session_state_set_sender_chain
      (session_state_set_previous_counter
        (session_state_add_receiver_chain (session_state_set_root_key receiver next.0) theirs
          received)
        (previous.index - 1))
      fresh next.1

module _ (p : Provider) (h : HasMac p) (agreement : HasAgreement p) where
  pub stepped_lem :
      (sender receiver : SessionState) (ahead : IsAhead p sender receiver) (n n' : ℕ)
      (fresh : KeyPair) (secret : Buffer)
      → session_state_find_receiver_chain receiver ahead.pair.public_key ≡ none
      → curve_generate_key_pair p n ≡ (ok fresh, n')
      → curve_calculate_agreement p (some ahead.pair.public_key) (some fresh.private_key)
        ≡ ok secret
      → session_cipher_get_or_create_chain_key p receiver ahead.pair.public_key n ≡ (
        ok (
          ahead.first,
          stepped receiver ahead.pair.public_key ahead.first ahead.their_chain fresh
              (chain_of p ahead.root secret),
        ),
        n',
      )
  unfolding session_cipher_get_or_create_chain_key ratchet_step ◌>>=◌
  stepped_lem sender receiver ahead n n' fresh secret new made agreed = simp (
    get_missing receiver ahead.pair.public_key new,
    ahead.has_their_root,
    ahead.has_their_pair,
    ahead.derives,
    made,
    create_chain_lem p h ahead.root ahead.pair.public_key fresh.private_key secret ahead.version
        agreed,
    ahead.has_their_chain,
    session_cipher_get_or_create_chain_key,
    ratchet_step,
  )

  pub stepped-IsAhead :
      (sender receiver : SessionState) (ahead : IsAhead p sender receiver) (fresh : KeyPair)
      (secret : Buffer)
      → IsPair p fresh
      → curve_calculate_agreement p (some ahead.pair.public_key) (some fresh.private_key)
        ≡ ok secret
      → IsAhead p
          (stepped receiver ahead.pair.public_key ahead.first ahead.their_chain fresh
            (chain_of p ahead.root secret))
          sender
  unfolding session_state_set_sender_chain session_state_get_sender_ratchet_key_pair
      session_state_get_sender_chain_key chain_after session_state_add_receiver_chain
  stepped-IsAhead sender receiver ahead fresh secret sound agreed = record {
    pair = fresh;
    their_pair = ahead.pair;
    root = (chain_of p ahead.root secret).0;
    their_root = ahead.root;
    first = (chain_of p ahead.root secret).1;
    sent = 0;
    has_pair = refl;
    has_chain = refl;
    their_chain = chain_after p ahead.sent ahead.first;
    has_their_chain = ahead.has_chain;
    version = (chain_of-IsVersion p ahead.root secret ahead.version).0;
    first_version = (chain_of-IsVersion p ahead.root secret ahead.version).1;
    has_root = refl;
    has_their_pair = ahead.has_pair;
    has_their_root = ahead.has_root;
    derives =
        create_chain_swap p ahead.root fresh ahead.pair agreement sound ahead.sound
        ∙ create_chain_lem p h ahead.root ahead.pair.public_key fresh.private_key secret
            ahead.version agreed;
    sound = sound;
  }

  -- The receiver of a sender that is ahead does not know the sender's ratchet key yet. Where a new
  -- key pair can be made and agrees with that key, the call succeeds. It returns the chain key that
  -- the sender's chain began with and finds it again afterwards, and the receiver is now ahead of
  -- the sender in turn, with the chain that it left behind counted.
  pub get_or_create_chain_key-IsAhead :
      (sender receiver : SessionState) (ahead : IsAhead p sender receiver) (n n' : ℕ)
      (fresh : KeyPair) (secret : Buffer)
      → session_state_find_receiver_chain receiver ahead.pair.public_key ≡ none
      → curve_generate_key_pair p n ≡ (ok fresh, n')
      → curve_calculate_agreement p (some ahead.pair.public_key) (some fresh.private_key)
        ≡ ok secret
      → (receiver' : SessionState) × (session_cipher_get_or_create_chain_key p receiver
            ahead.pair.public_key n
          ≡ (ok (ahead.first, receiver'), n'))
        × IsAhead p receiver' sender
        × (session_state_get_receiver_chain_key receiver' ahead.pair.public_key ≡ some ahead.first)
        × (receiver'.previous_counter ≡ ahead.their_chain.index - 1)
  unfolding session_state_set_sender_chain session_state_add_receiver_chain
      session_state_get_receiver_chain_key session_state_find_receiver_chain
  get_or_create_chain_key-IsAhead sender receiver ahead n n' fresh secret new made agreed = (
    stepped receiver ahead.pair.public_key ahead.first ahead.their_chain fresh
        (chain_of p ahead.root secret),
    stepped_lem sender receiver ahead n n' fresh secret new made agreed,
    stepped-IsAhead sender receiver ahead fresh secret (generate_key_pair-IsPair p n n' fresh made)
        agreed,
    rw (
      find_receiver_chain-add (session_state_set_root_key receiver (chain_of p ahead.root secret).0)
          ahead.pair.public_key ahead.first new,
      session_state_get_receiver_chain_key,
    ),
    refl,
  )
