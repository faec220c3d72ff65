-- ===== src/SessionState/Ahead.antt =====
-- Two ends of one session: what one end sends on can be derived by the other end.
use rn_signal_protocol_messa.Base.{
  ℕ, ◌+◌, ◌^◌, ◌<◌, zero, suc, ◌≡◌, ◌∙◌, refl, sym, ap, subst, some, inl, inr, arith, List,
}
use rn_signal_protocol_messa.Status.{ok, Result-cases, ok_injective}
use rn_signal_protocol_messa.Crypto.{Provider, HasMac}
use rn_signal_protocol_messa.Curve.{KeyPair, PublicKey, curve_calculate_agreement, PrivateKey}
use rn_signal_protocol_messa.Curve.Agreement.{IsPair, HasAgreement}
use rn_signal_protocol_messa.Ratchet.{
  RatchetChainKey, RatchetRootKey, ratchet_root_key_create_chain,
}
use rn_signal_protocol_messa.Ratchet.Keys.{next_of, IsVersion, chain_of, create_chain_lem}
use rn_signal_protocol_messa.SessionState.{
  SessionState, session_state_get_sender_ratchet_key_pair, session_state_get_sender_chain_key,
  session_state_clear_unacknowledged_pre_key_message, ReceiverChain,
}

-- The chain key after some messages.
unfoldable pub chain_after : Provider → (sent : ℕ) → RatchetChainKey → RatchetChainKey
chain_after p zero first = first
chain_after p (suc sent) first = next_of p (chain_after p sent first)

module _ (p : Provider) where
  pub chain_after_next :
      (n : ℕ) (first : RatchetChainKey)
      → chain_after p n (next_of p first) ≡ chain_after p (suc n) first
  unfolding chain_after
  chain_after_next zero first = refl
  chain_after_next (suc n) first = ap (next_of p) (chain_after_next n first)

  pub kdf_of_chain_after :
      (n : ℕ) (first : RatchetChainKey) → (chain_after p n first).kdf ≡ first.kdf
  unfolding chain_after
  kdf_of_chain_after zero first = refl
  kdf_of_chain_after (suc n) first = kdf_of_chain_after n first

  pub index_of_chain_after :
      (n : ℕ) (first : RatchetChainKey)
      → first.index + n < 2 ^ 32
      → (chain_after p n first).index ≡ first.index + n
  unfolding chain_after
  index_of_chain_after zero first fits = omega arith
  index_of_chain_after (suc n) first fits =
      let before = index_of_chain_after n first (omega arith) in rw before (omega arith)

-- The sender has ratcheted once more than the receiver: from the receiver's root key, its private
-- ratchet key and the sender's public ratchet key come the sender's root key and the first key of
-- its chain, on which `sent` messages were sent.
pub record IsAhead (p : Provider) (sender receiver : SessionState) : Type 0 where
  pub pair : KeyPair
  pub their_pair : KeyPair
  pub root : RatchetRootKey
  pub their_root : RatchetRootKey
  pub first : RatchetChainKey
  pub sent : ℕ
  pub has_pair : session_state_get_sender_ratchet_key_pair sender ≡ some pair
  pub has_chain : session_state_get_sender_chain_key sender ≡ some (chain_after p sent first)
  pub their_chain : RatchetChainKey
  pub has_their_chain : session_state_get_sender_chain_key receiver ≡ some their_chain
  pub version : IsVersion root.kdf
  pub first_version : IsVersion first.kdf
  pub has_root : sender.root_key ≡ some root
  pub has_their_pair : session_state_get_sender_ratchet_key_pair receiver ≡ some their_pair
  pub has_their_root : receiver.root_key ≡ some their_root
  pub derives :
      ratchet_root_key_create_chain p their_root
        (some pair.public_key)
        (some their_pair.private_key)
      ≡ ok (root, first)
  pub sound : IsPair p pair

pub create_chain_swap :
    (p : Provider) (root : RatchetRootKey) (a b : KeyPair)
    → HasAgreement p
    → IsPair p a
    → IsPair p b
    → ratchet_root_key_create_chain p root (some a.public_key) (some b.private_key)
      ≡ ratchet_root_key_create_chain p root (some b.public_key) (some a.private_key)
unfolding ratchet_root_key_create_chain
create_chain_swap p root a b agreement pa pb = rw (agreement.commutes b a pb pa)

-- A root and a chain that were derived keep the version of the root before.
pub create_chain-IsVersion :
    (p : Provider) (before root : RatchetRootKey) (chain : RatchetChainKey) (theirs : PublicKey)
    (ours : PrivateKey)
    → HasMac p
    → IsVersion before.kdf
    → ratchet_root_key_create_chain p before (some theirs) (some ours) ≡ ok (root, chain)
    → IsVersion root.kdf × IsVersion chain.kdf
unfolding ratchet_root_key_create_chain chain_of
create_chain-IsVersion p before root chain theirs ours h v e =
    elim (Result-cases (curve_calculate_agreement p (some theirs) (some ours))) [
      | inr (d, bad) ↦ cc (rw bad at e)
      | inl (secret, agreed) ↦
          let whole : chain_of p before secret ≡ (root, chain) =
            ok_injective (sym (create_chain_lem p h before theirs ours secret v agreed) ∙ e) in
          subst (λ x. IsVersion x.0.kdf × IsVersion x.1.kdf) whole (v, v)
    ]

-- Neither the chains of the other side nor a pending pre key count.
pub IsAhead_chains :
    (p : Provider) (sender receiver : SessionState) (chains : List ReceiverChain)
    → IsAhead p sender receiver
    → IsAhead p
        (session_state_clear_unacknowledged_pre_key_message
          (record sender { receiver_chains = chains }))
        receiver
unfolding session_state_get_sender_ratchet_key_pair session_state_get_sender_chain_key
    session_state_clear_unacknowledged_pre_key_message
IsAhead_chains p sender receiver chains a = record {
  pair = a.pair;
  their_pair = a.their_pair;
  root = a.root;
  their_root = a.their_root;
  first = a.first;
  sent = a.sent;
  has_pair = a.has_pair;
  has_chain = a.has_chain;
  their_chain = a.their_chain;
  has_their_chain = a.has_their_chain;
  version = a.version;
  first_version = a.first_version;
  has_root = a.has_root;
  has_their_pair = a.has_their_pair;
  has_their_root = a.has_their_root;
  derives = a.derives;
  sound = a.sound;
}
