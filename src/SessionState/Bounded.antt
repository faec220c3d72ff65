-- ===== src/SessionState/Bounded.antt =====
-- The two lists of a bounded length, and a chain that is found again after it was changed.
use rn_signal_protocol_messa.Base.{
  ℕ, zero, suc, ◌-◌, ◌≤◌, ◌≡◌, ◌∙◌, refl, sym, ap, Option, some, none, List, [], ◌∷◌, ◌++◌, length,
  drop, inl, inr, ltb, arith, length-append, length-drop, drop_nil, Bool-cases, drop-append_within,
  subst, true,
}
use rn_signal_protocol_messa.Curve.{PublicKey, ec_public_key_compare}
use rn_signal_protocol_messa.SessionState.{ReceiverChain, RatchetChainKey, SessionState}
use rn_signal_protocol_messa.SessionState.Chains.{
  drop_oldest, append_within, find_chain, change_chain, session_state_find_receiver_chain,
  session_state_add_receiver_chain,
}
use rn_signal_protocol_messa.Curve.Agreement.{same_bytes_refl}

-- The last elements of a list, at most `most`.
abbrev pub latest : {A : Type 0} → (most : ℕ) → List A → List A
latest most xs = drop (length xs - most) xs

module _ {A : Type 0} (most : ℕ) where
  latest_step : (x : A) (xs : List A) → most ≤ length xs → latest most (x ∷ xs) ≡ latest most xs
  latest_step x xs h = let e : suc (length xs) - most ≡ suc (length xs - most) = omega arith in rw e

  pub latest_all : (xs : List A) → length xs ≤ most → latest most xs ≡ xs
  latest_all xs h = let e : length xs - most ≡ 0 = omega arith in rw e

  pub length-latest : (xs : List A) → length (latest most xs) ≤ most
  length-latest xs = omega (arith, length-drop (length xs - most) xs)

  drop_oldest_lem : (xs : List A) → drop_oldest most (length xs) xs ≡ latest most xs
  unfolding drop_oldest
  drop_oldest_lem [] = sym (drop_nil (0 - most))
  drop_oldest_lem (x ∷ xs) = elim (Bool-cases (ltb most (suc (length xs)))) [
    | inl over ↦
        let e : suc (length xs) - 1 ≡ length xs = omega arith in
        rw (over, e) (drop_oldest_lem xs ∙ sym (latest_step x xs (ground arith)))
    | inr within ↦ rw within (sym (latest_all (x ∷ xs) (ground arith)))
  ]

  pub append_within_lem :
      (xs : List A) (x : A) → append_within most xs x ≡ latest most (xs ++ (x ∷ []))
  unfolding append_within
  append_within_lem xs x = drop_oldest_lem (xs ++ (x ∷ []))

  -- What was dropped before would be dropped now.
  pub latest-append : (xs ys : List A) → latest most (latest most xs ++ ys) ≡ latest most (xs ++ ys)
  latest-append [] ys = rw (drop_nil {A = A} (0 - most))
  latest-append (x ∷ xs) ys = elim (Bool-cases (ltb most (suc (length xs)))) [
    | inl over ↦
        rw (latest_step x xs (ground arith)) (
          latest-append xs ys
          ∙ sym (latest_step x (xs ++ ys) (ground (arith, length-append xs ys))))
    | inr within ↦ rw (latest_all (x ∷ xs) (ground arith))
  ]

module _ (key : PublicKey) where
  find_chain-append :
      (chains more : List ReceiverChain)
      → find_chain chains key ≡ none
      → find_chain (chains ++ more) key ≡ find_chain more key
  unfolding find_chain
  find_chain-append [] more missing = refl
  find_chain-append (c ∷ cs) more missing =
      elim (Bool-cases (ec_public_key_compare c.sender_ratchet_key (some key))) [
        | inl here ↦ cc (rw here at missing)
        | inr there ↦ rw there (find_chain-append cs more (rw there at missing))
      ]

  find_chain-drop :
      (n : ℕ) (chains : List ReceiverChain)
      → find_chain chains key ≡ none
      → find_chain (drop n chains) key ≡ none
  unfolding find_chain
  find_chain-drop zero chains missing = missing
  find_chain-drop (suc n) [] missing = missing
  find_chain-drop (suc n) (c ∷ cs) missing =
      elim (Bool-cases (ec_public_key_compare c.sender_ratchet_key (some key))) [
        | inl here ↦ cc (rw here at missing)
        | inr there ↦ find_chain-drop n cs (rw there at missing)
      ]

  -- A chain that was not found is found after it is added, where the bound is not 0.
  pub find_chain-append_within :
      (most : ℕ) (chains : List ReceiverChain) (chain : ReceiverChain)
      → find_chain chains key ≡ none
      → find_chain (chain ∷ []) key ≡ some chain
      → find_chain (append_within (suc most) chains chain) key ≡ some chain
  find_chain-append_within most chains chain missing found =
      let over = length (chains ++ (chain ∷ [])) - suc most in
      rw
        (
          append_within_lem (suc most) chains chain,
          drop-append_within over chains (chain ∷ [])
              (omega (arith, length-append chains (chain ∷ []))),
          find_chain-append (drop over chains) (chain ∷ []) (find_chain-drop over chains missing),
        )
        found

module _ (key : PublicKey) (f : ReceiverChain → ReceiverChain) where
  -- The chain of a key is found again after a change that keeps the key.
  pub find_chain-change_chain :
      (chains : List ReceiverChain) (chain : ReceiverChain)
      → ((c : ReceiverChain) → (f c).sender_ratchet_key ≡ c.sender_ratchet_key)
      → find_chain chains key ≡ some chain
      → find_chain (change_chain chains key f) key ≡ some (f chain)
  unfolding find_chain change_chain
  find_chain-change_chain [] chain keeps e = cc
  find_chain-change_chain (c ∷ cs) chain keeps e =
      elim (Bool-cases (ec_public_key_compare c.sender_ratchet_key (some key))) [
        | inl here ↦
            simp (here, keeps c)
              (ap (λ o. elim o as (λ _. Option ReceiverChain) [ some x ↦ some (f x) | none ↦ none ])
                (rw here at e))
        | inr there ↦ rw (there, there) (find_chain-change_chain cs chain keeps (rw there at e))
      ]

module _ (key : PublicKey) where
  -- Where the chain of a key stands: behind chains of other keys.
  pub split_found :
      (chains : List ReceiverChain) (chain : ReceiverChain)
      → find_chain chains key ≡ some chain
      → (before after : List ReceiverChain) × (chains ≡ before ++ (chain ∷ after))
        × (find_chain before key ≡ none)
        × (ec_public_key_compare chain.sender_ratchet_key (some key) ≡ true)
  unfolding find_chain
  split_found [] chain e = cc
  split_found (c ∷ cs) chain e =
      elim (Bool-cases (ec_public_key_compare c.sender_ratchet_key (some key))) [
        | inl here ↦
            let same : c ≡ chain = cc (rw here at e) in
            (
              [],
              cs,
              ap (λ x. x ∷ cs) same,
              refl,
              subst
                  (λ (x : ReceiverChain).
                    ec_public_key_compare x.sender_ratchet_key (some key) ≡ true)
                  same here,
            )
        | inr there ↦
            let (before, after, parts, missing, here) = split_found cs chain (rw there at e) in
            (c ∷ before, after, ap (λ xs. c ∷ xs) parts, rw there missing, here)
      ]

  -- A change of that chain leaves the others as they are.
  pub change_chain_at :
      (before after : List ReceiverChain) (chain : ReceiverChain)
      (f : ReceiverChain → ReceiverChain)
      → find_chain before key ≡ none
      → ec_public_key_compare chain.sender_ratchet_key (some key) ≡ true
      → change_chain (before ++ (chain ∷ after)) key f ≡ before ++ (f chain ∷ after)
  unfolding find_chain change_chain
  change_chain_at [] after chain f missing here = rw here refl
  change_chain_at (c ∷ cs) after chain f missing here =
      elim (Bool-cases (ec_public_key_compare c.sender_ratchet_key (some key))) [
        | inl found ↦ cc (rw found at missing)
        | inr there ↦
            rw there
              (ap (λ xs. c ∷ xs) (change_chain_at cs after chain f (rw there at missing) here))
      ]

abbrev pub new_chain : PublicKey → RatchetChainKey → ReceiverChain
new_chain key chain_key = record {
  sender_ratchet_key = some key;
  chain_key = some chain_key;
  message_keys = [];
}

pub find_receiver_chain-add :
    (state : SessionState) (key : PublicKey) (chain_key : RatchetChainKey)
    → session_state_find_receiver_chain state key ≡ none
    → session_state_find_receiver_chain (session_state_add_receiver_chain state key chain_key) key
      ≡ some (new_chain key chain_key)
unfolding session_state_find_receiver_chain session_state_add_receiver_chain find_chain
    ec_public_key_compare
find_receiver_chain-add state key chain_key missing =
    find_chain-append_within key 4 state.receiver_chains (new_chain key chain_key) missing
      (rw (same_bytes_refl key.point) refl)
