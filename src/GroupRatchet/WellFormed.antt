-- ===== src/GroupRatchet/WellFormed.antt =====
-- A call leaves a well-formed state well-formed, and its identity alone.
use rn_signal_protocol_messa.Base.{
  ℕ, zero, suc, ◌-◌, ◌≡◌, refl, ◌∙◌, subst, inl, inr, some, none, [], ◌∷◌, ◌++◌, length, All-append,
  length-drop, arith, ltb, Bool-cases, Option,
}
use rn_signal_protocol_messa.Status.{ok, ok_injective, >>=-eq-ok}
use rn_signal_protocol_messa.Crypto.{Buffer, Provider, HasMac, mac}
use rn_signal_protocol_messa.SenderKey.{SenderMessageKey, SenderChainKey, add_u32}
use rn_signal_protocol_messa.SenderKey.Chain.{
  message_key_of, create_message_key_lem, create_next_lem,
}
use rn_signal_protocol_messa.KeyState.{
  SenderKeyState, max_message_keys, unlink, sender_key_state_add_sender_message_key,
  sender_key_state_set_chain_key, sender_key_state_has_sender_message_key,
  sender_key_state_remove_sender_message_key,
}
use rn_signal_protocol_messa.KeyState.Keys.{All-drop, All-unlink, length-unlink}
use rn_signal_protocol_messa.KeyState.Capacity.{add_sender_message_key_lem}
use rn_signal_protocol_messa.KeyState.RoundTrip.{IsWellFormed}
use rn_signal_protocol_messa.GroupRatchet.{
  max_future, removed, skip, skip_loop, step_past, group_cipher_get_sender_key,
}

module _ (p : Provider) (h : HasMac p) where
  abbrev IsDerived : SenderMessageKey → Type 0
  IsDerived k = k ≡ message_key_of p k.iteration k.seed

  -- A later state of the same sender key.
  pub record Follows (state later : SenderKeyState) : Type 0 where
    pub well : IsWellFormed p later
    pub id : later.key_id ≡ state.key_id
    pub public_half : later.signature_public_key ≡ state.signature_public_key
    pub private_half : later.signature_private_key ≡ state.signature_private_key

  add-Follows :
      (state : SenderKeyState) (k : SenderMessageKey)
      → IsWellFormed p state
      → IsDerived k
      → Follows state (sender_key_state_add_sender_message_key state k)
  add-Follows state k w d =
      let all = state.message_keys ++ (k ∷ []) in
      let over = length all - max_message_keys in
      rw (add_sender_message_key_lem state k) (record {
        well = record {
          public_size = w.public_size;
          private_size = w.private_size;
          derived =
              All-drop IsDerived over all
                (All-append IsDerived state.message_keys (k ∷ []) w.derived (d, tt));
          bounded = omega (arith, length-drop over all);
        };
        id = refl;
        public_half = refl;
        private_half = refl;
      })

  skip_total :
      (chain : SenderChainKey) (state : SenderKeyState)
      → skip p chain state
        ≡ ok (
          record {
            iteration = add_u32 chain.iteration 1;
            chain_key = mac p chain.chain_key (2 ∷ []);
          },
          sender_key_state_add_sender_message_key state
              (message_key_of p chain.iteration (mac p chain.chain_key (1 ∷ []))),
        )
  unfolding skip
  skip_total chain state = rw (create_message_key_lem p h chain, create_next_lem p h chain)

  derived_lem : (iteration : ℕ) (seed : Buffer) → IsDerived (message_key_of p iteration seed)
  unfolding message_key_of
  derived_lem iteration seed = refl

  Follows-refl : (state : SenderKeyState) → IsWellFormed p state → Follows state state
  Follows-refl state w = record { well = w; id = refl; public_half = refl; private_half = refl }

  Follows-trans : (a b c : SenderKeyState) → Follows a b → Follows b c → Follows a c
  Follows-trans a b c f g = record {
    well = g.well;
    id = g.id ∙ f.id;
    public_half = g.public_half ∙ f.public_half;
    private_half = g.private_half ∙ f.private_half;
  }

  -- The state beside a value in a pair of outcomes.
  at_state :
      {A : Type 0} (state : SenderKeyState) (x y : A × SenderKeyState)
      → ok x ≡ ok y
      → Follows state x.1
      → Follows state y.1
  at_state state x y e = subst (λ z. Follows state z.1) (ok_injective e)

  skip_loop-Follows :
      (rounds : ℕ) (chain : SenderChainKey) (i : ℕ) (state : SenderKeyState)
      → IsWellFormed p state
      → (c : SenderChainKey) (later : SenderKeyState)
      → skip_loop p rounds chain i state ≡ ok (c, later)
      → Follows state later
  unfolding skip_loop
  skip_loop-Follows zero chain i state w c later e =
      at_state state (chain, state) (c, later) e (Follows-refl state w)
  skip_loop-Follows (suc rounds) chain i state w c later e =
      elim (Bool-cases (ltb chain.iteration i)) [
        | inl more ↦
            let k = message_key_of p chain.iteration (mac p chain.chain_key (1 ∷ [])) in
            let next : SenderChainKey = record {
              iteration = add_u32 chain.iteration 1;
              chain_key = mac p chain.chain_key (2 ∷ []);
            } in
            let added = sender_key_state_add_sender_message_key state k in
            let one =
              add-Follows state k w
                (derived_lem chain.iteration (mac p chain.chain_key (1 ∷ []))) in
            Follows-trans state added later one (
              skip_loop-Follows rounds next i added one.well c later
                (rw (more, skip_total chain state) at e))
        | inr done ↦ at_state state (chain, state) (c, later) (rw done at e) (Follows-refl state w)
      ]

  step_past-Follows :
      (state : SenderKeyState) (x : SenderChainKey × SenderKeyState)
      → Follows state x.1
      → (k : SenderMessageKey) (later : SenderKeyState) → step_past p x ≡ ok (k, later)
      → Follows state later
  unfolding step_past sender_key_state_set_chain_key
  step_past-Follows state (chain, now) f k later e =
      at_state state
        (
          message_key_of p chain.iteration (mac p chain.chain_key (1 ∷ [])),
          record now {
            chain_key = record {
              iteration = add_u32 chain.iteration 1;
              chain_key = mac p chain.chain_key (2 ∷ []);
            };
          },
        )
        (k, later) (rw (create_next_lem p h chain, create_message_key_lem p h chain) at e)
        (record {
          well = record {
            public_size = f.well.public_size;
            private_size = f.well.private_size;
            derived = f.well.derived;
            bounded = f.well.bounded;
          };
          id = f.id;
          public_half = f.public_half;
          private_half = f.private_half;
        })

  removed_state :
      (found : Option SenderMessageKey) (now later : SenderKeyState) (k : SenderMessageKey)
      → removed (found, now) ≡ ok (k, later)
      → now ≡ later
  unfolding removed
  removed_state none now later k e = cc
  removed_state (some found) now later k e = cc (ok_injective e)

  removed-Follows :
      (state : SenderKeyState) (i : ℕ)
      → IsWellFormed p state
      → (k : SenderMessageKey) (later : SenderKeyState)
      → removed (sender_key_state_remove_sender_message_key state i) ≡ ok (k, later)
      → Follows state later
  unfolding removed sender_key_state_remove_sender_message_key
  removed-Follows state i w k later e =
      subst (Follows state)
        (removed_state (unlink state.message_keys i).0
          (record state { message_keys = (unlink state.message_keys i).1 }) later k e)
        (record {
          well = record {
            public_size = w.public_size;
            private_size = w.private_size;
            derived = All-unlink IsDerived state.message_keys i w.derived;
            bounded = omega (arith, length-unlink state.message_keys i);
          };
          id = refl;
          public_half = refl;
          private_half = refl;
        })

  -- With an HMAC-SHA256 that always succeeds with 32 bytes: a successful
  -- group_cipher_get_sender_key for a well-formed state leaves a well-formed state, with at most
  -- 2000 message keys, each derived from its seed, and with the same id and the same two halves of
  -- the signing key.
  pub get_sender_key-Follows :
      (state : SenderKeyState) (i : ℕ) (k : SenderMessageKey) (later : SenderKeyState)
      → IsWellFormed p state
      → group_cipher_get_sender_key p state i ≡ ok (k, later)
      → Follows state later
  unfolding group_cipher_get_sender_key
  get_sender_key-Follows state i k later w e = elim (Bool-cases (ltb i state.chain_key.iteration)) [
    | inl before ↦ elim (Bool-cases (sender_key_state_has_sender_message_key state i)) [
      | inl there ↦ removed-Follows state i w k later (rw (before, there) at e)
      | inr gone ↦ cc (rw (before, gone) at e)
    ]
    | inr on ↦ elim (Bool-cases (ltb max_future (i - state.chain_key.iteration))) [
      | inl far ↦ cc (rw (on, far) at e)
      | inr near ↦
          let parts =
            >>=-eq-ok (skip_loop p (i - state.chain_key.iteration) state.chain_key i state)
              (step_past p) (rw (on, near) at e) in
          step_past-Follows state parts.0
            (skip_loop-Follows (i - state.chain_key.iteration) state.chain_key i state w parts.0.0
              parts.0.1 parts.1)
            k later parts.2
    ]
  ]
