-- ===== src/GroupSession/Create.antt =====
-- What a sender keeps of a new session and tells the others.
use rn_signal_protocol_messa.Base.{
  ℕ, ◌≡◌, ◌∙◌, refl, sym, ap, subst, some, inl, inr, List, [], ◌∷◌, Option, ◌<◌,
}
use rn_signal_protocol_messa.Status.{ok, Result-cases, ok_injective}
use rn_signal_protocol_messa.Action.{◌>>=◌}
use rn_signal_protocol_messa.Crypto.{Buffer, IsCodec}
use rn_signal_protocol_messa.Curve.{KeyPair}
use rn_signal_protocol_messa.Curve.Format.{IsPoint}
use rn_signal_protocol_messa.Curve.Generate.{HasKeys}
use rn_signal_protocol_messa.KeyState.{SenderKeyState}
use rn_signal_protocol_messa.KeyRecord.{
  SenderKeyRecord, sender_key_record_is_empty, sender_key_record_get_sender_key_state,
}
use rn_signal_protocol_messa.KeyRecord.Capacity.{added, set_sender_key_state_lem}
use rn_signal_protocol_messa.GroupMessage.{
  SenderKeyDistributionMessage, sender_key_distribution_message_deserialize,
}
use rn_signal_protocol_messa.GroupMessage.RoundTrip.{
  distribution_made, distribution_create_lem, distribution_fields, distribution_deserialize-create,
}
use rn_signal_protocol_messa.KeyHelper.{
  generate_sender_key_id, generate_sender_key, generate_sender_signing_key,
}
use rn_signal_protocol_messa.GroupCipher.Encrypt.{Loads}
use rn_signal_protocol_messa.Store.{
  Context, World, SenderKeyName, signal_protocol_sender_key_load_key,
}
use rn_signal_protocol_messa.Store.Laws.{IsContext, saved, store_key_lem}
use rn_signal_protocol_messa.GroupSession.{new_session, group_session_builder_create_session}

module _ {S : Type 0} (c : Context S) (laws : IsContext c) (name : SenderKeyName)
    (user : Option Buffer) (w : World S) where
  abbrev started : ℕ → Buffer → KeyPair → SenderKeyState
  started id first pair = added id 0 first pair.public_key (some pair.private_key)

  abbrev started_record : ℕ → Buffer → KeyPair → SenderKeyRecord
  started_record id first pair = record { states = started id first pair ∷ []; user_record = user }

  record IsStarted (r : SenderKeyRecord) (w' : World S) : Type 0 where
    id : ℕ
    first : Buffer
    pair : KeyPair
    draws : ℕ
    draws' : ℕ
    generated : generate_sender_signing_key c.provider draws ≡ (ok pair, draws')
    is : r ≡ started_record id first pair
    left :
        w'
        ≡ saved c name (started_record id first pair) (record { draws = draws'; stored = w.stored })

  new_session-IsStarted :
      (r : SenderKeyRecord) (w' : World S)
      → new_session c name (record { states = []; user_record = user }) w ≡ (ok r, w')
      → IsStarted r w'
  unfolding new_session ◌>>=◌
  new_session-IsStarted r w' e = elim (Result-cases (generate_sender_key_id c.provider w.draws).0) [
    | inr (d, bad) ↦ cc (rw bad at e)
    | inl (id, made) ↦
        let n1 = (generate_sender_key_id c.provider w.draws).1 in
        elim (Result-cases (generate_sender_key c.provider n1).0) [
          | inr (d, bad) ↦ cc (rw (made, bad) at e)
          | inl (first, drawn) ↦
              let n2 = (generate_sender_key c.provider n1).1 in
              elim (Result-cases (generate_sender_signing_key c.provider n2).0) [
                | inr (d, bad) ↦ cc (rw (made, drawn, bad) at e)
                | inl (pair, paired) ↦
                    let n3 = (generate_sender_signing_key c.provider n2).1 in
                    let whole =
                      rw
                        (
                          made,
                          drawn,
                          paired,
                          set_sender_key_state_lem (record { states = []; user_record = user }) id 0
                              first pair,
                          store_key_lem c laws,
                        )
                        at e in
                    record {
                      id = id;
                      first = first;
                      pair = pair;
                      draws = n2;
                      draws' = n3;
                      generated = λ i. (paired i, n3);
                      is = sym (ok_injective (ap (λ x. x.0) whole));
                      left = sym (ap (λ x. x.1) whole);
                    }
              ]
        ]
  ]

  abbrev told : SenderKeyState → SenderKeyDistributionMessage
  told state =
      distribution_made c.distribution_codec state.key_id state.chain_key.iteration
        state.chain_key.chain_key state.signature_public_key

  -- For a store that has a record of the sender with a state, and codecs that unpack what they
  -- pack: group_session_builder_create_session makes no new key; it succeeds with a message of the
  -- id, the chain and the signing key of the first state, and changes nothing.
  pub create_session_again :
      (state : SenderKeyState) (rest : List SenderKeyState)
      → IsCodec c.distribution_codec
      → signal_protocol_sender_key_load_key c name w
        ≡ (ok (record { states = state ∷ rest; user_record = user }), w)
      → (bytes : Buffer) × (group_session_builder_create_session c name w ≡ (
        ok (record {
          id = state.key_id;
          iteration = state.chain_key.iteration;
          chain_key = state.chain_key.chain_key;
          signature_key = state.signature_public_key;
          serialized = bytes;
        }),
        w,
      ))
  unfolding group_session_builder_create_session sender_key_record_is_empty
      sender_key_record_get_sender_key_state ◌>>=◌
  create_session_again state rest codec loads = (
    (told state).serialized,
    rw (
      loads,
      distribution_create_lem c.distribution_codec state.key_id state.chain_key.iteration
          state.chain_key.chain_key state.signature_public_key codec,
    ),
  )

  module _ (keys : HasKeys c.provider) (codec : IsCodec c.distribution_codec)
      (loads : Loads c name (record { states = []; user_record = user }) w)
      (m : SenderKeyDistributionMessage) (w' : World S)
      (e : group_session_builder_create_session c name w ≡ (ok m, w')) where
    create_session-IsStarted :
        (r : SenderKeyRecord) × (x : World S) × (s : IsStarted r x) × (m
          ≡ told (started s.id s.first s.pair))
        × (w' ≡ x)
    unfolding group_session_builder_create_session sender_key_record_is_empty
        sender_key_record_get_sender_key_state ◌>>=◌ generate_sender_key_id
    create_session-IsStarted =
        elim (Result-cases (new_session c name (record { states = []; user_record = user }) w).0) [
          | inr (d, bad) ↦ cc (rw (loads, bad) at e)
          | inl (r, made) ↦
              let now = (new_session c name (record { states = []; user_record = user }) w).1 in
              let s = new_session-IsStarted r now (λ i. (made i, now)) in
              let whole =
                rw
                  (
                    loads,
                    made,
                    s.is,
                    distribution_create_lem c.distribution_codec s.id 0 s.first s.pair.public_key
                        codec,
                  )
                  at e in
              (r, now, s, sym (ok_injective (ap (λ x. x.0) whole)), sym (ap (λ x. x.1) whole))
        ]

    pub told_serialized :
        IsPoint m.signature_key
        → 0
          < c.distribution_codec.packed_size
              (distribution_fields m.id m.iteration m.chain_key m.signature_key)
        → sender_key_distribution_message_deserialize c.distribution_codec m.serialized ≡ ok m
    told_serialized point filled =
        let (r, x, s, told_is, left_is) = create_session-IsStarted in
        let made =
          distribution_create_lem c.distribution_codec m.id m.iteration m.chain_key m.signature_key
            codec in
        distribution_deserialize-create c.distribution_codec m.id m.iteration m.chain_key
          m.signature_key m codec point filled
          (made
            ∙ ap ok (
                subst
                  (λ y.
                    distribution_made c.distribution_codec y.id y.iteration y.chain_key
                      y.signature_key
                    ≡ y)
                  (sym told_is) refl))
