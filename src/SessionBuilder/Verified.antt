-- ===== src/SessionBuilder/Verified.antt =====
-- A session is only started with an identity that the client trusts and, from a bundle, with a pre key
-- that this identity has signed.
use rn_signal_protocol_messa.Base.{
  ℕ, ◌≡◌, refl, ap, Bool, true, false, Option, some, none, ◌∷◌, not, ◌==◌, arith, ◌<◌, ◌∙◌, subst,
}
use rn_signal_protocol_messa.Status.{
  Error, Result, ok, guard, >>=-eq-ok, ok_injective, invalid_key, err, inval, untrusted_identity,
}
use rn_signal_protocol_messa.Action.{lift, >>=-ok, ◌>>=◌}
use rn_signal_protocol_messa.Crypto.{Buffer, Provider}
use rn_signal_protocol_messa.Curve.{
  PublicKey, djb_type, ec_public_key_serialize, curve_verify_signature,
}
use rn_signal_protocol_messa.Store.{World}
use rn_signal_protocol_messa.SessionStore.{Address, SessionContext}
use rn_signal_protocol_messa.KeyStore.{KeyStores, signal_protocol_identity_is_trusted_identity}
use rn_signal_protocol_messa.PreKey.{SessionPreKeyBundle}
use rn_signal_protocol_messa.SessionBuilder.{
  verified_pre_key, check_trusted, session_builder_process_pre_key_bundle,
}

guard-ok : (b : Bool) (e : Error) → guard b e ≡ ok tt → b ≡ true
guard-ok true e h = refl
guard-ok false e h = cc

-- The signature verifies under the key, over the bytes of the signed pre key.
abbrev pub IsSigned : Provider → (identity_key signed_pre_key : PublicKey) → Buffer → Type 0
IsSigned p identity_key signed_pre_key signature =
    p.verify signature identity_key.point (djb_type ∷ signed_pre_key.point) ≡ true

verify-ok :
    (p : Provider) (key : PublicKey) (message signature : Buffer)
    → curve_verify_signature p key message signature ≡ ok true
    → p.verify signature key.point message ≡ true
unfolding curve_verify_signature
verify-ok p key message signature h = ground arith

verified_pre_key-ok :
    (p : Provider) (signed_pre_key identity_key : Option PublicKey) (signature : Option Buffer)
    → (out : PublicKey) → verified_pre_key p signed_pre_key identity_key signature ≡ ok out
    → (key : PublicKey) × (bytes : Buffer) × (identity_key ≡ some key)
      × (signed_pre_key ≡ some out)
      × (signature ≡ some bytes)
      × IsSigned p key out bytes
unfolding verified_pre_key ec_public_key_serialize
verified_pre_key-ok p (some s) (some key) (some bytes) out h =
    let (verified, came, rest) =
      >>=-eq-ok (curve_verify_signature p key (djb_type ∷ s.point) bytes) _ h in
    let (_, sure, last) = >>=-eq-ok (guard verified _) _ rest in
    let same : s ≡ out = ok_injective last in
    let signed : IsSigned p key s bytes =
      verify-ok p key (djb_type ∷ s.point) bytes
        (came ∙ ap ok (guard-ok verified invalid_key sure)) in
    (key, bytes, refl, ap some same, refl, subst (λ x. IsSigned p key x bytes) same signed)
verified_pre_key-ok p (some s) (some key) none out h = cc
verified_pre_key-ok p (some s) none signature out h = cc
verified_pre_key-ok p none identity_key signature out h = cc

positive : (n : ℕ) → not (n == 0) ≡ true → 0 < n
positive n h = ground arith

module _ {S : Type 0} (c : SessionContext S) (k : KeyStores S) (remote_address : Address) where
  -- The client's answer is a number other than 0.
  abbrev pub IsTrusted : S → PublicKey → Type 0
  IsTrusted s key =
      (answer : ℕ) × ((k.identity_key_store.is_trusted_identity remote_address
          (djb_type ∷ key.point) s).0
        ≡ ok answer)
      × (0 < answer)

  pub check_trusted-ok :
      (identity_key : Option PublicKey) (w w' : World S)
      → check_trusted c k remote_address identity_key w ≡ (ok tt, w')
      → (key : PublicKey) × (identity_key ≡ some key) × IsTrusted w.stored key
  unfolding check_trusted signal_protocol_identity_is_trusted_identity ec_public_key_serialize ◌>>=◌
  check_trusted-ok none w w' h =
      let failed : err inval ≡ ok tt = ap (λ (r : Result (Unit {0}) × World S). r.0) h in cc
  check_trusted-ok (some key) w w' h =
      let (answer, s, came, last) =
        >>=-ok (signal_protocol_identity_is_trusted_identity k remote_address (some key)) _ w tt
          (ap (λ r. r.0) h) in
      let asked : (k.identity_key_store.is_trusted_identity remote_address (djb_type ∷ key.point)
            w.stored).0
          ≡ ok answer =
        ap (λ (r : Result ℕ × World S). r.0) came in
      (key, refl, (answer, asked, positive answer (guard-ok _ untrusted_identity last)))

  -- If session_builder_process_pre_key_bundle succeeds, then the bundle has an identity key, a signed
  -- pre key and a signature, the client's store has answered that the identity is trusted, and the
  -- signature of the signed pre key's bytes verifies under the identity key.
  pub process_pre_key_bundle-verified :
      (bundle : SessionPreKeyBundle) (w : World S)
      → (session_builder_process_pre_key_bundle c k remote_address bundle w).0 ≡ ok tt
      → (key signed_pre_key : PublicKey) × (signature : Buffer) × (bundle.identity_key ≡ some key)
        × (bundle.signed_pre_key_public ≡ some signed_pre_key)
        × (bundle.signed_pre_key_signature ≡ some signature)
        × IsTrusted w.stored key
        × IsSigned c.provider key signed_pre_key signature
  unfolding session_builder_process_pre_key_bundle
  process_pre_key_bundle-verified bundle w h =
      let (_, asked, trusted, rest) =
        >>=-ok (check_trusted c k remote_address bundle.identity_key) _ w tt h in
      let (signed_pre_key, _, verified, _) =
        >>=-ok
          (lift (
            verified_pre_key c.provider bundle.signed_pre_key_public bundle.identity_key
              bundle.signed_pre_key_signature))
          _ asked tt rest in
      let (key, is_key, trust) = check_trusted-ok bundle.identity_key w asked trusted in
      let (signer, signature, is_signer, is_pre_key, is_signature, signed) =
        verified_pre_key-ok c.provider bundle.signed_pre_key_public bundle.identity_key
          bundle.signed_pre_key_signature signed_pre_key
          (ap (λ (r : Result PublicKey × World S). r.0) verified) in
      let same : signer ≡ key = cc in
      (
        key,
        signed_pre_key,
        signature,
        is_key,
        is_pre_key,
        is_signature,
        trust,
        subst (λ x. IsSigned c.provider x signed_pre_key signature) same signed,
      )
