-- ===== src/GroupMessage/RoundTrip.antt =====
-- Messages that are written and read again.
use rn_signal_protocol_messa.Base.{
  ℕ, ◌-◌, ◌<◌, ◌≡◌, ap, inl, inr, some, ◌∷◌, ◌++◌, length, arith, eq→==, length-append, take-append,
  drop-append, leb, false, lt→leb, suc, refl, subst, sym, ◌∙◌,
}
use rn_signal_protocol_messa.Status.{ok, Result-cases, ok_injective}
use rn_signal_protocol_messa.Crypto.{
  Buffer, Provider, Codec, IsCodec, pack_checked_lem, signal_crypto_random,
}
use rn_signal_protocol_messa.Curve.{
  KeyPair, PrivateKey, HasSignature, curve_calculate_signature, curve_verify_signature, PublicKey,
  ec_public_key_serialize_protobuf,
}
use rn_signal_protocol_messa.GroupMessage.{
  SenderKeyMessageStructure, SenderKeyMessage, current_version, signature_length, version_byte,
  check_version, sender_key_message_serialize, sender_key_message_create, read_sender_key_message,
  message_part, sender_key_message_deserialize, sender_key_message_verify_signature, valid_or_error,
  DistributionStructure, SenderKeyDistributionMessage, sender_key_distribution_message_create,
  sender_key_distribution_message_serialize, sender_key_distribution_message_deserialize,
  read_distribution_message,
}
use rn_signal_protocol_messa.Curve.Format.{IsPoint, decode-serialize_protobuf}
use rn_signal_protocol_messa.Action.{◌>>=◌}

abbrev fields : ℕ → ℕ → Buffer → SenderKeyMessageStructure
fields id iteration ciphertext = record {
  id = some id;
  iteration = some iteration;
  ciphertext = some ciphertext;
}

-- A codec that packs a message into at least one byte.
pub record IsMessageCodec (codec : Codec SenderKeyMessageStructure) : Type 0 where
  pub laws : IsCodec codec
  pub filled :
      (id iteration : ℕ) (ciphertext : Buffer)
      → 0
        < codec.packed_size
            (record { id = some id; iteration = some iteration; ciphertext = some ciphertext })

module _ (p : Provider) (codec : Codec SenderKeyMessageStructure) (laws : IsCodec codec)
    (id iteration : ℕ) (ciphertext : Buffer) (key : PrivateKey) where
  -- What a message that was created holds.
  pub record IsSigned (m : SenderKeyMessage) : Type 0 where
    pub noise : Buffer
    pub signature : Buffer
    pub signed :
        p.sign key.scalar (version_byte ∷ codec.pack (fields id iteration ciphertext)) noise
        ≡ ok signature
    pub size : length signature ≡ signature_length
    pub whole : m ≡ record {
      message_version = current_version;
      key_id = id;
      iteration = iteration;
      ciphertext = ciphertext;
      serialized = (version_byte ∷ codec.pack (fields id iteration ciphertext)) ++ signature;
    }

  pub create-IsSigned :
      (n n' : ℕ) (m : SenderKeyMessage)
      → sender_key_message_create p codec id iteration ciphertext key n ≡ (ok m, n')
      → IsSigned m
  unfolding sender_key_message_create sender_key_message_serialize curve_calculate_signature
      signal_crypto_random ◌>>=◌
  create-IsSigned n n' m e = elim (Result-cases (p.random n 64)) [
    | inr (e1, bad) ↦ ground (arith, pack_checked_lem codec laws (fields id iteration ciphertext))
    | inl (noise, drawn) ↦
        elim (Result-cases
          (p.sign key.scalar (version_byte ∷ codec.pack (fields id iteration ciphertext)) noise)) [
            | inr (e2, bad) ↦
                ground (arith, pack_checked_lem codec laws (fields id iteration ciphertext))
            | inl (signature, signed) ↦ record {
              noise = noise;
              signature = signature;
              signed = signed;
              size = ground (arith, pack_checked_lem codec laws (fields id iteration ciphertext));
              whole = ground (arith, pack_checked_lem codec laws (fields id iteration ciphertext));
            }
          ]
  ]

  message_part_lem :
      (packed signature : Buffer)
      → length signature ≡ signature_length
      → message_part ((version_byte ∷ packed) ++ signature) ≡ packed
  unfolding message_part
  message_part_lem packed signature size =
      let cut : length ((version_byte ∷ packed) ++ signature) - 1 - signature_length
          ≡ length packed =
        omega (arith, length-append packed signature) in
      rw cut (take-append packed signature)

  -- A message that was created reads back as itself.
  pub deserialize_signed :
      (m : SenderKeyMessage)
      → 0 < codec.packed_size (fields id iteration ciphertext)
      → IsSigned m
      → sender_key_message_deserialize codec m.serialized ≡ ok m
  unfolding sender_key_message_deserialize check_version read_sender_key_message
  deserialize_signed m filled s =
      let packed = codec.pack (fields id iteration ciphertext) in
      let long : leb (length ((version_byte ∷ packed) ++ s.signature)) 65 ≡ false =
        lt→leb (length ((version_byte ∷ packed) ++ s.signature)) 65 (
          omega (
            arith,
            length-append packed s.signature,
            laws.sized (fields id iteration ciphertext),
          )) in
      rw
        (
          s.whole,
          long,
          message_part_lem packed s.signature s.size,
          laws.unpack-pack (fields id iteration ciphertext),
          sender_key_message_deserialize,
        )
        (cc (ap (λ (x : SenderKeyMessage). x.serialized) s.whole))

  -- Its signature verifies under the public half of the signing key.
  pub verify_signed :
      (m : SenderKeyMessage) (pair : KeyPair)
      → HasSignature p pair
      → pair.private_key ≡ key
      → IsSigned m
      → sender_key_message_verify_signature p m pair.public_key ≡ ok tt
  unfolding sender_key_message_verify_signature valid_or_error curve_verify_signature
  verify_signed m pair h half s =
      let body = version_byte ∷ codec.pack (fields id iteration ciphertext) in
      let whole : m.serialized ≡ body ++ s.signature =
        ap (λ (x : SenderKeyMessage). x.serialized) s.whole in
      let cut : length (body ++ s.signature) - signature_length ≡ length body =
        omega (arith, length-append body s.signature, s.size) in
      rw (
        whole,
        cut,
        take-append body s.signature,
        drop-append body s.signature,
        eq→== (length s.signature) 64 s.size,
        h.verifies body s.noise s.signature (rw half s.signed),
      )

module _ (p : Provider) (codec : Codec SenderKeyMessageStructure)
    (laws : IsMessageCodec codec) where
  -- For a codec that unpacks what it packs, into at least one byte, and signatures of 64 bytes
  -- that verify: the bytes of a message that sender_key_message_create made are read back as the
  -- same message, with the id, iteration and ciphertext that it was made for, and its signature
  -- verifies under the public half of the key.
  pub deserialize-create :
      (id iteration : ℕ) (ciphertext : Buffer) (pair : KeyPair) (n n' : ℕ) (m : SenderKeyMessage)
      → HasSignature p pair
      → sender_key_message_create p codec id iteration ciphertext pair.private_key n ≡ (ok m, n')
      → (sender_key_message_deserialize codec m.serialized ≡ ok m)
        × (sender_key_message_verify_signature p m pair.public_key ≡ ok tt)
        × (m.key_id ≡ id)
        × (m.iteration ≡ iteration)
        × (m.ciphertext ≡ ciphertext)
  deserialize-create id iteration ciphertext pair n n' m h e =
      let s = create-IsSigned p codec laws.laws id iteration ciphertext pair.private_key n n' m e in
      (
        deserialize_signed p codec laws.laws id iteration ciphertext pair.private_key m
            (laws.filled id iteration ciphertext) s,
        verify_signed p codec laws.laws id iteration ciphertext pair.private_key m pair h refl s,
        ap (λ (x : SenderKeyMessage). x.key_id) s.whole,
        ap (λ (x : SenderKeyMessage). x.iteration) s.whole,
        ap (λ (x : SenderKeyMessage). x.ciphertext) s.whole,
      )

abbrev pub distribution_fields : ℕ → ℕ → Buffer → PublicKey → DistributionStructure
distribution_fields id iteration chain_key key = record {
  id = some id;
  iteration = some iteration;
  chainkey = some chain_key;
  signingkey = some (ec_public_key_serialize_protobuf key);
}

-- A codec that packs a distribution message into at least one byte.
pub record IsDistributionCodec (codec : Codec DistributionStructure) : Type 0 where
  pub laws : IsCodec codec
  pub filled :
      (id iteration : ℕ) (chain_key : Buffer) (key : PublicKey)
      → 0 < codec.packed_size (distribution_fields id iteration chain_key key)

module _ (codec : Codec DistributionStructure) (id iteration : ℕ) (chain_key : Buffer)
    (key : PublicKey) where
  abbrev pub distribution_made : SenderKeyDistributionMessage
  distribution_made = record {
    id = id;
    iteration = iteration;
    chain_key = chain_key;
    signature_key = key;
    serialized = version_byte ∷ codec.pack (distribution_fields id iteration chain_key key);
  }

  pub distribution_create_lem :
      IsCodec codec
      → sender_key_distribution_message_create codec id iteration chain_key key
        ≡ ok distribution_made
  unfolding sender_key_distribution_message_create sender_key_distribution_message_serialize
  distribution_create_lem laws =
      rw (pack_checked_lem codec laws (distribution_fields id iteration chain_key key))

  pub distribution_deserialize_lem :
      IsCodec codec
      → IsPoint key
      → 0 < codec.packed_size (distribution_fields id iteration chain_key key)
      → sender_key_distribution_message_deserialize codec distribution_made.serialized
        ≡ ok distribution_made
  unfolding sender_key_distribution_message_deserialize check_version read_distribution_message
  distribution_deserialize_lem laws point filled =
      let s = distribution_fields id iteration chain_key key in
      let long : leb (suc (length (codec.pack s))) 1 ≡ false =
        lt→leb (suc (length (codec.pack s))) 1 (omega (arith, laws.sized s)) in
      rw (
        long,
        laws.unpack-pack s,
        sender_key_distribution_message_deserialize,
        decode-serialize_protobuf key point,
      )

  -- For a codec that unpacks what it packs, into at least one byte, and a signing key of 32 bytes: the
  -- bytes of a distribution message that was created are read back as the same message.
  pub distribution_deserialize-create :
      (m : SenderKeyDistributionMessage)
      → IsCodec codec
      → IsPoint key
      → 0
        < codec.packed_size (record {
          id = some id;
          iteration = some iteration;
          chainkey = some chain_key;
          signingkey = some (ec_public_key_serialize_protobuf key);
        })
      → sender_key_distribution_message_create codec id iteration chain_key key ≡ ok m
      → sender_key_distribution_message_deserialize codec m.serialized ≡ ok m
  distribution_deserialize-create m laws point filled e =
      subst (λ x. sender_key_distribution_message_deserialize codec x.serialized ≡ ok x)
        (ok_injective (sym (distribution_create_lem laws) ∙ e))
        (distribution_deserialize_lem laws point filled)
