-- ===== src/SignalMessage/RoundTrip.antt =====
-- A message that was created is read again, and its MAC is the receiver's.
use rn_signal_protocol_messa.Base.{
  ℕ, ◌-◌, ◌<◌, ◌≤◌, ◌≡◌, ◌∙◌, ◌↔◌, refl, ap, subst, some, [], ◌∷◌, ◌++◌, length, take, drop, true,
  false, inl, inr, arith, leb, le→ltb, lt→leb, eq→==, length-append, length-take, take-append,
  drop-append, Bool-cases, if◌then◌else◌, Bool,
}
use rn_signal_protocol_messa.Status.{ok}
use rn_signal_protocol_messa.Crypto.{
  Buffer, Provider, Codec, IsCodec, pack_checked_lem, HasMac, mac,
}
use rn_signal_protocol_messa.Curve.{
  PublicKey, ec_public_key_serialize, ec_public_key_serialize_protobuf, same_bytes,
}
use rn_signal_protocol_messa.Curve.Format.{IsPoint, decode-serialize_protobuf}
use rn_signal_protocol_messa.Curve.Agreement.{same_bytes_refl, same_bytes-eq}
use rn_signal_protocol_messa.GroupMessage.{high_nibble, current_version}
use rn_signal_protocol_messa.SignalMessage.{
  SignalMessageStructure, SignalMessage, mac_length, unsupported_version, version_byte, identities,
  signal_message_serialize, signal_message_get_mac, signal_message_create,
  signal_message_verify_mac, or_zero, read_signal_message, read_version, message_part,
  signal_message_deserialize,
}

-- Versions 2 and 3.
abbrev pub IsSupported : ℕ → Type 0
IsSupported version = (unsupported_version < version) × (version ≤ current_version)

high_nibble_lem : (version : ℕ) → IsSupported version → high_nibble (version_byte version) ≡ version
high_nibble_lem version s = omega (arith, s.0, s.1)

-- What both keys stand for under the MAC.
unfoldable pub prefix : (version : ℕ) → (sender receiver : PublicKey) → Buffer
prefix version sender receiver =
    if leb 3 version
    then ec_public_key_serialize_protobuf sender ++ ec_public_key_serialize_protobuf receiver
    else []

identities_lem :
    (version : ℕ) (sender receiver : PublicKey)
    → identities version (some sender) (some receiver) ≡ ok (prefix version sender receiver)
unfolding identities prefix ec_public_key_serialize ec_public_key_serialize_protobuf
identities_lem version sender receiver = elim (Bool-cases (leb 3 version)) [
  | inl new ↦ rw new refl
  | inr old ↦ rw old refl
]

abbrev fields : PublicKey → (counter previous_counter : ℕ) → Buffer → SignalMessageStructure
fields key counter previous_counter ciphertext = record {
  ratchetkey = some (ec_public_key_serialize_protobuf key);
  counter = some counter;
  previouscounter = some previous_counter;
  ciphertext = some ciphertext;
}

abbrev pub mac_of :
    Provider → (version : ℕ) → (sender receiver : PublicKey) → (mac_key bytes : Buffer) → Buffer
mac_of p version sender receiver mac_key bytes =
    take mac_length (mac p mac_key (prefix version sender receiver ++ bytes))

module _ (p : Provider) (h : HasMac p) where
  length-mac_of :
      (version : ℕ) (sender receiver : PublicKey) (mac_key bytes : Buffer)
      → length (mac_of p version sender receiver mac_key bytes) ≡ mac_length
  length-mac_of version sender receiver mac_key bytes =
      let whole = prefix version sender receiver ++ bytes in
      omega (arith, length-take mac_length (mac p mac_key whole), h.size mac_key whole)

  get_mac_lem :
      (version : ℕ) (sender receiver : PublicKey) (mac_key bytes : Buffer)
      → signal_message_get_mac p version (some sender) (some receiver) mac_key bytes
        ≡ ok (mac_of p version sender receiver mac_key bytes)
  unfolding signal_message_get_mac
  get_mac_lem version sender receiver mac_key bytes =
      let whole = prefix version sender receiver ++ bytes in
      let long : leb mac_length (length (mac p mac_key whole)) ≡ true =
        ground (arith, h.size mac_key whole) in
      rw (identities_lem version sender receiver, h.total mac_key whole, long)

  verify_mac_lem :
      (m : SignalMessage) (sender receiver : PublicKey) (mac_key : Buffer)
      → signal_message_verify_mac p m (some sender) (some receiver) mac_key
        ≡ ok (
            same_bytes
              (mac_of p m.message_version sender receiver mac_key
                (take (length m.serialized - mac_length) m.serialized))
              (drop (length m.serialized - mac_length) m.serialized))
  unfolding signal_message_verify_mac
  verify_mac_lem m sender receiver mac_key =
      let part = take (length m.serialized - mac_length) m.serialized in
      rw (
        get_mac_lem m.message_version sender receiver mac_key part,
        eq→== (length (mac_of p m.message_version sender receiver mac_key part)) mac_length
            (length-mac_of m.message_version sender receiver mac_key part),
      )

  -- Where the MAC never fails, a check of a message's MAC never fails, and accepts exactly the
  -- messages whose last 8 bytes are the first 8 bytes of the MAC of what stands before them, from
  -- version 3 on behind the two identities.
  pub verify_mac-exact :
      (m : SignalMessage) (sender receiver : PublicKey) (mac_key : Buffer)
      → (b : Bool) × (signal_message_verify_mac p m (some sender) (some receiver) mac_key ≡ ok b)
        × ((b ≡ true) ↔ (
            mac_of p m.message_version sender receiver mac_key
              (take (length m.serialized - mac_length) m.serialized)
            ≡ drop (length m.serialized - mac_length) m.serialized))
  verify_mac-exact m sender receiver mac_key =
      let ours =
        mac_of p m.message_version sender receiver mac_key
          (take (length m.serialized - mac_length) m.serialized) in
      let theirs = drop (length m.serialized - mac_length) m.serialized in
      (
        same_bytes ours theirs,
        verify_mac_lem m sender receiver mac_key,
        (
          same_bytes-eq ours theirs,
          λ e. subst (λ t. same_bytes ours t ≡ true) e (same_bytes_refl ours),
        ),
      )

-- The bytes before a tail of known length, and the tail.
cut_before :
    (bytes tail : Buffer) (n : ℕ)
    → length tail ≡ n
    → (take (length (bytes ++ tail) - n) (bytes ++ tail) ≡ bytes)
      × (drop (length (bytes ++ tail) - n) (bytes ++ tail) ≡ tail)
cut_before bytes tail n size =
    let at : length (bytes ++ tail) - n ≡ length bytes = omega (arith, length-append bytes tail) in
    rw at (take-append bytes tail, drop-append bytes tail)

-- A codec that packs a message into at least one byte.
pub record IsSignalCodec (codec : Codec SignalMessageStructure) : Type 0 where
  pub laws : IsCodec codec
  pub filled :
      (s : SignalMessageStructure) (key : Buffer)
      → s.ratchetkey ≡ some key
      → 0 < codec.packed_size s

module _ (p : Provider) (codec : Codec SignalMessageStructure) (version : ℕ) (mac_key : Buffer)
    (key : PublicKey) (counter previous_counter : ℕ) (ciphertext : Buffer)
    (sender receiver : PublicKey) where
  abbrev pub body : Buffer
  body = version_byte version ∷ codec.pack (fields key counter previous_counter ciphertext)

  abbrev pub created : SignalMessage
  created = record {
    message_version = version;
    sender_ratchet_key = key;
    counter = counter;
    previous_counter = previous_counter;
    ciphertext = ciphertext;
    serialized = body ++ mac_of p version sender receiver mac_key body;
  }

module _ (p : Provider) (h : HasMac p) (codec : Codec SignalMessageStructure)
    (good : IsSignalCodec codec) (version : ℕ) (supported : IsSupported version) (mac_key : Buffer)
    (key : PublicKey) (counter previous_counter : ℕ) (ciphertext : Buffer)
    (sender receiver : PublicKey) where
  abbrev bytes : Buffer
  bytes = body p codec version mac_key key counter previous_counter ciphertext sender receiver

  abbrev message : SignalMessage
  message = created p codec version mac_key key counter previous_counter ciphertext sender receiver

  pub create_lem :
      signal_message_create p codec version mac_key key counter previous_counter ciphertext
        (some sender)
        (some receiver)
      ≡ ok message
  unfolding signal_message_create signal_message_serialize
  create_lem = rw (
    pack_checked_lem codec good.laws (fields key counter previous_counter ciphertext),
    get_mac_lem p h version sender receiver mac_key bytes,
  )

  length_of_mac : length (mac_of p version sender receiver mac_key bytes) ≡ mac_length
  length_of_mac = length-mac_of p h version sender receiver mac_key bytes

  -- The part that is unpacked.
  message_part_lem :
      message_part message.serialized ≡ codec.pack (fields key counter previous_counter ciphertext)
  unfolding message_part
  message_part_lem =
      let packed = codec.pack (fields key counter previous_counter ciphertext) in
      let tail = mac_of p version sender receiver mac_key bytes in
      let at : length (bytes ++ tail) - 1 - mac_length ≡ length packed =
        omega (arith, length-append packed tail, length_of_mac) in
      rw at (take-append packed tail)

  pub deserialize_lem :
      IsPoint key → signal_message_deserialize codec message.serialized ≡ ok message
  unfolding signal_message_deserialize read_version read_signal_message or_zero
  deserialize_lem point =
      let packed = codec.pack (fields key counter previous_counter ciphertext) in
      let tail = mac_of p version sender receiver mac_key bytes in
      let long : leb (length (bytes ++ tail)) 9 ≡ false = lt→leb (length (bytes ++ tail)) 9 (
        omega (
          arith,
          length-append packed tail,
          length_of_mac,
          good.laws.sized (fields key counter previous_counter ciphertext),
          good.filled (fields key counter previous_counter ciphertext)
              (ec_public_key_serialize_protobuf key) refl,
        )) in
      rw (
        long,
        high_nibble_lem version supported,
        lt→leb version unsupported_version supported.0,
        le→ltb current_version version supported.1,
        message_part_lem,
        good.laws.unpack-pack (fields key counter previous_counter ciphertext),
        decode-serialize_protobuf key point,
      )

  pub verify_created :
      signal_message_verify_mac p message (some sender) (some receiver) mac_key ≡ ok true
  verify_created =
      let tail = mac_of p version sender receiver mac_key bytes in
      let (front, back) = cut_before bytes tail mac_length length_of_mac in
      verify_mac_lem p h message sender receiver mac_key
      ∙ rw (front, back) (ap ok (same_bytes_refl tail))

  -- With a MAC that never fails, a codec of the message that fills at least one byte, version 2 or
  -- 3 and a ratchet key of 32 bytes: a message is created whose version, ratchet key, counter,
  -- previous counter and ciphertext are the ones that were given, its bytes
  -- are read as this message again, and its MAC verifies under the same identities and MAC key.
  pub verify_mac-deserialize-create :
      IsPoint key
      → (m : SignalMessage) × (signal_message_create p codec version mac_key key counter
            previous_counter ciphertext
            (some sender)
            (some receiver)
          ≡ ok m)
        × (m ≡ record {
          message_version = version;
          sender_ratchet_key = key;
          counter = counter;
          previous_counter = previous_counter;
          ciphertext = ciphertext;
          serialized = m.serialized;
        })
        × (signal_message_deserialize codec m.serialized ≡ ok m)
        × (signal_message_verify_mac p m (some sender) (some receiver) mac_key ≡ ok true)
  verify_mac-deserialize-create point =
      (message, create_lem, refl, deserialize_lem point, verify_created)
