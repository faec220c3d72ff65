-- ===== src/Curve/Format.antt =====
-- The byte formats of the keys.
use rn_signal_protocol_messa.Base.{
  suc, ◌≡◌, ◌∙◌, sym, ap, ap₂, some, inl, inr, [], ◌∷◌, length, arith, take_all, ◌==◌, eq→==, ==→eq,
  Bool-cases,
}
use rn_signal_protocol_messa.Status.{ok, ok_injective, ◌>>=◌}
use rn_signal_protocol_messa.Crypto.{Buffer}
use rn_signal_protocol_messa.Curve.{
  PublicKey, PrivateKey, djb_type, djb_key_len, curve_decode_point, ec_public_key_serialize,
  ec_public_key_serialize_protobuf, curve_decode_private_point, ec_private_key_serialize_protobuf,
}

-- The struct's array has 32 bytes.
abbrev pub IsPoint : PublicKey → Type 0
IsPoint key = length key.point ≡ djb_key_len

abbrev pub IsScalar : PrivateKey → Type 0
IsScalar key = length key.scalar ≡ djb_key_len

-- A public key of 32 bytes that is serialized and decoded again is the same key.
pub decode-serialize :
    (key : PublicKey)
    → IsPoint key
    → (ec_public_key_serialize (some key) >>= curve_decode_point) ≡ ok key
unfolding ec_public_key_serialize curve_decode_point
decode-serialize key h =
    rw (
      eq→== (suc (length key.point)) 33 (omega arith),
      take_all djb_key_len key.point (omega arith),
    )

pub decode-serialize_protobuf :
    (key : PublicKey)
    → IsPoint key
    → curve_decode_point (ec_public_key_serialize_protobuf key) ≡ ok key
unfolding ec_public_key_serialize_protobuf curve_decode_point
decode-serialize_protobuf key h =
    rw (
      eq→== (suc (length key.point)) 33 (omega arith),
      take_all djb_key_len key.point (omega arith),
    )

pub decode_private-serialize_protobuf :
    (key : PrivateKey)
    → IsScalar key
    → curve_decode_private_point (ec_private_key_serialize_protobuf key) ≡ ok key
unfolding ec_private_key_serialize_protobuf curve_decode_private_point
decode_private-serialize_protobuf key h = ground arith

-- Of all byte strings exactly the serialized public keys decode: what decodes to a key is the type
-- byte and the 32 bytes of that key.
pub serialize-decode :
    (bytes : Buffer) (key : PublicKey)
    → curve_decode_point bytes ≡ ok key
    → IsPoint key × (ec_public_key_serialize_protobuf key ≡ bytes)
unfolding ec_public_key_serialize_protobuf curve_decode_point
serialize-decode [] key h = cc h
serialize-decode (b ∷ bs) key h = elim (Bool-cases (b == djb_type)) [
  | inr other ↦ cc (rw other at h)
  | inl type ↦ elim (Bool-cases (length (b ∷ bs) == 33)) [
    | inr long ↦ cc (rw (type, long) at h)
    | inl size ↦
        let e : key.point ≡ bs =
          sym (ap (λ (k : PublicKey). k.point) (ok_injective (rw (type, size) at h)))
          ∙ take_all djb_key_len bs (omega (arith, ==→eq (suc (length bs)) 33 size)) in
        (
          ap length e ∙ omega (arith, ==→eq (suc (length bs)) 33 size),
          ap₂ ◌∷◌ (sym (==→eq b djb_type type)) e,
        )
  ]
]
