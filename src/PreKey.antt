-- ===== src/PreKey.antt =====
-- session_pre_key.c: the one-time and the signed pre keys with their bytes, and the bundle that is
-- published of them. A key pair is never null, as an assertion says.
pub mod RoundTrip
use rn_signal_protocol_messa.Base.{ℕ, Option, none, some, [], ◌∷◌}
use rn_signal_protocol_messa.Status.{Result, ok, err, inval, invalid_key, invalid_proto_buf, ◌>>=◌}
use rn_signal_protocol_messa.Crypto.{Buffer, Codec, pack_checked}
use rn_signal_protocol_messa.Curve.{
  PublicKey, KeyPair, curve_decode_point, curve_decode_private_point, ec_public_key_serialize,
  ec_private_key_serialize,
}

pub record SessionPreKey : Type 0 where
  pub id : ℕ
  pub key_pair : KeyPair

pub record SessionSignedPreKey : Type 0 where
  pub id : ℕ
  pub key_pair : KeyPair
  pub timestamp : ℕ
  pub signature : Buffer

pub record SessionPreKeyBundle : Type 0 where
  pub registration_id : ℕ
  pub device_id : ℕ
  pub pre_key_id : ℕ
  pub pre_key_public : Option PublicKey
  pub signed_pre_key_id : ℕ
  pub signed_pre_key_public : Option PublicKey
  pub signed_pre_key_signature : Option Buffer
  pub identity_key : Option PublicKey

pub record PreKeyRecordStructure : Type 0 where
  pub id : Option ℕ
  pub publickey : Option Buffer
  pub privatekey : Option Buffer

pub record SignedPreKeyRecordStructure : Type 0 where
  pub id : Option ℕ
  pub publickey : Option Buffer
  pub privatekey : Option Buffer
  pub signature : Option Buffer
  pub timestamp : Option ℕ

-- A signature of no bytes is no signature.
unfoldable pub session_pre_key_bundle_create :
    (registration_id device_id pre_key_id : ℕ)
    → (pre_key_public : Option PublicKey) → (signed_pre_key_id : ℕ)
    → (signed_pre_key_public : Option PublicKey) → (signed_pre_key_signature : Buffer)
    → (identity_key : Option PublicKey) → SessionPreKeyBundle
session_pre_key_bundle_create registration_id device_id pre_key_id pre_key_public signed_pre_key_id
      signed_pre_key_public signed_pre_key_signature identity_key =
    record {
      registration_id = registration_id;
      device_id = device_id;
      pre_key_id = pre_key_id;
      pre_key_public = pre_key_public;
      signed_pre_key_id = signed_pre_key_id;
      signed_pre_key_public = signed_pre_key_public;
      signed_pre_key_signature = elim signed_pre_key_signature [
        | [] ↦ none
        | ◌∷◌ b bs ↦ some (b ∷ bs)
      ];
      identity_key = identity_key;
    }

unfoldable pub read_keys : (publickey privatekey : Buffer) → Result KeyPair
read_keys publickey privatekey = do
  public_key ← curve_decode_point publickey
  private_key ← curve_decode_private_point privatekey
  ok (record { public_key = public_key; private_key = private_key })

-- `!has_id || !has_publickey || !has_privatekey`
unfoldable pub read_pre_key : Option ℕ → Option Buffer → Option Buffer → Result SessionPreKey
unfolding read_keys
read_pre_key (some id) (some publickey) (some privatekey) = do
  key_pair ← read_keys publickey privatekey
  ok (record { id = id; key_pair = key_pair })
read_pre_key _ _ _ = err invalid_key

-- A signature of no bytes stops the program at an assertion; the model says `inval`.
unfoldable pub session_signed_pre_key_create :
    (id timestamp : ℕ) → KeyPair → (signature : Buffer) → Result SessionSignedPreKey
session_signed_pre_key_create id timestamp key_pair [] = err inval
session_signed_pre_key_create id timestamp key_pair (b ∷ bs) =
    ok (record { id = id; key_pair = key_pair; timestamp = timestamp; signature = b ∷ bs })

-- One missing field of the five is an error.
unfoldable pub read_signed_pre_key :
    Option ℕ
    → (timestamp : Option ℕ) → (publickey privatekey signature : Option Buffer)
    → Result SessionSignedPreKey
unfolding read_keys session_signed_pre_key_create
read_signed_pre_key (some id) (some timestamp) (some publickey) (some privatekey) (some signature) =
    do
      key_pair ← read_keys publickey privatekey
      session_signed_pre_key_create id timestamp key_pair signature
read_signed_pre_key _ _ _ _ _ = err invalid_key

module _ (codec : Codec PreKeyRecordStructure) where
  unfoldable pub session_pre_key_serialize : Option SessionPreKey → Result Buffer
  session_pre_key_serialize none = err inval
  session_pre_key_serialize (some pre_key) = do
    public_buf ← ec_public_key_serialize (some pre_key.key_pair.public_key)
    private_buf ← ec_private_key_serialize pre_key.key_pair.private_key
    pack_checked codec (record {
      id = some pre_key.id;
      publickey = some public_buf;
      privatekey = some private_buf;
    })

  unfoldable pub session_pre_key_deserialize : Buffer → Result SessionPreKey
  unfolding read_pre_key
  session_pre_key_deserialize bytes = elim (codec.unpack bytes) [
    | none ↦ err invalid_proto_buf
    | some s ↦ read_pre_key s.id s.publickey s.privatekey
  ]

module _ (codec : Codec SignedPreKeyRecordStructure) where
  unfoldable pub session_signed_pre_key_serialize : SessionSignedPreKey → Result Buffer
  session_signed_pre_key_serialize pre_key = do
    public_buf ← ec_public_key_serialize (some pre_key.key_pair.public_key)
    private_buf ← ec_private_key_serialize pre_key.key_pair.private_key
    pack_checked codec (record {
      id = some pre_key.id;
      publickey = some public_buf;
      privatekey = some private_buf;
      signature = some pre_key.signature;
      timestamp = some pre_key.timestamp;
    })

  unfoldable pub session_signed_pre_key_deserialize : Buffer → Result SessionSignedPreKey
  unfolding read_signed_pre_key
  session_signed_pre_key_deserialize bytes = elim (codec.unpack bytes) [
    | none ↦ err invalid_proto_buf
    | some s ↦ read_signed_pre_key s.id s.timestamp s.publickey s.privatekey s.signature
  ]
