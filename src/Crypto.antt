-- ===== src/Crypto.antt =====
-- The code that the library calls and does not hold: the client's `signal_crypto_provider`
-- (signal_protocol.h), the curve25519 folder and protobuf-c. Each is a record of functions, an
-- argument of the definitions that use it. What is documented of them is a separate record, a
-- hypothesis of the theorems that rest on it.
use rn_signal_protocol_messa.Base.{
  ℕ, ◌+◌, ◌≡◌, Bool, Option, some, List, [], length, ◌==◌, if◌then◌else◌, arith,
}
use rn_signal_protocol_messa.Status.{Result, ok, err, invalid_proto_buf}
use rn_signal_protocol_messa.Action.{Action}

-- `signal_buffer`, or a pointer with a length: a sequence of bytes.
abbrev pub Buffer : Type 0
Buffer = List ℕ

-- `SG_CIPHER_AES_CTR_NOPADDING` and `SG_CIPHER_AES_CBC_PKCS5`
pub data Cipher : Type 0 where
  aes_ctr_nopadding aes_cbc_pkcs5 : Cipher

-- `hmac_sha256 key message`: an init, updates and a final, where the updates append.
-- `random n len`: the n-th request of the random source, so that a run is a function.
-- `donna secret point` is curve25519_donna: its status and the bytes that it writes.
-- `verify signature point message`: curve25519_verify returned 0.
pub record Provider : Type 0 where
  pub hmac_sha256 : Buffer → Buffer → Result Buffer
  pub random : ℕ → ℕ → Result Buffer
  pub encrypt : Cipher → Buffer → Buffer → Buffer → Result Buffer
  pub decrypt : Cipher → Buffer → Buffer → Buffer → Result Buffer
  pub donna : Buffer → Buffer → Option Buffer
  pub sign : Buffer → Buffer → Buffer → Result Buffer
  pub verify : Buffer → Buffer → Buffer → Bool

-- signal_crypto_random: every request moves on to the next.
unfoldable pub signal_crypto_random : Provider → ℕ → Action ℕ Buffer
signal_crypto_random p len n = (p.random n len, n + 1)

-- The digest, where there is one.
unfoldable pub mac : Provider → Buffer → Buffer → Buffer
mac p key message = elim (p.hmac_sha256 key message) [ ok digest ↦ digest | err _ ↦ [] ]

-- A provider whose HMAC-SHA256 always succeeds and yields 32 bytes.
pub record HasMac (p : Provider) : Type 0 where
  pub total : (key message : Buffer) → p.hmac_sha256 key message ≡ ok (mac p key message)
  pub size : (key message : Buffer) → length (mac p key message) ≡ 32

-- A block cipher that decrypts what it encrypted under the same key and initialisation vector.
pub record HasCipher (p : Provider) : Type 0 where
  pub inverse :
      (c : Cipher) (key iv plaintext ciphertext : Buffer)
      → p.encrypt c key iv plaintext ≡ ok ciphertext
      → p.decrypt c key iv ciphertext ≡ ok plaintext

-- The generated functions of one protobuf message: get_packed_size, pack and unpack.
pub record Codec (A : Type 0) : Type 0 where
  pub packed_size : A → ℕ
  pub pack : A → Buffer
  pub unpack : Buffer → Option A

-- Packing fills the announced size, and unpacking undoes it.
pub record IsCodec {A : Type 0} (c : Codec A) : Type 0 where
  pub sized : (a : A) → length (c.pack a) ≡ c.packed_size a
  pub unpack-pack : (a : A) → c.unpack (c.pack a) ≡ some a

-- `result_size = …__pack(…); if(result_size != len) …`
unfoldable pub pack_checked : {A : Type 0} → Codec A → A → Result Buffer
pack_checked c a =
    if length (c.pack a) == c.packed_size a then ok (c.pack a) else err invalid_proto_buf

pub pack_checked_lem :
    {A : Type 0} (c : Codec A) → IsCodec c → (a : A) → pack_checked c a ≡ ok (c.pack a)
unfolding pack_checked
pack_checked_lem c h a = ground (arith, h.sized a)
