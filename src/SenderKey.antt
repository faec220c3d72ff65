-- ===== src/SenderKey.antt =====
-- sender_key.c: the keys of one sender in a group. A chain key yields the message key of its
-- iteration and the chain key of the next one. A null pointer is `none`; an allocation succeeds.
pub mod Chain
use rn_signal_protocol_messa.Base.{
  ℕ, ◌+◌, ◌%◌, ◌^◌, Option, none, some, List, [], ◌∷◌, length, take, drop, replicate, ◌==◌,
  if◌then◌else◌, ◌≡◌, refl,
}
use rn_signal_protocol_messa.Status.{Result, ok, err, inval, unknown, guard, ◌>>=◌, ◌>>◌}
use rn_signal_protocol_messa.Crypto.{Buffer, Provider}
use rn_signal_protocol_messa.Hkdf.{hkdf_create, hkdf_derive_secrets}

pub record SenderMessageKey : Type 0 where
  pub iteration : ℕ
  pub iv : Buffer
  pub cipher_key : Buffer
  pub seed : Buffer

pub record SenderChainKey : Type 0 where
  pub iteration : ℕ
  pub chain_key : Buffer

-- "WhisperGroup"
abbrev pub whisper_group : Buffer
whisper_group =
    b'W' ∷ b'h' ∷ b'i' ∷ b's' ∷ b'p' ∷ b'e' ∷ b'r' ∷ b'G' ∷ b'r' ∷ b'o' ∷ b'u' ∷ b'p' ∷ []

abbrev pub zero_salt : Buffer
zero_salt = replicate 32 0

-- `uint32_t` addition
abbrev pub add_u32 : ℕ → ℕ → ℕ
add_u32 a b = (a + b) % 2 ^ 32

module _ (p : Provider) where
  unfoldable pub sender_message_key_create : ℕ → Option Buffer → Result SenderMessageKey
  sender_message_key_create iteration none = err inval
  sender_message_key_create iteration (some seed) = do
    kdf ← hkdf_create 3
    derivative ← hkdf_derive_secrets p kdf seed zero_salt whisper_group 48
    guard (length derivative == 48) unknown
    ok (record {
      iteration = iteration;
      iv = take 16 derivative;
      cipher_key = take 32 (drop 16 derivative);
      seed = seed;
    })

  unfoldable pub sender_chain_key_get_derivative : ℕ → Buffer → Result Buffer
  sender_chain_key_get_derivative seed key = p.hmac_sha256 key (seed ∷ [])

unfoldable pub sender_chain_key_create : ℕ → Option Buffer → Result SenderChainKey
sender_chain_key_create iteration none = err inval
sender_chain_key_create iteration (some chain_key) =
    ok (record { iteration = iteration; chain_key = chain_key })

module _ (p : Provider) where
  -- MESSAGE_KEY_SEED is 1.
  unfoldable pub sender_chain_key_create_message_key : SenderChainKey → Result SenderMessageKey
  unfolding sender_chain_key_get_derivative
  sender_chain_key_create_message_key key = do
    derivative ← sender_chain_key_get_derivative p 1 key.chain_key
    sender_message_key_create p key.iteration (some derivative)

  -- CHAIN_KEY_SEED is 2.
  unfoldable pub sender_chain_key_create_next : SenderChainKey → Result SenderChainKey
  unfolding sender_chain_key_get_derivative sender_chain_key_create
  sender_chain_key_create_next key = do
    derivative ← sender_chain_key_get_derivative p 2 key.chain_key
    sender_chain_key_create (add_u32 key.iteration 1) (some derivative)

pub sender_chain_key_create_lem :
    (iteration : ℕ) (chain_key : Buffer)
    → sender_chain_key_create iteration (some chain_key)
      ≡ ok (record { iteration = iteration; chain_key = chain_key })
unfolding sender_chain_key_create
sender_chain_key_create_lem iteration chain_key = refl
