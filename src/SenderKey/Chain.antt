-- ===== src/SenderKey/Chain.antt =====
-- The abstract view of a sender's chain: from the first chain key, one key for each iteration.
use rn_signal_protocol_messa.Base.{
  ℕ, zero, suc, ◌+◌, ◌≡◌, [], ◌∷◌, length, take, drop, arith, length-take, some, eq→==,
}
use rn_signal_protocol_messa.Status.{ok}
use rn_signal_protocol_messa.Crypto.{Buffer, Provider, HasMac, mac}
use rn_signal_protocol_messa.Hkdf.Output.{
  blocks_from, derive_blocks_lem, length-blocks_from, hkdf_create_three, version_three,
}
use rn_signal_protocol_messa.SenderKey.{
  SenderMessageKey, SenderChainKey, whisper_group, zero_salt, add_u32, sender_message_key_create,
  sender_chain_key_create_message_key, sender_chain_key_create_next,
}

module _ (p : Provider) where
  -- The key material that "WhisperGroup" separates from the seed of a message key.
  unfoldable pub material : Buffer → Buffer
  material seed = take 48 (blocks_from p (mac p zero_salt seed) whisper_group 1 2)

  unfoldable pub message_key_of : ℕ → Buffer → SenderMessageKey
  unfolding material
  message_key_of iteration seed = record {
    iteration = iteration;
    iv = take 16 (material seed);
    cipher_key = take 32 (drop 16 (material seed));
    seed = seed;
  }

  -- The chain key after `n` steps.
  unfoldable pub chain_after : Buffer → ℕ → Buffer
  chain_after first zero = first
  chain_after first (suc n) = mac p (chain_after first n) (2 ∷ [])

  -- The message key of iteration `base + n`, where `first` is the chain key of iteration `base`.
  unfoldable pub message_key_at : (base : ℕ) (first : Buffer) (n : ℕ) → SenderMessageKey
  unfolding message_key_of chain_after
  message_key_at base first n = message_key_of (base + n) (mac p (chain_after first n) (1 ∷ []))

  module _ (h : HasMac p) where
    pub length-material : (seed : Buffer) → length (material seed) ≡ 48
    unfolding material
    length-material seed = omega (
      arith,
      length-take 48 (blocks_from p (mac p zero_salt seed) whisper_group 1 2),
      length-blocks_from p h (mac p zero_salt seed) whisper_group 1 2,
    )

    pub sender_message_key_create_lem :
        (iteration : ℕ) (seed : Buffer)
        → sender_message_key_create p iteration (some seed) ≡ ok (message_key_of iteration seed)
    unfolding sender_message_key_create message_key_of material
    sender_message_key_create_lem iteration seed = rw (
      hkdf_create_three,
      derive_blocks_lem p version_three seed zero_salt whisper_group 48 h (omega arith),
      eq→== (length (material seed)) 48 (length-material seed),
    )

    pub create_message_key_lem :
        (key : SenderChainKey)
        → sender_chain_key_create_message_key p key
          ≡ ok (message_key_of key.iteration (mac p key.chain_key (1 ∷ [])))
    unfolding sender_chain_key_create_message_key
    create_message_key_lem key =
        rw (h.total _ _)
          (sender_message_key_create_lem key.iteration (mac p key.chain_key (1 ∷ [])))

    pub create_next_lem :
        (key : SenderChainKey)
        → sender_chain_key_create_next p key
          ≡ ok (record {
            iteration = add_u32 key.iteration 1;
            chain_key = mac p key.chain_key (2 ∷ []);
          })
    unfolding sender_chain_key_create_next
    create_next_lem key = rw (h.total _ _)
