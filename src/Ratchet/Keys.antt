-- ===== src/Ratchet/Keys.antt =====
-- The keys of a session as functions, where the MAC never fails.
use rn_signal_protocol_messa.Base.{
  ℕ, ◌+◌, ◌/◌, ◌≤◌, ◌≡◌, some, [], ◌∷◌, length, take, drop, arith, length-take, eq→==,
}
use rn_signal_protocol_messa.Status.{ok}
use rn_signal_protocol_messa.Crypto.{Buffer, Provider, HasMac, mac}
use rn_signal_protocol_messa.Curve.{PublicKey, PrivateKey, curve_calculate_agreement}
use rn_signal_protocol_messa.Hkdf.{Hkdf, hkdf_derive_secrets}
use rn_signal_protocol_messa.Hkdf.Output.{
  blocks_from, length-blocks_from, derive_blocks_lem, hkdf_create_three, version_three,
}
use rn_signal_protocol_messa.SenderKey.{zero_salt, add_u32}
use rn_signal_protocol_messa.Ratchet.{
  RatchetChainKey, RatchetRootKey, RatchetMessageKeys, key_material_seed, whisper_ratchet,
  whisper_text, ratchet_chain_key_create, ratchet_chain_key_get_message_keys,
  ratchet_chain_key_create_next, split_secret, ratchet_root_key_create_chain, of_size_64,
  ratcheting_session_calculate_derived_keys, ratchet_chain_key_get_base_material,
}

-- The key derivation of message version 2 or 3.
abbrev pub IsVersion : Hkdf → Type 0
IsVersion kdf = kdf.iteration_start_offset ≤ 1

module _ (p : Provider) where
  unfoldable pub derived : Hkdf → (input salt info : Buffer) (len : ℕ) → Buffer
  derived kdf input salt info len =
      take len (blocks_from p (mac p salt input) info kdf.iteration_start_offset ((len + 31) / 32))

  unfoldable pub message_keys_of : RatchetChainKey → RatchetMessageKeys
  unfolding derived
  message_keys_of chain_key =
      let material =
        derived chain_key.kdf (mac p chain_key.key (1 ∷ [])) zero_salt key_material_seed 80 in
      record {
        cipher_key = take 32 material;
        mac_key = take 32 (drop 32 material);
        iv = take 16 (drop 64 material);
        counter = chain_key.index;
      }

  abbrev pub next_of : RatchetChainKey → RatchetChainKey
  next_of chain_key = record {
    kdf = chain_key.kdf;
    key = mac p chain_key.key (2 ∷ []);
    index = add_u32 chain_key.index 1;
  }

  -- The root and the chain that 64 derived bytes are.
  abbrev pub halves : Hkdf → Buffer → RatchetRootKey × RatchetChainKey
  halves kdf secret = (
    record { kdf = kdf; key = take 32 secret },
    record { kdf = kdf; key = take 32 (drop 32 secret); index = 0 },
  )

  -- The root and the chain that follow a root, for an agreed secret.
  unfoldable pub chain_of : RatchetRootKey → Buffer → RatchetRootKey × RatchetChainKey
  unfolding derived
  chain_of root shared_secret =
      halves root.kdf (derived root.kdf shared_secret root.key whisper_ratchet 64)

  unfoldable pub first_keys_of : Buffer → RatchetRootKey × RatchetChainKey
  unfolding derived
  first_keys_of secret =
      halves version_three (derived version_three secret zero_salt whisper_text 64)

  pub first_keys_of-IsVersion :
      (secret : Buffer)
      → IsVersion (first_keys_of secret).0.kdf × IsVersion (first_keys_of secret).1.kdf
  unfolding first_keys_of
  first_keys_of-IsVersion secret = (omega arith, omega arith)

  pub chain_of-IsVersion :
      (root : RatchetRootKey) (secret : Buffer)
      → IsVersion root.kdf
      → IsVersion (chain_of root secret).0.kdf × IsVersion (chain_of root secret).1.kdf
  unfolding chain_of
  chain_of-IsVersion root secret v = (v, v)

  module _ (h : HasMac p) where
    length-derived :
        (kdf : Hkdf) (input salt info : Buffer) (len : ℕ)
        → length (derived kdf input salt info len) ≡ len
    unfolding derived
    length-derived kdf input salt info len = omega (
      arith,
      length-take len
          (blocks_from p (mac p salt input) info kdf.iteration_start_offset ((len + 31) / 32)),
      length-blocks_from p h (mac p salt input) info kdf.iteration_start_offset ((len + 31) / 32),
    )

    derive_lem :
        (kdf : Hkdf) (input salt info : Buffer) (len : ℕ)
        → IsVersion kdf
        → len ≤ 80
        → hkdf_derive_secrets p kdf input salt info len ≡ ok (derived kdf input salt info len)
    unfolding derived
    derive_lem kdf input salt info len v short =
        derive_blocks_lem p kdf input salt info len h (omega arith)

    pub get_message_keys_lem :
        (chain_key : RatchetChainKey)
        → IsVersion chain_key.kdf
        → ratchet_chain_key_get_message_keys p chain_key ≡ ok (message_keys_of chain_key)
    unfolding ratchet_chain_key_get_message_keys ratchet_chain_key_get_base_material message_keys_of
    get_message_keys_lem chain_key v =
        let input = mac p chain_key.key (1 ∷ []) in
        rw (
          h.total chain_key.key (1 ∷ []),
          derive_lem chain_key.kdf input zero_salt key_material_seed 80 v (omega arith),
          eq→== (length (derived chain_key.kdf input zero_salt key_material_seed 80)) 80
              (length-derived chain_key.kdf input zero_salt key_material_seed 80),
        )

    pub create_next_lem :
        (chain_key : RatchetChainKey)
        → ratchet_chain_key_create_next p chain_key ≡ ok (next_of chain_key)
    unfolding ratchet_chain_key_create_next ratchet_chain_key_get_base_material
        ratchet_chain_key_create
    create_next_lem chain_key = rw (h.total chain_key.key (2 ∷ []))

    pub create_chain_lem :
        (root : RatchetRootKey) (theirs : PublicKey) (ours : PrivateKey) (shared_secret : Buffer)
        → IsVersion root.kdf
        → curve_calculate_agreement p (some theirs) (some ours) ≡ ok shared_secret
        → ratchet_root_key_create_chain p root (some theirs) (some ours)
          ≡ ok (chain_of root shared_secret)
    unfolding ratchet_root_key_create_chain split_secret chain_of
    create_chain_lem root theirs ours shared_secret v agreed = rw (
      agreed,
      derive_lem root.kdf shared_secret root.key whisper_ratchet 64 v (omega arith),
      eq→== (length (derived root.kdf shared_secret root.key whisper_ratchet 64)) 64
          (length-derived root.kdf shared_secret root.key whisper_ratchet 64),
    )

    pub calculate_derived_keys_lem :
        (secret : Buffer)
        → ratcheting_session_calculate_derived_keys p secret ≡ ok (first_keys_of secret)
    unfolding ratcheting_session_calculate_derived_keys split_secret first_keys_of of_size_64
    calculate_derived_keys_lem secret = rw (
      hkdf_create_three,
      derive_lem version_three secret zero_salt whisper_text 64 (omega arith) (omega arith),
      eq→== (length (derived version_three secret zero_salt whisper_text 64)) 64
          (length-derived version_three secret zero_salt whisper_text 64),
    )
