-- ===== src/Hkdf.antt =====
-- hkdf.c: HMAC-based key derivation, the message versions 2 and 3. The round counter of the loop is
-- a `uint8_t`; the callers ask for at most 80 bytes, three rounds. From 255 rounds on (8129 bytes
-- in version 3) the counter would wrap below its bound and the loop never end: not modelled.
pub mod Output
use rn_signal_protocol_messa.Base.{
  ℕ, zero, suc, ◌+◌, ◌-◌, ◌/◌, ◌%◌, ◌^◌, ◌≡◌, Bool, List, [], ◌∷◌, ◌++◌, length, take, min, ltb,
  ◌==◌, if◌then◌else◌,
}
use rn_signal_protocol_messa.Status.{Result, ok, err, inval, unknown, ◌>>=◌}
use rn_signal_protocol_messa.Crypto.{Buffer, Provider}

abbrev pub hash_output_size : ℕ
hash_output_size = 32

pub record Hkdf : Type 0 where
  pub iteration_start_offset : ℕ

unfoldable pub hkdf_create : ℕ → Result Hkdf
hkdf_create message_version =
    if message_version == 2
    then ok (record { iteration_start_offset = 0 })
    else if message_version == 3
    then ok (record { iteration_start_offset = 1 })
    else err inval

module _ (p : Provider) where
  unfoldable pub hkdf_extract : (salt input_key_material : Buffer) → Result Buffer
  hkdf_extract salt input_key_material = p.hmac_sha256 salt input_key_material

  -- The rounds that are left, the counter, the last block (none before the first round), the bytes
  -- that are still wanted, and the output so far.
  unfoldable pub expand_loop :
      (rounds : ℕ) (prk info : Buffer) (i : ℕ) (step : Buffer) (remaining : ℕ)
      → Buffer
      → Result Buffer
  expand_loop zero prk info i step remaining out = ok out
  expand_loop (suc rounds) prk info i step remaining out =
      p.hmac_sha256 prk (step ++ (info ++ (i ∷ []))) >>= λ block.
      expand_loop rounds prk info ((i + 1) % 2 ^ 8) block (remaining - min remaining (length block))
        (out ++ take (min remaining (length block)) block)

  unfoldable pub hkdf_expand : Hkdf → (prk info : Buffer) (output_len : ℕ) → Result Buffer
  unfolding expand_loop
  hkdf_expand context prk info output_len =
      expand_loop ((output_len + 31) / hash_output_size) prk info context.iteration_start_offset []
        output_len []

  unfoldable pub hkdf_derive_secrets :
      Hkdf → (input_key_material salt info : Buffer) (output_len : ℕ) → Result Buffer
  unfolding hkdf_extract hkdf_expand
  hkdf_derive_secrets context input_key_material salt info output_len = do
    prk ← hkdf_extract salt input_key_material
    hkdf_expand context prk info output_len
