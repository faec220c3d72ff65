-- ===== src/KeyHelper.antt =====
-- key_helper.c: random identifiers, keys, and lists of pre keys. A 32-bit number is read from the
-- random bytes with the least significant byte first, as on the platforms of the library.
use rn_signal_protocol_messa.Base.{ℕ, ◌+◌, ◌-◌, ◌*◌, ◌%◌, ◌^◌, [], ◌∷◌, ◌==◌, if◌then◌else◌}
use rn_signal_protocol_messa.Status.{Result, ok, err, inval}
use rn_signal_protocol_messa.Action.{Action, pure, lift, ◌>>=◌}
use rn_signal_protocol_messa.Crypto.{Buffer, Provider, signal_crypto_random}
use rn_signal_protocol_messa.Curve.{KeyPair, curve_generate_key_pair}

unfoldable pub little_endian : Buffer → ℕ
little_endian [] = 0
little_endian (b ∷ bs) = b + 256 * little_endian bs

-- INT32_MAX
abbrev pub int32_max : ℕ
int32_max = 2147483647

unfoldable pub registration_range : ℕ → Result ℕ
registration_range extended_range =
    if extended_range == 0
    then ok 16380
    else if extended_range == 1
    then ok (int32_max - 1)
    else err inval

module _ (p : Provider) where
  unfoldable pub generate_registration_id : (extended_range : ℕ) → Action ℕ ℕ
  unfolding registration_range little_endian signal_crypto_random
  generate_registration_id extended_range = do
    range ← lift (registration_range extended_range)
    bytes ← signal_crypto_random p 4
    pure (little_endian bytes % range + 1)

  -- `(result_value & 0x7FFFFFFF) % max`, for a positive `max`
  unfoldable pub get_random_sequence : (max : ℕ) → Action ℕ ℕ
  unfolding little_endian signal_crypto_random
  get_random_sequence max = do
    bytes ← signal_crypto_random p 4
    pure (little_endian bytes % 2 ^ 31 % max)

  unfoldable pub generate_sender_key_id : Action ℕ ℕ
  unfolding get_random_sequence
  generate_sender_key_id = get_random_sequence int32_max

  unfoldable pub generate_sender_key : Action ℕ Buffer
  generate_sender_key = signal_crypto_random p 32

  unfoldable pub generate_sender_signing_key : Action ℕ KeyPair
  generate_sender_signing_key = curve_generate_key_pair p
