-- ===== src/Hkdf/Output.antt =====
-- What hkdf.c derives: the output of RFC 5869, cut to the length that is asked for.
use rn_signal_protocol_messa.Base.{
  ℕ, zero, suc, ◌+◌, ◌-◌, ◌*◌, ◌/◌, ◌%◌, ◌^◌, ◌<◌, ◌≡◌, refl, [], ◌∷◌, ◌++◌, length, take, min,
  arith, take_nil, take-min, take-append_cut, length-take, length-append, ap, ◌∙◌, ◌≤◌,
}
use rn_signal_protocol_messa.Status.{ok, ◌>>=◌}
use rn_signal_protocol_messa.Crypto.{Buffer, Provider, HasMac, mac}
use rn_signal_protocol_messa.Hkdf.{
  Hkdf, hash_output_size, hkdf_create, hkdf_extract, expand_loop, hkdf_expand, hkdf_derive_secrets,
}

module _ (p : Provider) (prk info : Buffer) (offset : ℕ) where
  -- The n-th block, where the number in the first block is `offset`.
  pub block_from : ℕ → Buffer
  block_from zero = []
  block_from (suc n) = mac p prk (block_from n ++ (info ++ ((offset + n) ∷ [])))

  -- The first n blocks.
  pub blocks_from : ℕ → Buffer
  unfolding block_from
  blocks_from zero = []
  blocks_from (suc n) = blocks_from n ++ block_from (suc n)

module _ (p : Provider) (h : HasMac p) (prk info : Buffer) (offset : ℕ) where
  pub length-blocks_from : (k : ℕ) → length (blocks_from p prk info offset k) ≡ k * hash_output_size
  unfolding blocks_from block_from
  length-blocks_from zero = refl
  length-blocks_from (suc k) = omega (
    arith,
    length-blocks_from k,
    length-append (blocks_from p prk info offset k) (block_from p prk info offset (suc k)),
    h.size prk (block_from p prk info offset k ++ (info ++ ((offset + k) ∷ []))),
  )

  -- One more block behind an output that is cut to `len` bytes.
  grow :
      (len k : ℕ)
      → take len (blocks_from p prk info offset k)
          ++ take
              (min (len - k * hash_output_size) (length (block_from p prk info offset (suc k))))
              (block_from p prk info offset (suc k))
        ≡ take len (blocks_from p prk info offset (suc k))
  unfolding blocks_from
  grow len k = rw (take-min, take-append_cut, length-blocks_from k)

  -- The loop's state after `k` rounds is cut out of the first k blocks.
  expand_loop_lem :
      (len rounds k : ℕ)
      → offset + k + rounds < 256
      → expand_loop p rounds prk info
          (offset + k)
          (block_from p prk info offset k)
          (len - k * hash_output_size)
          (take len (blocks_from p prk info offset k))
        ≡ ok (take len (blocks_from p prk info offset (k + rounds)))
  unfolding expand_loop block_from
  expand_loop_lem len zero k fits = let e : k + 0 ≡ k = omega arith in rw e
  expand_loop_lem len (suc rounds) k fits =
      let block = block_from p prk info offset (suc k) in
      let size : length block ≡ 32 = h.size _ _ in
      let next : (offset + k + 1) % 2 ^ 8 ≡ offset + suc k = omega arith in
      let left : len - k * 32 - min (len - k * 32) (length block) ≡ len - suc k * 32 =
        omega (arith, size) in
      let all : k + suc rounds ≡ suc k + rounds = omega arith in
      rw (h.total _ _) cc
        (next, left, grow len k, all, expand_loop_lem len rounds (suc k) (omega arith))

  -- hkdf_expand starts the loop with nothing done.
  hkdf_expand_lem :
      (len rounds : ℕ)
      → offset + rounds < 256
      → expand_loop p rounds prk info offset [] len []
        ≡ ok (take len (blocks_from p prk info offset rounds))
  unfolding block_from blocks_from
  hkdf_expand_lem len rounds fits =
      let first : offset + 0 ≡ offset = omega arith in
      let whole : len - 0 * 32 ≡ len = omega arith in
      let none_yet : take {A = ℕ} len [] ≡ [] = take_nil len in
      let same : 0 + rounds ≡ rounds = omega arith in
      cc (first, whole, none_yet, same, expand_loop_lem len rounds 0 (omega arith))

pub derive_blocks_lem :
    (p : Provider) (context : Hkdf) (input salt info : Buffer) (len : ℕ)
    → HasMac p
    → context.iteration_start_offset + (len + 31) / 32 < 256
    → hkdf_derive_secrets p context input salt info len
      ≡ ok (
          take len (
            blocks_from p (mac p salt input) info context.iteration_start_offset ((len + 31) / 32)))
unfolding hkdf_derive_secrets hkdf_extract hkdf_expand
derive_blocks_lem p context input salt info len h fits = rw (h.total salt input) (
    hkdf_expand_lem p h (mac p salt input) info context.iteration_start_offset len ((len + 31) / 32)
      fits)

-- Where the HMAC calls succeed and the last block index is below 256, the derived secrets are exactly
-- as many bytes as were asked for.
pub length-hkdf_derive_secrets :
    (p : Provider) (context : Hkdf) (input salt info : Buffer) (len : ℕ)
    → HasMac p
    → context.iteration_start_offset + (len + 31) / 32 < 256
    → (output : Buffer) × (hkdf_derive_secrets p context input salt info len ≡ ok output)
      × (length output ≡ len)
length-hkdf_derive_secrets p context input salt info len h fits =
    let blocks : Buffer =
      blocks_from p (mac p salt input) info context.iteration_start_offset ((len + 31) / 32) in
    (
      take len blocks,
      derive_blocks_lem p context input salt info len h fits,
      omega (
        arith,
        length-take len blocks,
        length-blocks_from p h (mac p salt input) info context.iteration_start_offset
            ((len + 31) / 32),
      ),
    )

abbrev pub version_three : Hkdf
version_three = record { iteration_start_offset = 1 }

abbrev pub version_two : Hkdf
version_two = record { iteration_start_offset = 0 }

pub hkdf_create_three : hkdf_create 3 ≡ ok version_three
unfolding hkdf_create
hkdf_create_three = refl

pub hkdf_create_two : hkdf_create 2 ≡ ok version_two
unfolding hkdf_create
hkdf_create_two = refl

module _ (p : Provider) (prk info : Buffer) where
  -- T(n) of RFC 5869, section 2.3: T(0) is empty, and T(n) = HMAC(prk, T(n - 1) | info | n).
  pub rfc_block : ℕ → Buffer
  rfc_block zero = []
  rfc_block (suc n) = mac p prk (rfc_block n ++ (info ++ (suc n ∷ [])))

  -- T(1) | T(2) | … | T(n)
  pub rfc_blocks : ℕ → Buffer
  rfc_blocks zero = []
  rfc_blocks (suc n) = rfc_blocks n ++ rfc_block (suc n)

  block_from_one : (n : ℕ) → block_from p prk info 1 n ≡ rfc_block n
  unfolding block_from rfc_block
  block_from_one zero = refl
  block_from_one (suc n) = let number : 1 + n ≡ suc n = omega arith in rw (number, block_from_one n)

  blocks_from_one : (n : ℕ) → blocks_from p prk info 1 n ≡ rfc_blocks n
  unfolding blocks_from rfc_blocks
  blocks_from_one zero = refl
  blocks_from_one (suc n) = rw (blocks_from_one n, block_from_one (suc n))

-- With an HMAC-SHA256 that always succeeds with 32 bytes, and for at most 254 blocks: with the
-- derivation of message version 3, hkdf_derive_secrets yields the first `len` bytes of
-- T(1) | T(2) | … of RFC 5869, for the key that the MAC extracts with the salt; with that of
-- version 2, it yields the first `len` bytes of the same chain of blocks numbered from 0.
pub hkdf_derive_secrets_lem :
    (p : Provider) (input salt info : Buffer) (len : ℕ)
    → HasMac p
    → (len + 31) / 32 ≤ 254
    → ((hkdf_create 3 >>= λ context. hkdf_derive_secrets p context input salt info len)
        ≡ ok (take len (rfc_blocks p (mac p salt input) info ((len + 31) / 32))))
      × ((hkdf_create 2 >>= λ context. hkdf_derive_secrets p context input salt info len)
          ≡ ok (take len (blocks_from p (mac p salt input) info 0 ((len + 31) / 32))))
unfolding hkdf_create
hkdf_derive_secrets_lem p input salt info len h fits = (
  derive_blocks_lem p version_three input salt info len h (omega arith)
      ∙ ap (λ bs. ok (take len bs)) (blocks_from_one p (mac p salt input) info ((len + 31) / 32)),
  derive_blocks_lem p version_two input salt info len h (omega arith),
)
