-- ===== src/Curve/Clamp.antt =====
-- The masks of curve_generate_private_key, as arithmetic on the first and the last byte.
use Prim.Native.Nat.{bit_and, bit_or}
use rn_signal_protocol_messa.Base.{
  ℕ, zero, suc, ◌+◌, ◌-◌, ◌%◌, ◌<◌, ◌≡◌, refl, ap, sym, subst, Bool, true, ◌&&◌, ◌==◌, ==→eq,
  Bool-cases, inl, inr, [], ◌∷◌, ◌++◌, length, arith,
}
use rn_signal_protocol_messa.Crypto.{Buffer}
use rn_signal_protocol_messa.Curve.{modify, clamp}

-- Whether a test holds of every number below `n`.
unfoldable all_below : ℕ → (ℕ → Bool) → Bool
all_below zero f = true
all_below (suc n) f = f n && all_below n f

all_below_lem : (n : ℕ) (f : ℕ → Bool) (b : ℕ) → all_below n f ≡ true → b < n → f b ≡ true
unfolding all_below
all_below_lem zero f b all below = ground arith
all_below_lem (suc n) f b all below =
    let here : f n ≡ true = ground arith in
    let rest : all_below n f ≡ true = ground arith in
    elim (Bool-cases (b == n)) [
      | inl last ↦ subst (λ x. f x ≡ true) (sym (==→eq b n last)) here
      | inr before ↦ all_below_lem n f b rest (ground (arith, below))
    ]

first_mask : (b : ℕ) → b < 256 → bit_and b 248 ≡ b - b % 8
unfolding all_below
first_mask b byte =
    ==→eq (bit_and b 248) (b - b % 8)
      (all_below_lem 256 (λ x. bit_and x 248 == x - x % 8) b refl byte)

last_mask : (b : ℕ) → b < 256 → bit_or (bit_and b 127) 64 ≡ 64 + b % 64
unfolding all_below
last_mask b byte =
    ==→eq (bit_or (bit_and b 127) 64) (64 + b % 64)
      (all_below_lem 256 (λ x. bit_or (bit_and x 127) 64 == 64 + x % 64) b refl byte)

modify_last :
    (front : Buffer) (f : ℕ → ℕ) (b : ℕ)
    → modify (length front) f (front ++ (b ∷ [])) ≡ front ++ (f b ∷ [])
unfolding modify
modify_last [] f b = refl
modify_last (c ∷ cs) f b = ap (λ bs. c ∷ bs) (modify_last cs f b)

-- The three low bits of the first byte are cleared; of the last byte, the top bit is cleared and the
-- one below it is set; the bytes between are kept.
pub clamp_lem :
    (first last : ℕ) (between : Buffer)
    → first < 256
    → last < 256
    → length between ≡ 30
    → clamp (first ∷ (between ++ (last ∷ [])))
      ≡ (first - first % 8) ∷ (between ++ ((64 + last % 64) ∷ []))
unfolding clamp modify
clamp_lem first last between first_byte last_byte thirty =
    let at : 30 ≡ length between = sym thirty in
    rw (
      first_mask first first_byte,
      at,
      modify_last between (λ b. bit_and b 127) last,
      modify_last between (λ b. bit_or b 64) (bit_and last 127),
      last_mask last last_byte,
    )
