-- ===== src/KeyState/Keys.antt =====
-- The list of skipped message keys as a map from iterations: what the walks of `holds` and `unlink`
-- find in it, where no iteration stands twice.
use rn_signal_protocol_messa.Base.{
  ℕ, zero, suc, ◌≡◌, refl, true, false, some, List, [], ◌∷◌, ◌++◌, length, drop, All, arith, ◌==◌,
  if◌then◌else◌, Bool-cases, inl, inr, ◌≤◌, ◌<◌,
}
use rn_signal_protocol_messa.SenderKey.{SenderMessageKey}
use rn_signal_protocol_messa.KeyState.{holds, unlink}

abbrev Keys : Type 0
Keys = List SenderMessageKey

-- No two keys have the same iteration.
abbrev pub IsDistinct : Keys → Type 0
IsDistinct [] = Unit
IsDistinct (k ∷ ks) = (holds ks k.iteration ≡ false) × IsDistinct ks

pub holds-append :
    (ks : Keys) (k : SenderMessageKey) (i : ℕ)
    → holds (ks ++ (k ∷ [])) i ≡ (if k.iteration == i then true else holds ks i)
unfolding holds
holds-append [] k i = refl
holds-append (j ∷ ks) k i = ground (arith, holds-append ks k i)

pub IsDistinct-append :
    (ks : Keys) (k : SenderMessageKey)
    → IsDistinct ks
    → holds ks k.iteration ≡ false
    → IsDistinct (ks ++ (k ∷ []))
unfolding holds
IsDistinct-append [] k d new = (refl, tt)
IsDistinct-append (j ∷ ks) k d new =
    (ground (arith, holds-append ks k j.iteration), IsDistinct-append ks k d.1 (ground arith))

-- Where every iteration is below a bound, none at the bound is held.
pub holds_of_below :
    (ks : Keys) (n i : ℕ) → All (λ k. k.iteration < n) ks → n ≤ i → holds ks i ≡ false
unfolding holds
holds_of_below [] n i below h = refl
holds_of_below (k ∷ ks) n i below h = ground (arith, holds_of_below ks n i below.1 h)

pub holds-drop : (n : ℕ) (ks : Keys) (i : ℕ) → holds ks i ≡ false → holds (drop n ks) i ≡ false
unfolding holds
holds-drop zero ks i h = h
holds-drop (suc n) [] i h = refl
holds-drop (suc n) (k ∷ ks) i h = holds-drop n ks i (ground arith)

pub IsDistinct-drop : (n : ℕ) (ks : Keys) → IsDistinct ks → IsDistinct (drop n ks)
IsDistinct-drop zero ks d = d
IsDistinct-drop (suc n) [] d = tt
IsDistinct-drop (suc n) (k ∷ ks) d = IsDistinct-drop n ks d.1

pub All-drop {κ} :
    (P : SenderMessageKey → Type κ) (n : ℕ) (ks : Keys) → All P ks → All P (drop n ks)
All-drop P zero ks h = h
All-drop P (suc n) [] h = tt
All-drop P (suc n) (k ∷ ks) h = All-drop P n ks h.1

-- What is held is found, with its own iteration, and every property of the keys.
pub unlink_held {κ} :
    (P : SenderMessageKey → Type κ) (ks : Keys) (i : ℕ)
    → All P ks
    → holds ks i ≡ true
    → (k : SenderMessageKey) × ((unlink ks i).0 ≡ some k) × (k.iteration ≡ i) × P k
unfolding holds unlink
unlink_held P [] i h held = cc
unlink_held P (k ∷ ks) i h held = elim (Bool-cases (k.iteration == i)) [
  | inl here ↦ (k, ground arith, ground arith, h.0)
  | inr there ↦
      let rest = unlink_held P ks i h.1 (ground arith) in
      (rest.0, ground (arith, rest.1), rest.2, rest.3)
]

pub All-unlink {κ} :
    (P : SenderMessageKey → Type κ) (ks : Keys) (i : ℕ) → All P ks → All P (unlink ks i).1
unfolding unlink
All-unlink P [] i h = tt
All-unlink P (k ∷ ks) i h = elim (Bool-cases (k.iteration == i)) [
  | inl here ↦ rw here h.1
  | inr there ↦ rw there (h.0, All-unlink P ks i h.1)
]

pub holds-unlink :
    (ks : Keys) (i j : ℕ)
    → IsDistinct ks
    → holds (unlink ks i).1 j ≡ (if i == j then false else holds ks j)
unfolding holds unlink
holds-unlink [] i j d = ground arith
holds-unlink (k ∷ ks) i j d = ground (arith, holds-unlink ks i j d.1)

pub IsDistinct-unlink : (ks : Keys) (i : ℕ) → IsDistinct ks → IsDistinct (unlink ks i).1
unfolding holds unlink
IsDistinct-unlink [] i d = tt
IsDistinct-unlink (k ∷ ks) i d = elim (Bool-cases (k.iteration == i)) [
  | inl here ↦ rw here d.1
  | inr there ↦
      rw there (ground (arith, holds-unlink ks i k.iteration d.1), IsDistinct-unlink ks i d.1)
]

pub length-unlink : (ks : Keys) (i : ℕ) → length (unlink ks i).1 ≤ length ks
unfolding unlink
length-unlink [] i = omega arith
length-unlink (k ∷ ks) i = ground (arith, length-unlink ks i)
