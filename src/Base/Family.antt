-- ===== src/Base/Family.antt =====
-- Families that are numbered from 0, such as the registers of a processor or the threads of a run:
-- a family with one member replaced, and sums over the first members.
use Prim.Native.Nat.{ℕ, zero, suc, ◌+◌, ◌*◌, ◌≤◌, ◌<◌}
use mathlib.Core.Path.{◌≡◌, refl, ap, ◌∙◌}
use mathlib.Core.Logic.{◌⊎◌, inl, inr}
use mathlib.Core.Bool.{Bool, true, false}
use native.Mathlib.Omega.{arith}
use hwvar.Base.Tests.{if◌then◌else◌, ◌==◌, ltb, Bool-cases, if_then}

abbrev pub set_at {ℓ} : {A : Type ℓ} → (ℕ → A) → ℕ → A → ℕ → A
set_at f i a j = if i == j then a else f j

unfoldable pub total : (ℕ → ℕ) → ℕ → ℕ
total f zero = 0
total f (suc n) = f n + total f n

pub total-suc : (f g : ℕ → ℕ) (n : ℕ) → ((j : ℕ) → j < n → f j < g j) → total f n + n ≤ total g n
unfolding total
total-suc f g zero h = omega arith
total-suc f g (suc n) h =
    omega (arith, h n (omega arith), total-suc f g n (λ j l. h j (omega arith)))

pub total-le : (f : ℕ → ℕ) (k n : ℕ) → ((j : ℕ) → j < n → f j ≤ k) → total f n ≤ k * n
unfolding total
total-le f k zero h = omega arith
total-le f k (suc n) h =
    let here = h n (omega arith) in
    let rest = total-le f k n (λ j l. h j (omega arith)) in grind arith

-- Ones that add up to their number are all there.
pub total_full :
    (f : ℕ → ℕ) (n j : ℕ) → ((k : ℕ) → k < n → f k ≤ 1) → n ≤ total f n → j < n → f j ≡ 1
unfolding total
total_full f zero j few full l = absurd (omega arith)
total_full f (suc n) j few full l =
    let last = few n (omega arith) in
    let most = total-le f 1 n (λ k h. few k (omega arith)) in
    elim (Bool-cases (j == n)) [
      | inl same ↦ let e : j ≡ n = ground arith in ap f e ∙ omega arith
      | inr other ↦ total_full f n j (λ k h. few k (omega arith)) (omega arith) (ground arith)
    ]

module _ {ℓ} {A : Type ℓ} (f : A → ℕ) (g : ℕ → A) (i : ℕ) (a : A) where
  total-past : (n : ℕ) → n ≤ i → total (λ j. f (set_at g i a j)) n ≡ total (λ j. f (g j)) n
  unfolding total
  total-past zero h = refl
  total-past (suc n) h = ground (arith, total-past n)

  -- To replace one member moves the sum by as much.
  pub total-set_at :
      (n : ℕ) → i < n → total (λ j. f (set_at g i a j)) n + f (g i) ≡ total (λ j. f (g j)) n + f a
  unfolding total
  total-set_at zero h = absurd (omega arith)
  total-set_at (suc n) h = elim (Bool-cases (ltb i n)) [
    | inl below ↦ ground (arith, total-set_at n)
    | inr last ↦ let e : i ≡ n = ground arith in ground (arith, total-past n, ap g e)
  ]

-- A search through the first members.
pub find :
    (p : ℕ → Bool) (n : ℕ) → ((j : ℕ) × (j < n) × (p j ≡ true)) ⊎ ((j : ℕ) → j < n → p j ≡ false)
find p zero = inr (λ j h. absurd (omega arith))
find p (suc n) = elim (Bool-cases (p n)) [
  | inl here ↦ inl (n, omega arith, here)
  | inr no_more ↦ elim (find p n) [
    | inl (j, l, e) ↦ inl (j, omega arith, e)
    | inr none_below ↦ inr (λ j h. elim (Bool-cases (j == n)) [
      | inl same ↦ let e : j ≡ n = ground arith in ap p e ∙ no_more
      | inr other ↦ none_below j (ground arith)
    ])
  ]
]

pub set_at_self {ℓ} : {A : Type ℓ} (f : ℕ → A) (i : ℕ) (a : A) → set_at f i a i ≡ a
set_at_self f i a = let e : (i == i) ≡ true = ground arith in if_then _ e
