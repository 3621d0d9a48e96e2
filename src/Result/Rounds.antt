-- ===== src/Result/Rounds.antt =====
-- The rounds of all workers on the one array, in any order: each sample ends in its own row.
use mathlib.Core.Path.{subst, subst₂}
use hwvar.Base.{
  ℕ, sym, ◌+◌, ◌*◌, ◌<◌, ◌^◌, List, [], ◌∷◌, ◌≡◌, refl, ◌⊎◌, inl, inr, arith, length, get_elem?,
  sub32, ◌∙◌, ap, dec_lt,
}
use hwvar.Result.{Probe, worker_rep, result_base}
use hwvar.Result.Row.{
  sample, worker_rep-inside, worker_rep-outside, length-worker_rep, row_end, rep_index-row, mul_lt,
}

-- A round: the thread that makes it, and which of its repetitions it is.
pub record Round : Type 0 where
  pub thread : ℕ
  pub rep : ℕ

-- The round of a worker on the array, with the `result` and `num_pmcs` that its work carries.
unfoldable pub round : ℕ → ℕ → (ℕ → ℕ → Probe) → Round → List ℕ → List ℕ
round reps cols probe x d =
    worker_rep (result_base x.thread reps cols) (sub32 cols 1) x.rep (probe x.thread x.rep) d

-- The rounds of all workers in the order in which they come.
unfoldable pub rounds : ℕ → ℕ → (ℕ → ℕ → Probe) → List Round → List ℕ → List ℕ
rounds reps cols probe [] d = d
rounds reps cols probe (x ∷ xs) d = rounds reps cols probe xs (round reps cols probe x d)

abbrev pub Has : Round → List Round → Type 0
Has x [] = ⊥
Has x (y ∷ ys) = (x ≡ y) ⊎ Has x ys

-- Every round is one that some thread has to make, and none is left out.
pub record Schedule (threads reps : ℕ) (xs : List Round) : Type 0 where
  pub within : (x : Round) → Has x xs → (x.thread < threads) × (x.rep < reps)
  pub complete : (t r : ℕ) → t < threads → r < reps → Has (record { thread = t; rep = r }) xs

-- The row of thread `t` and repetition `r` holds its sample.
abbrev pub Held : ℕ → ℕ → (ℕ → ℕ → Probe) → ℕ → ℕ → List ℕ → Type 0
Held reps cols probe t r d =
    (k : ℕ) → k < cols → get_elem? d ((t * reps + r) * cols + k) ≡ get_elem? (sample (probe t r)) k

mul_cancel_lt : (a b c d n : ℕ) → b < n → d < n → a * n + b ≡ c * n + d → (a ≡ c) × (b ≡ d)
mul_cancel_lt a b c d n hb hd e = elim (dec_lt a c) [
  | yes p ↦ absurd (omega (arith, mul_lt a c n p))
  | no p ↦ elim (dec_lt c a) [
    | yes q ↦ absurd (omega (arith, mul_lt c a n q))
    | no q ↦ let same : a ≡ c = omega arith in (same, omega (arith, ap (λ x. x * n) same))
  ]
]

module _ (threads reps cols : ℕ) (probe : ℕ → ℕ → Probe) (fits : threads * reps * cols < 2 ^ 32)
    (full : (t r : ℕ) → t < threads → r < reps → length (sample (probe t r)) ≡ cols) where
  round-Held-self :
      (x : Round) (d : List ℕ)
      → x.thread < threads
      → x.rep < reps
      → length d ≡ threads * reps * cols
      → Held reps cols probe x.thread x.rep (round reps cols probe x d)
  unfolding round
  round-Held-self x d ht hr e k hk =
      let len = full x.thread x.rep ht hr in
      let at = rep_index-row threads reps cols x.thread x.rep fits (omega arith) ht hr in
      let end = row_end threads reps cols x.thread x.rep ht hr in
      rw (← at) (
        worker_rep-inside (result_base x.thread reps cols) (sub32 cols 1) x.rep k
          (probe x.thread x.rep) d (omega arith) (omega arith))

  round-Held-other :
      (x : Round) (t r : ℕ) (d : List ℕ)
      → x.thread < threads
      → x.rep < reps
      → t < threads
      → r < reps
      → (t * reps + r < x.thread * reps + x.rep) ⊎ (x.thread * reps + x.rep < t * reps + r)
      → Held reps cols probe t r d
      → Held reps cols probe t r (round reps cols probe x d)
  unfolding round
  round-Held-other x t r d hx hy ht hr apart held k hk =
      let len = full x.thread x.rep hx hy in
      let at = rep_index-row threads reps cols x.thread x.rep fits (omega arith) hx hy in
      let below = mul_lt (t * reps + r) (x.thread * reps + x.rep) cols in
      let above = mul_lt (x.thread * reps + x.rep) (t * reps + r) cols in
      worker_rep-outside (result_base x.thread reps cols) (sub32 cols 1) x.rep
        ((t * reps + r) * cols + k) (probe x.thread x.rep) d
        (elim apart [ inl p ↦ inl (omega (arith, below p)) | inr p ↦ inr (omega (arith, above p)) ])
      ∙ held k hk

  round-Held :
      (x : Round) (t r : ℕ) (d : List ℕ)
      → x.thread < threads
      → x.rep < reps
      → t < threads
      → r < reps
      → length d ≡ threads * reps * cols
      → Held reps cols probe t r d
      → Held reps cols probe t r (round reps cols probe x d)
  round-Held x t r d hx hy ht hr e held = elim (dec_lt (t * reps + r) (x.thread * reps + x.rep)) [
    | yes p ↦ round-Held-other x t r d hx hy ht hr (inl p) held
    | no p ↦ elim (dec_lt (x.thread * reps + x.rep) (t * reps + r)) [
      | yes q ↦ round-Held-other x t r d hx hy ht hr (inr q) held
      | no q ↦
          let (a, b) = mul_cancel_lt x.thread x.rep t r reps hy hr (omega arith) in
          subst₂ (λ u v. Held reps cols probe u v (round reps cols probe x d)) a b
            (round-Held-self x d hx hy e)
    ]
  ]

  length-round : (x : Round) (d : List ℕ) → length (round reps cols probe x d) ≡ length d
  unfolding round
  length-round x d =
      length-worker_rep (result_base x.thread reps cols) (sub32 cols 1) x.rep (probe x.thread x.rep)
        d

  abbrev Within : List Round → Type 0
  Within xs = (x : Round) → Has x xs → (x.thread < threads) × (x.rep < reps)

  rounds-Held :
      (xs : List Round) (t r : ℕ) (d : List ℕ)
      → Within xs
      → t < threads
      → r < reps
      → length d ≡ threads * reps * cols
      → Held reps cols probe t r d
      → Held reps cols probe t r (rounds reps cols probe xs d)
  unfolding rounds
  rounds-Held [] t r d w ht hr e held = held
  rounds-Held (x ∷ xs) t r d w ht hr e held =
      let (hx, hy) = w x (inl refl) in
      rounds-Held xs t r (round reps cols probe x d) (λ y h. w y (inr h)) ht hr
        (length-round x d ∙ e) (round-Held x t r d hx hy ht hr e held)

  -- Whatever the order of the rounds: the row of a round that is made holds its sample at the end.
  pub rounds-row :
      (xs : List Round) (x : Round) (d : List ℕ)
      → Within xs
      → length d ≡ threads * reps * cols
      → Has x xs
      → Held reps cols probe x.thread x.rep (rounds reps cols probe xs d)
  unfolding rounds
  rounds-row [] x d w e h = absurd h
  rounds-row (y ∷ ys) x d w e (inl same) =
      let (hx, hy) = w y (inl refl) in
      subst
        (λ (z : Round).
          Held reps cols probe z.thread z.rep
            (rounds reps cols probe ys (round reps cols probe y d)))
        (sym same)
        (rounds-Held ys y.thread y.rep (round reps cols probe y d) (λ z h. w z (inr h)) hx hy
          (length-round y d ∙ e) (round-Held-self y d hx hy e))
  rounds-row (y ∷ ys) x d w e (inr h) =
      rounds-row ys x (round reps cols probe y d) (λ z k. w z (inr k)) (length-round y d ∙ e) h
