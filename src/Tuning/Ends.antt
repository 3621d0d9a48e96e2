-- ===== src/Tuning/Ends.antt =====
-- That `tune_time` ends, and with what.
use native.Mathlib.Nat.{mod-eq_of_lt}
use mathlib.Core.List.{append-nil, append_assoc}
use mathlib.Core.Path.{subst}
use hwvar.Base.{
  ℕ, zero, suc, ◌+◌, ◌^◌, ◌%◌, ◌≤◌, ◌<◌, Bool, true, false, some, List, [], ◌++◌, ◌≡◌, ap, sym, ◌∙◌,
  arith, if◌then◌else◌, ◌==◌, ltb, u32, sub64, if_then, if_else, Bool-cases, inl, inr, ltb→lt,
}
use hwvar.Benchmark.{Benchmark}
use hwvar.Kernel.Defs.{Doubles}
use hwvar.Tuning.Clock.{
  Rounding, Tuned, rounds, failed_assert, division_by_zero, Measured, round, begin, tune_loop,
  wanted, at_least_one, conclude, after_loop, tune_time,
}

abbrev pub second : ℕ
second = 1000000000

unfoldable pub repeated {ℓ} : {A : Type ℓ} → ℕ → List A → List A
repeated zero xs = []
repeated (suc n) xs = xs ++ repeated n xs

guards-bounds :
    (fits none_done : Bool) (w ret : ℕ)
    → w < 2 ^ 32
    → (if fits
        then (if none_done then division_by_zero else rounds (at_least_one w))
        else failed_assert)
      ≡ rounds ret
    → (0 < ret) × (ret < 2 ^ 32)
guards-bounds true true w ret l e = cc
guards-bounds true false w ret l e = let same : at_least_one w ≡ ret = cc in ground arith
guards-bounds false none_done w ret l e = cc

conclude-bounds :
    (f : Doubles) (r : Rounding f) (target_seconds : f.Double) (init_rounds rep duration ret : ℕ)
    → conclude f r target_seconds init_rounds rep duration ≡ rounds ret
    → (0 < ret) × (ret < 2 ^ 32)
unfolding conclude
conclude-bounds f r target_seconds init_rounds rep duration ret e =
    let w = r.nearbyint (wanted f r target_seconds init_rounds rep duration) in
    guards-bounds (r.at_most_uint_max (wanted f r target_seconds init_rounds rep duration))
      (rep == 0) (f.to_u32 w) ret (f.to_u32-lt w) e

module _ (clock : ℕ → ℕ) (b : Benchmark) where
  -- What `n` rounds make of the state of the loop, with the reading that ends it.
  abbrev moved : Measured → ℕ → Measured
  moved m n = record {
    rep = m.rep + n;
    readings = m.readings + n + 1;
    actions = m.actions ++ repeated n (round b);
  }

  abbrev next : Measured → Measured
  next m = record {
    rep = u32 (m.rep + 1);
    readings = m.readings + 1;
    actions = m.actions ++ round b;
  }

  -- The readings of the first `n` rounds are before the end of the second, and that of the next is not.
  pub record Within (first start n : ℕ) : Type 0 where
    pub before : (k : ℕ) → k < n → clock (first + k) < start + second
    pub after : start + second ≤ clock (first + n)

  tune_loop-step :
      (fuel start : ℕ) (m : Measured)
      → start + second < 2 ^ 64
      → clock m.readings < start + second
      → tune_loop clock b (suc fuel) start m ≡ tune_loop clock b fuel start (next m)
  unfolding tune_loop
  tune_loop-step fuel start m small early =
      if_then _ (ap (ltb (clock m.readings)) (mod-eq_of_lt small) ∙ ground arith)

  tune_loop-stop :
      (fuel start : ℕ) (m : Measured)
      → start + second < 2 ^ 64
      → start + second ≤ clock m.readings
      → tune_loop clock b (suc fuel) start m ≡ some (moved m 0)
  unfolding tune_loop repeated
  tune_loop-stop fuel start m small late =
      if_else _ (ap (ltb (clock m.readings)) (mod-eq_of_lt small) ∙ ground arith) ∙ (λ i.
        some (record {
          rep = (let e : m.rep ≡ m.rep + 0 = omega arith in e) i;
          readings = (let e : m.readings + 1 ≡ m.readings + 0 + 1 = omega arith in e) i;
          actions = sym (append-nil m.actions) i;
        }))

  moved-next : (m : Measured) (n : ℕ) → m.rep + 1 < 2 ^ 32 → moved (next m) n ≡ moved m (suc n)
  unfolding repeated
  moved-next m n small = λ i. record {
    rep =
        (ap (λ r. r + n) (mod-eq_of_lt small)
            ∙ (let e : m.rep + 1 + n ≡ m.rep + suc n = omega arith in e))
          i;
    readings = (let e : m.readings + 1 + n + 1 ≡ m.readings + suc n + 1 = omega arith in e) i;
    actions = append_assoc m.actions (round b) (repeated n (round b)) i;
  }

  Within-suc :
      (first start n : ℕ)
      → clock first < start + second
      → Within (first + 1) start n
      → Within first start (suc n)
  Within-suc first start n early w = record {
    before = before;
    after = subst (λ k. start + second ≤ clock k) (omega arith) w.after;
  }
    where
      before : (k : ℕ) → k < suc n → clock (first + k) < start + second
      before zero l = subst (λ k. clock k < start + second) (omega arith) early
      before (suc k) l =
          subst (λ j. clock j < start + second) (omega arith) (w.before k (omega arith))

  -- What the loop comes to from the state `m`, with `left` and one of fuel.
  abbrev Ended : ℕ → ℕ → Measured → Type 0
  Ended left start m =
      (n : ℕ) × (n ≤ left)
      × (tune_loop clock b (suc left) start m ≡ some (moved m n))
      × Within m.readings start n

  Ended-late :
      (left start : ℕ) (m : Measured)
      → start + second < 2 ^ 64
      → start + second ≤ clock m.readings
      → Ended left start m
  Ended-late left start m small late = (
    0,
    omega arith,
    tune_loop-stop left start m small late,
    record {
      before = λ k l. absurd (omega arith);
      after = subst (λ k. start + second ≤ clock k) (omega arith) late;
    },
  )

  -- Where the reading after `left` more is past the second, as many rounds are enough.
  tune_loop-Within :
      (left start : ℕ) (m : Measured)
      → start + second < 2 ^ 64
      → m.rep + left < 2 ^ 32
      → start + second ≤ clock (m.readings + left)
      → Ended left start m
  tune_loop-Within zero start m small few passed =
      Ended-late zero start m small (subst (λ k. start + second ≤ clock k) (omega arith) passed)
  tune_loop-Within (suc left) start m small few passed =
      elim (Bool-cases (ltb (clock m.readings) (start + second))) [
        | inr late ↦ Ended-late (suc left) start m small (ground arith)
        | inl early ↦
            let now = ltb→lt (clock m.readings) (start + second) early in
            let same : (m.rep + 1) % 2 ^ 32 ≡ m.rep + 1 = mod-eq_of_lt (omega arith) in
            let (n, most, ends, within) =
              tune_loop-Within left start (next m) small (rw same (omega arith))
                (subst (λ k. start + second ≤ clock k) (omega arith) passed) in
            (
              suc n,
              omega arith,
              tune_loop-step (suc left) start m small now
                  ∙ ends
                  ∙ ap some (moved-next m n (omega arith)),
              Within-suc m.readings start n now within,
            )
      ]

  module _ (f : Doubles) (r : Rounding f) (target_seconds : f.Double) (init_rounds : ℕ) where
    abbrev conclusion : ℕ → Tuned
    conclusion n = conclude f r target_seconds init_rounds n (sub64 (clock (1 + n + 1)) (clock 0))

    -- Where the clock does not wrap within the second that follows its first reading and has passed
    -- that second at some later reading, of which `rep` can count the rounds, `tune_time` ends: fuel
    -- for a round for each reading up to that one is enough. It has made as many rounds, and no more
    -- than these, as begin before a reading first is past the second, each with a reset if the
    -- benchmark has one, and what it concludes from that is at least one round and fits an `unsigned`,
    -- if it is a number of rounds at all.
    pub tune_time-ends :
        (left : ℕ)
        → clock 0 + second < 2 ^ 64
        → clock 0 + second ≤ clock (1 + left)
        → left < 2 ^ 32
        → (n : ℕ) × (n ≤ left)
          × (tune_time clock b f r target_seconds init_rounds (suc left)
              ≡ some (conclusion n, begin b ++ repeated n (round b)))
          × Within 1 (clock 0) n
          × ((ret : ℕ) → conclusion n ≡ rounds ret → (0 < ret) × (ret < 2 ^ 32))
    unfolding tune_time
    tune_time-ends left small passed few =
        let m : Measured = record { rep = 0; readings = 1; actions = begin b } in
        let (n, most, ends, within) =
          tune_loop-Within left (clock 0) m small (omega arith) passed in
        (
          n,
          most,
          ap (after_loop clock b f r target_seconds init_rounds (clock 0)) ends
              ∙ ap
                  (λ k. some (
                    conclude f r target_seconds init_rounds k (sub64 (clock (1 + n + 1)) (clock 0)),
                    begin b ++ repeated n (round b),
                  ))
                  (let same : 0 + n ≡ n = omega arith in same),
          within,
          conclude-bounds f r target_seconds init_rounds n (sub64 (clock (1 + n + 1)) (clock 0)),
        )

    -- Where the clock has passed a second when the first round is about to begin, and the assertion
    -- holds, `tune_time` makes no round and divides by zero.
    pub tune_time-late :
        (left : ℕ)
        → clock 0 + second < 2 ^ 64
        → clock 0 + second ≤ clock 1
        → r.at_most_uint_max (wanted f r target_seconds init_rounds 0 (sub64 (clock 2) (clock 0)))
          ≡ true
        → tune_time clock b f r target_seconds init_rounds (suc left)
          ≡ some (division_by_zero, begin b)
    unfolding tune_time conclude repeated
    tune_time-late left small late fits =
        let m : Measured = record { rep = 0; readings = 1; actions = begin b } in
        ap (after_loop clock b f r target_seconds init_rounds (clock 0))
          (tune_loop-stop left (clock 0) m small late)
        ∙ ap (λ t. some (t, begin b ++ [])) (if_then _ fits)
        ∙ ap (λ l. some (division_by_zero, l)) (append-nil (begin b))
