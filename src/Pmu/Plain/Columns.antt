-- ===== src/Pmu/Plain/Columns.antt =====
-- What a piece of work leaves where there are no counters.
use native.Mathlib.Nat.{mod-eq_of_lt}
use hwvar.Base.{
  ℕ, zero, suc, ◌+◌, ◌-◌, ◌*◌, ◌^◌, ◌≤◌, ◌<◌, if◌then◌else◌, Bool, not, ◌&&◌, Bool-cases, inl, inr,
  true, false, ◌≡◌, refl, ap, ◌∙◌, arith, u32, sub64, if_else, if_then, ltb, ◌==◌,
}
use hwvar.Pmu.Events.{returned, exit_failure}
use hwvar.Pmu.Work.{from, back}
use hwvar.Pmu.Plain.{Platform, sparc, x86_64, bgq, ppc, plain_rep, plain_reps, plain_work}

abbrev pub is_x86_64 : Platform → Bool
is_x86_64 x86_64 = true
is_x86_64 _ = false

module _ (start finish : ℕ → ℕ) (num_pmcs : ℕ) where
  abbrev cols : ℕ
  cols = num_pmcs + 1

  abbrev time : ℕ → ℕ
  time rep = sub64 (finish rep) (start rep)

  back-from : (o : ℕ) (d : ℕ → ℕ) (j : ℕ) → back o d (from o d) j ≡ d j
  back-from o d j = elim (Bool-cases (ltb j o)) [
    | inl below ↦ if_then _ below
    | inr not_below ↦ let same : o + (j - o) ≡ j = ground arith in if_else _ not_below ∙ ap d same
  ]

  rows_le : (rep reps : ℕ) → rep ≤ reps → cols * rep ≤ cols * reps
  rows_le rep reps h = grind arith

  row_next : (rep : ℕ) → cols * (rep + 1) ≡ cols * rep + cols
  row_next rep = grind arith

  -- The first cell of a row is in no other row.
  row_apart : (rep m k : ℕ) → k < num_pmcs → (cols * rep == cols * m + 1 + k) ≡ false
  row_apart rep m k l = elim (Bool-cases (ltb m rep)) [
    | inl past ↦
        let le = rows_le (m + 1) rep (ground arith) in let next = row_next m in ground arith
    | inr not_past ↦ let le = rows_le rep m (ground arith) in ground arith
  ]

  row_before : (rep m : ℕ) → m < rep → (cols * rep == cols * m) ≡ false
  row_before rep m l =
      let le = rows_le (m + 1) rep (omega arith) in let next = row_next m in ground arith

  module _ (wide : cols < 2 ^ 32) where
    offset_lem : (rep : ℕ) → cols * rep < 2 ^ 32 → u32 (u32 cols * rep) ≡ cols * rep
    offset_lem rep fits = ap (λ x. u32 (x * rep)) (mod-eq_of_lt wide) ∙ mod-eq_of_lt fits

    -- A repetition stores its time, and nothing else.
    plain_rep-at :
        (rep : ℕ) (d : ℕ → ℕ) (j : ℕ)
        → cols * rep < 2 ^ 32
        → plain_rep start finish true num_pmcs rep d j ≡ (if cols * rep == j then time rep else d j)
    unfolding plain_rep
    plain_rep-at rep d j fits =
        let begun : ℕ → ℕ → ℕ = λ o. back (o + 1) d (from (o + 1) d) in
        ap (λ o. if o == j then time rep else back (o + 1) (begun o) (from (o + 1) (begun o)) j)
          (offset_lem rep fits)
        ∙ ap (λ x. if cols * rep == j then time rep else x)
            (back-from (cols * rep + 1) (begun (cols * rep)) j ∙ back-from (cols * rep + 1) d j)

    apart :
        (rep : ℕ) (d : ℕ → ℕ) (j : ℕ)
        → cols * rep < 2 ^ 32
        → (cols * rep == j) ≡ false
        → plain_rep start finish true num_pmcs rep d j ≡ d j
    apart rep d j fits ne = plain_rep-at rep d j fits ∙ if_else _ ne

    -- The cells that are not the first of a row are not stored to.
    plain_reps-apart :
        (left rep m k : ℕ) (d : ℕ → ℕ)
        → cols * (rep + left) < 2 ^ 32
        → k < num_pmcs
        → plain_reps start finish true num_pmcs left rep d (cols * m + 1 + k) ≡ d (cols * m + 1 + k)
    unfolding plain_reps
    plain_reps-apart zero rep m k d fits l = refl
    plain_reps-apart (suc left) rep m k d fits l =
        let same : rep + 1 + left ≡ rep + suc left = omega arith in
        let le = rows_le rep (rep + suc left) (omega arith) in
        plain_reps-apart left (rep + 1) m k (plain_rep start finish true num_pmcs rep d)
          (rw same fits) l
        ∙ apart rep d (cols * m + 1 + k) (omega arith) (row_apart rep m k l)

    plain_reps-below :
        (left rep m : ℕ) (d : ℕ → ℕ)
        → cols * (rep + left) < 2 ^ 32
        → m < rep
        → plain_reps start finish true num_pmcs left rep d (cols * m) ≡ d (cols * m)
    unfolding plain_reps
    plain_reps-below zero rep m d fits l = refl
    plain_reps-below (suc left) rep m d fits l =
        let same : rep + 1 + left ≡ rep + suc left = omega arith in
        let le = rows_le rep (rep + suc left) (omega arith) in
        plain_reps-below left (rep + 1) m (plain_rep start finish true num_pmcs rep d)
          (rw same fits) (omega arith)
        ∙ apart rep d (cols * m) (omega arith) (row_before rep m l)

    plain_reps-times :
        (left rep m : ℕ) (d : ℕ → ℕ)
        → cols * (rep + left) < 2 ^ 32
        → rep ≤ m
        → m < rep + left
        → plain_reps start finish true num_pmcs left rep d (cols * m) ≡ time m
    unfolding plain_reps
    plain_reps-times zero rep m d fits low high = absurd (omega arith)
    plain_reps-times (suc left) rep m d fits low high =
        let same : rep + 1 + left ≡ rep + suc left = omega arith in
        let le = rows_le rep (rep + suc left) (omega arith) in
        elim (Bool-cases (rep == m)) [
          | inl e ↦
              let equal : rep ≡ m = ground arith in
              let here : (cols * rep == cols * m) ≡ true =
                ground (arith, ap (λ n. cols * n) equal) in
              plain_reps-below left (rep + 1) m (plain_rep start finish true num_pmcs rep d)
                (rw same fits) (omega arith)
              ∙ plain_rep-at rep d (cols * m) (omega arith)
              ∙ if_then (d (cols * m)) here
              ∙ ap time equal
          | inr ne ↦
              plain_reps-times left (rep + 1) m (plain_rep start finish true num_pmcs rep d)
                (rw same fits) (ground arith) (omega arith)
        ]

plain_work_lem :
    (start finish : ℕ → ℕ) (num_pmcs reps : ℕ) (d : ℕ → ℕ) (p : Platform)
    → plain_work start finish true num_pmcs p reps d ≡ (
        if is_x86_64 p && not (num_pmcs == 0)
        then exit_failure
        else returned (plain_reps start finish true num_pmcs reps 0 d))
unfolding plain_work
plain_work_lem start finish num_pmcs reps d sparc = refl
plain_work_lem start finish num_pmcs reps d bgq = refl
plain_work_lem start finish num_pmcs reps d ppc = refl
plain_work_lem start finish num_pmcs reps d x86_64 = elim (Bool-cases (num_pmcs == 0)) [
  | inl none_asked ↦ rw none_asked refl
  | inr some_asked ↦ rw some_asked refl
]

-- Where `arch.h` has no counters, for fewer than 2 ^ 32 cells: on SPARC, PowerPC and Blue Gene/Q the
-- work ends also if counters were asked for. Every repetition has stored its time in its row, and the
-- cells of the counters hold what they held before, as they do on x86_64 where none was asked for. On
-- x86_64 asking for a counter ends the program.
pub plain_work-columns :
    (start finish : ℕ → ℕ) (num_pmcs reps : ℕ) (d : ℕ → ℕ)
    → (num_pmcs + 1) * reps < 2 ^ 32
    → num_pmcs + 1 < 2 ^ 32
    → let left = plain_reps start finish true num_pmcs reps 0 d in
      (((p : Platform)
          → plain_work start finish true num_pmcs p reps d
            ≡ (if is_x86_64 p && not (num_pmcs == 0) then exit_failure else returned left))
        × ((m : ℕ) → m < reps → left ((num_pmcs + 1) * m) ≡ sub64 (finish m) (start m))
        × ((m k : ℕ)
            → k < num_pmcs
            → left ((num_pmcs + 1) * m + 1 + k) ≡ d ((num_pmcs + 1) * m + 1 + k)))
plain_work-columns start finish num_pmcs reps d fits wide =
    let zero_add : 0 + reps ≡ reps = omega arith in
    let all : (num_pmcs + 1) * (0 + reps) < 2 ^ 32 = rw zero_add fits in
    (
      plain_work_lem start finish num_pmcs reps d,
      λ m more.
          plain_reps-times start finish num_pmcs wide reps 0 m d all (omega arith) (omega arith),
      λ m k l. plain_reps-apart start finish num_pmcs wide reps 0 m k d all l,
    )
