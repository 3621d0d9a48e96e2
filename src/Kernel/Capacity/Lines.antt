-- ===== src/Kernel/Capacity/Lines.antt =====
-- What the capacity kernel leaves in memory.
use mathlib.Core.Path.{subst}
use native.Mathlib.Nat.{mul-lt-mul_of_pos_right}
use hwvar.Base.{
  ℕ, zero, suc, ◌+◌, ◌*◌, ◌%◌, ◌^◌, ◌<◌, Option, none, some, ◌≡◌, ◌≢◌, refl, ap, sym, ◌∙◌, arith,
  true, false, if◌then◌else◌, if_then, if_else, ltb, ltb→lt, ◌==◌, u32, set_at, Bool-cases, inl,
  inr,
}
use hwvar.Kernel.Arrays.{◌>>=◌}
use hwvar.Kernel.Capacity.{Capacity, u8, work_line, work_lines, capacity_work}

-- The first bytes of the even lines below `n`, each with the number of its line.
unfoldable pub gathered : ℕ → (ℕ → ℕ) → ℕ → ℕ
gathered linesize bytes zero = 0
gathered linesize bytes (suc n) =
    let before = gathered linesize bytes n in
    if n % 2 == 0 then before + bytes (n * linesize) + n else before

-- The bytes `e` after the lines below `n`, from the bytes `d`: the first byte of an odd line has the
-- sum of the even lines before it, and no other byte has changed.
pub record Swept (linesize n : ℕ) (d e : ℕ → ℕ) : Type 0 where
  pub written : (i : ℕ) → i < n → i % 2 ≡ 1 → e (i * linesize) ≡ u8 (gathered linesize d i)
  pub kept : (j : ℕ) → ((i : ℕ) → i < n → i % 2 ≡ 1 → j ≢ i * linesize) → e j ≡ d j

u8_sum : (g x line : ℕ) → u8 (u32 (u8 g + u32 (x + line))) ≡ u8 (g + x + line)
u8_sum g x line = omega arith

module _ (linesize : ℕ) (some_bytes : 0 < linesize) where
  offset_inj : (i j : ℕ) → i * linesize ≡ j * linesize → i ≡ j
  offset_inj i j e = elim (Bool-cases (ltb i j)) [
    | inl less ↦ absurd (
        omega (
          arith,
          e,
          mul-lt-mul_of_pos_right {m = i} {n = j} {k = linesize} (ground arith) some_bytes,
        ))
    | inr not_less ↦ elim (Bool-cases (ltb j i)) [
      | inl more ↦ absurd (
          omega (
            arith,
            e,
            mul-lt-mul_of_pos_right {m = j} {n = i} {k = linesize} (ground arith) some_bytes,
          ))
      | inr same ↦ ground arith
    ]
  ]

  -- The even lines are as they were.
  even-kept :
      (n i : ℕ) (d e : ℕ → ℕ)
      → Swept linesize n d e
      → i % 2 ≡ 0
      → e (i * linesize) ≡ d (i * linesize)
  even-kept n i d e h even =
      h.kept (i * linesize)
        λ j l odd same. let equal = offset_inj i j same in omega (arith, even, odd, equal)

  pub gathered-Swept :
      (n : ℕ) (d e : ℕ → ℕ)
      → Swept linesize n d e
      → (k : ℕ) → gathered linesize e k ≡ gathered linesize d k
  unfolding gathered
  gathered-Swept n d e h zero = refl
  gathered-Swept n d e h (suc k) = elim (Bool-cases (k % 2 == 0)) [
    | inl even ↦
        let same = even-kept n k d e h (ground arith) in
        rw (even, same, gathered-Swept n d e h k) refl
    | inr odd ↦ rw (odd, gathered-Swept n d e h k) refl
  ]

  module _ (c : Capacity) (n : ℕ) (d : ℕ → ℕ) (stride : c.linesize ≡ linesize)
      (inside : (i : ℕ) → i < n → i * linesize < c.size) (small : c.size < 2 ^ 32) where
    abbrev State : ℕ → ℕ × (ℕ → ℕ) → Type 0
    State line s = (s.0 ≡ u8 (gathered linesize d line)) × Swept linesize line d s.1

    offset_lem : (i : ℕ) → i < n → u32 (i * c.linesize) ≡ i * linesize
    offset_lem i l = rw stride (omega (arith, inside i l))

    even-State :
        (line : ℕ) (s : ℕ × (ℕ → ℕ))
        → line < n
        → line % 2 ≡ 0
        → State line s
        → State (suc line) (u8 (u32 (s.0 + u32 (s.1 (line * linesize) + line))), s.1)
    unfolding gathered
    even-State line s l even (sum, h) =
        let read = even-kept line line d s.1 h even in
        let test : (line % 2 == 0) ≡ true = ground arith in
        (
          rw (read, sum)
              (u8_sum (gathered linesize d line) (d (line * linesize)) line
                ∙ ap u8 (sym (if_then _ test))),
          record {
            written = λ i less odd. h.written i (ground arith) odd;
            kept = λ j apart. h.kept j (λ i less odd. apart i (omega arith) odd);
          },
        )

    odd-State :
        (line : ℕ) (s : ℕ × (ℕ → ℕ))
        → line < n
        → line % 2 ≡ 1
        → State line s
        → State (suc line) (s.0, set_at s.1 (line * linesize) s.0)
    unfolding gathered
    odd-State line s l odd (sum, h) =
        let test : (line % 2 == 0) ≡ false = ground arith in
        (
          sum ∙ ap u8 (sym (if_else _ test)),
          record {
            written = λ i less odd_i. elim (Bool-cases (line * linesize == i * linesize)) [
              | inl e ↦
                  let same = offset_inj line i (ground arith) in
                  if_then _ e ∙ sum ∙ ap (λ k. u8 (gathered linesize d k)) same
              | inr ne ↦
                  let earlier : i < line = elim (Bool-cases (ltb i line)) [
                    | inl less ↦ ltb→lt i line less
                    | inr not_less ↦
                        let same : i ≡ line = ground arith in
                        ground (arith, ap (λ k. k * linesize) same)
                  ] in
                  if_else _ ne ∙ h.written i earlier odd_i
            ];
            kept = λ j apart.
                let ne = apart line (omega arith) odd in
                let other : (line * linesize == j) ≡ false = ground arith in
                if_else _ other ∙ h.kept j (λ i less odd_i. apart i (omega arith) odd_i);
          },
        )

    work_line-State :
        (line : ℕ) (s : ℕ × (ℕ → ℕ))
        → line < n
        → State line s
        → State (suc line) (work_line c line s)
    unfolding work_line
    work_line-State line s l h = elim (Bool-cases (line % 2 == 0)) [
      | inl even ↦ rw (offset_lem line l, even) (even-State line s l (ground arith) h)
      | inr odd ↦ rw (offset_lem line l, odd) (odd-State line s l (ground arith) h)
    ]

    work_lines-State :
        (left line : ℕ) (s : ℕ × (ℕ → ℕ))
        → line + left ≡ n
        → State line s
        → (s' : ℕ × (ℕ → ℕ)) × (work_lines c left line s ≡ some s') × State n s'
    unfolding work_lines
    work_lines-State zero line s e h = (s, refl, subst (λ k. State k s) (omega arith) h)
    work_lines-State (suc left) line s e h =
        let l : line < n = omega arith in
        let more : suc line ≡ line + 1 = omega arith in
        let next : State (line + 1) (work_line c line s) =
          subst (λ k. State k (work_line c line s)) more (work_line-State line s l h) in
        let (s', run, done) =
          work_lines-State left (line + 1) (work_line c line s) (omega arith) next in
        let near = inside line l in
        let fits : ltb (u32 (line * c.linesize)) c.size ≡ true =
          rw (offset_lem line l) (ground arith) in
        (s', if_then none fits ∙ run, done)

    pub capacity_work-Swept :
        c.num_lines ≡ n → (e : ℕ → ℕ) × (capacity_work c d ≡ some e) × Swept linesize n d e
    unfolding capacity_work gathered
    capacity_work-Swept lines =
        let none_yet : Swept linesize 0 d d = record {
          written = λ i l odd. absurd (omega arith);
          kept = λ j apart. refl;
        } in
        let (s, run, (sum, h)) = work_lines-State n 0 (0, d) (omega arith) (refl, none_yet) in
        (
          s.1,
          ap (λ k. work_lines c k 0 (0, d) >>= λ s. some s.1) lines
              ∙ ap (λ (o : Option (ℕ × (ℕ → ℕ))). o >>= λ s. some s.1) run,
          h,
        )
