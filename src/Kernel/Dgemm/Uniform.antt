-- ===== src/Kernel/Dgemm/Uniform.antt =====
-- What `call_work` of the dgemm kernel computes from the matrices of `init_argument`, which are
-- uniform: every cell of the third matrix goes through the same values.
use mathlib.Core.Path.{subst}
use native.Mathlib.Nat.{mod-eq_of_lt, mul-div_cancel_left, mul-le-mul_right, mul_assoc}
use hwvar.Base.{
  ℕ, zero, suc, ◌+◌, ◌*◌, ◌/◌, ◌^◌, ◌≤◌, ◌<◌, Option, some, List, ◌≡◌, refl, ◌∙◌, ap, arith, leb,
  u32, u64, int_max, codes, if_then, true,
}
use hwvar.Kernel.Defs.{Floats}
use hwvar.Kernel.Arrays.{
  ◌>>=◌, Gives, bind-Gives, Prefix, Halves, write-Prefix, write-Halves, fresh-Prefix,
}
use hwvar.Kernel.Dgemm.{
  index, Dgemm, Matrices, dot_loop, update, columns, rows, repeated, do_dgemm, fill_columns,
  fill_rows, new_matrix, dgemm_args,
}

square-inside : (n i j : ℕ) → i < n → j < n → i * n + j < n * n
square-inside n i j hi hj =
    let row : (i + 1) * n ≤ n * n = mul-le-mul_right n (omega arith) in grind arith

index-some : (n i j : ℕ) → n * n ≤ 2 ^ 31 → i < n → j < n → index n i j ≡ some (i * n + j)
unfolding index
index-some n i j small hi hj =
    let inside = square-inside n i j hi hj in
    let fits : leb (i * n + j) int_max ≡ true = ground arith in if_then _ fits

word-index : (n i j : ℕ) → n * n ≤ 2 ^ 31 → i < n → j < n → u32 (u32 (i * n) + j) ≡ i * n + j
word-index n i j small hi hj = let inside = square-inside n i j hi hj in grind arith

square-cells : (n : ℕ) → n * n ≤ 2 ^ 31 → u64 (8 * n * n) / 8 ≡ n * n
square-cells n small =
    let e : 8 * n * n ≡ 8 * (n * n) = mul_assoc 8 n n in
    let wrap : u64 (8 * (n * n)) ≡ 8 * (n * n) = mod-eq_of_lt (omega arith) in
    ap (λ m. u64 m / 8) e ∙ ap (λ m. m / 8) wrap ∙ mul-div_cancel_left (n * n) (omega arith)

module _ (fl : Floats) where
  open fl use {Float, literal, plus, times}

  -- A sum, after `n` more products of 2.0 and 0.5.
  unfoldable pub accumulate : ℕ → Float → Float
  accumulate zero sum = sum
  accumulate (suc n) sum =
      accumulate n (plus sum (times (literal (codes "2.0")) (literal (codes "0.5"))))

  -- A cell, after one product of matrices of size `n`.
  unfoldable pub next : ℕ → Float → Float
  next n old =
      plus (times (literal (codes "1.0")) (accumulate n (literal (codes "0"))))
        (times (literal (codes "1.0")) old)

  unfoldable pub after : ℕ → ℕ → Float → Float
  after n zero v = v
  after n (suc r) v = after n r (next n v)

  -- The arguments over given matrices.
  abbrev args_of : ℕ → ℕ → Matrices fl → Dgemm fl
  args_of n repeats m = record {
    matrix_a = m.a;
    matrix_b = m.b;
    matrix_c = m.c;
    alpha = literal (codes "1.0");
    beta = literal (codes "1.0");
    n = n;
    repeats = repeats;
  }

  -- The first `p` cells of each matrix are set.
  record Set (n p : ℕ) (m : Matrices fl) : Type 0 where
    as' : Prefix (n * n) p (literal (codes "2.0")) m.a
    bs : Prefix (n * n) p (literal (codes "0.5")) m.b
    cs : Prefix (n * n) p (literal (codes "1.0")) m.c

  fill_columns-Set :
      (n j left k : ℕ) (m : Matrices fl)
      → n * n ≤ 2 ^ 31
      → j < n
      → k + left ≡ n
      → Set n (j * n + k) m
      → Gives (Set n (j * n + n)) (fill_columns fl n j left k m)
  unfolding fill_columns
  fill_columns-Set n j zero k m small hj e h =
      (m, refl, subst (λ k. Set n (j * n + k) m) (omega arith) h)
  fill_columns-Set n j (suc left) k m small hj e h =
      let inside = square-inside n j k hj (omega arith) in
      rw (word-index n j k small hj (omega arith)) (
        bind-Gives (write-Prefix inside h.as') (λ a x. bind-Gives (write-Prefix inside h.bs) (λ b y.
          bind-Gives (write-Prefix inside h.cs) (λ c z.
            fill_columns-Set n j left (k + 1) (record { a = a; b = b; c = c }) small hj
              (omega arith)
              (subst (λ p. Set n p (record { a = a; b = b; c = c })) (omega arith)
                (record { as' = x; bs = y; cs = z }))))))

  fill_rows-Set :
      (n left j : ℕ) (m : Matrices fl)
      → n * n ≤ 2 ^ 31
      → j + left ≡ n
      → Set n (j * n) m
      → Gives (Set n (n * n)) (fill_rows fl n left j m)
  unfolding fill_rows
  fill_rows-Set n zero j m small e h = (m, refl, subst (λ j. Set n (j * n) m) (omega arith) h)
  fill_rows-Set n (suc left) j m small e h =
      bind-Gives
        (fill_columns-Set n j n 0 m small (omega arith) (omega arith)
          (subst (λ p. Set n p m) (omega arith) h))
        (λ b g.
          fill_rows-Set n left (j + 1) b small (omega arith)
            (subst (λ p. Set n p b) (grind arith) g))

  module _ (n repeats : ℕ) (m : Matrices fl) (small : n * n ≤ 2 ^ 31) (h : Set n (n * n) m) where
    dot_loop-accumulate :
        (i j left k : ℕ) (sum : Float)
        → i < n
        → j < n
        → k + left ≡ n
        → dot_loop fl (args_of n repeats m) i j left k sum ≡ some (accumulate left sum)
    unfolding dot_loop accumulate
    dot_loop-accumulate i j zero k sum hi hj e = refl
    dot_loop-accumulate i j (suc left) k sum hi hj e =
        rw
          (
            index-some n i k small hi (omega arith),
            h.as'.cells (i * n + k) (square-inside n i k hi (omega arith)),
            index-some n k j small (omega arith) hj,
            h.bs.cells (k * n + j) (square-inside n k j (omega arith) hj),
          )
          (dot_loop-accumulate i j left (k + 1) _ hi hj (omega arith))

    update-Halves :
        (i j : ℕ) (c : List (Option Float)) (old : Float)
        → i < n
        → j < n
        → Halves (n * n) (i * n + j) (next n old) old c
        → Gives
            (Halves (n * n) (suc (i * n + j)) (next n old) old)
            (update fl (args_of n repeats m) i j c)
    unfolding update next
    update-Halves i j c old hi hj q =
        let inside = square-inside n i j hi hj in
        rw
          (
            dot_loop-accumulate i j n 0 (literal (codes "0")) hi hj (omega arith),
            index-some n i j small hi hj,
            q.others (i * n + j) (omega arith) inside,
          )
          (write-Halves inside q)

    columns-Halves :
        (i left j : ℕ) (c : List (Option Float)) (old : Float)
        → i < n
        → j + left ≡ n
        → Halves (n * n) (i * n + j) (next n old) old c
        → Gives
            (Halves (n * n) (i * n + n) (next n old) old)
            (columns fl (args_of n repeats m) i left j c)
    unfolding columns
    columns-Halves i zero j c old hi e q =
        (c, refl, subst (λ j. Halves (n * n) (i * n + j) (next n old) old c) (omega arith) q)
    columns-Halves i (suc left) j c old hi e q =
        bind-Gives (update-Halves i j c old hi (omega arith) q) (λ b g.
          columns-Halves i left (j + 1) b old hi (omega arith)
            (subst (λ p. Halves (n * n) p (next n old) old b) (omega arith) g))

    rows-Halves :
        (left i : ℕ) (c : List (Option Float)) (old : Float)
        → i + left ≡ n
        → Halves (n * n) (i * n) (next n old) old c
        → Gives (Halves (n * n) (n * n) (next n old) old) (rows fl (args_of n repeats m) left i c)
    unfolding rows
    rows-Halves zero i c old e q =
        (c, refl, subst (λ i. Halves (n * n) (i * n) (next n old) old c) (omega arith) q)
    rows-Halves (suc left) i c old e q =
        bind-Gives
          (columns-Halves i n 0 c old (omega arith) (omega arith)
            (subst (λ p. Halves (n * n) p (next n old) old c) (omega arith) q))
          (λ b g.
            rows-Halves left (i + 1) b old (omega arith)
              (subst (λ p. Halves (n * n) p (next n old) old b) (grind arith) g))

    repeated-Prefix :
        (left : ℕ) (c : List (Option Float)) (old : Float)
        → Prefix (n * n) (n * n) old c
        → Gives
            (Prefix (n * n) (n * n) (after n left old))
            (repeated fl (args_of n repeats m) left c)
    unfolding repeated after
    repeated-Prefix zero c old q = (c, refl, q)
    repeated-Prefix (suc left) c old q =
        bind-Gives
          (rows-Halves n 0 c old (omega arith) (record {
            size = q.size;
            cells = λ k l. absurd (omega arith);
            others = λ k l m'. q.cells k m';
          }))
          (λ b g. repeated-Prefix left b (next n old) (record { size = g.size; cells = g.cells }))

  new_matrix-Prefix :
      (n : ℕ) (v : Float) → n * n ≤ 2 ^ 31 → Prefix (n * n) (0 * n) v (new_matrix fl n)
  new_matrix-Prefix n v small =
      subst (λ p. Prefix (n * n) p v (new_matrix fl n)) (omega arith)
        (subst (λ l. Prefix l 0 v (new_matrix fl n)) (square-cells n small)
          (fresh-Prefix (u64 (8 * n * n) / 8) v))

  fresh-Set :
      (n : ℕ)
      → n * n ≤ 2 ^ 31
      → Set n (0 * n) (record { a = new_matrix fl n; b = new_matrix fl n; c = new_matrix fl n })
  fresh-Set n small = record {
    as' = new_matrix-Prefix n _ small;
    bs = new_matrix-Prefix n _ small;
    cs = new_matrix-Prefix n _ small;
  }

  -- The matrices of `init_argument`, multiplied as often as `call_work` does it, where n * n is at
  -- most 2 ^ 31: no index leaves its matrix or `int`, and each of the n * n cells of the third matrix
  -- ends with the value that 1.0 has after that many rounds of `next`.
  pub do_dgemm-after :
      (n repeats : ℕ)
      → n * n ≤ 2 ^ 31
      → Gives
          (Prefix (n * n) (n * n) (after n repeats (literal (codes "1.0"))))
          (dgemm_args fl n repeats >>= do_dgemm fl)
  unfolding dgemm_args do_dgemm
  do_dgemm-after n repeats small =
      let fresh : Matrices fl = record {
        a = new_matrix fl n;
        b = new_matrix fl n;
        c = new_matrix fl n;
      } in
      let (m, e, h) = fill_rows-Set n n 0 fresh small (omega arith) (fresh-Set n small) in
      let (c, g, q) =
        repeated-Prefix n repeats m small h repeats m.c (literal (codes "1.0")) h.cs in
      (c, ap (λ o. (o >>= λ m. some (args_of n repeats m)) >>= do_dgemm fl) e ∙ g, q)
