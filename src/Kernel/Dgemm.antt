-- ===== src/Kernel/Dgemm.antt =====
-- The kernel of src/benchmarks/dgemm.c: `init_argument` and `do_dgemm` without a BLAS library, as
-- `call_work` runs it. An index that does not fit `int`, like an access out of bounds, has no result.
pub mod Uniform
mod Examples
use hwvar.Base.{
  ℕ, zero, suc, ◌+◌, ◌*◌, ◌/◌, Option, none, some, List, if◌then◌else◌, leb, replicate, u32, u64,
  int_max, codes,
}
use hwvar.Kernel.Defs.{Floats}
use hwvar.Kernel.Arrays.{◌>>=◌, read, write}

-- The index `i * N + k` in `int`.
unfoldable pub index : ℕ → ℕ → ℕ → Option ℕ
index n i k = if leb (i * n + k) int_max then some (i * n + k) else none

module _ (fl : Floats) where
  open fl use {Float, literal, plus, times}

  -- `dgemm_thread_args_t`, where `n` and `repeats` are those that are not negative.
  pub record Dgemm : Type 0 where
    pub matrix_a : List (Option Float)
    pub matrix_b : List (Option Float)
    pub matrix_c : List (Option Float)
    pub alpha : Float
    pub beta : Float
    pub n : ℕ
    pub repeats : ℕ

  -- The loop over `k`, with `left` rounds to go.
  unfoldable pub dot_loop : Dgemm → ℕ → ℕ → ℕ → ℕ → Float → Option Float
  dot_loop d i j zero k sum = some sum
  dot_loop d i j (suc left) k sum = index d.n i k >>= λ p. read d.matrix_a p >>= λ a.
      index d.n k j >>= λ q.
      read d.matrix_b q >>= λ b. dot_loop d i j left (k + 1) (plus sum (times a b))

  -- The body of the loop over `j`.
  unfoldable pub update : Dgemm → ℕ → ℕ → List (Option Float) → Option (List (Option Float))
  unfolding dot_loop
  update d i j c = dot_loop d i j d.n 0 (literal (codes "0")) >>= λ sum. index d.n i j >>= λ p.
      read c p >>= λ old. write c p (plus (times d.alpha sum) (times d.beta old))

  unfoldable pub columns : Dgemm → ℕ → ℕ → ℕ → List (Option Float) → Option (List (Option Float))
  unfolding update
  columns d i zero j c = some c
  columns d i (suc left) j c = update d i j c >>= columns d i left (j + 1)

  unfoldable pub rows : Dgemm → ℕ → ℕ → List (Option Float) → Option (List (Option Float))
  unfolding columns
  rows d zero i c = some c
  rows d (suc left) i c = columns d i d.n 0 c >>= rows d left (i + 1)

  unfoldable pub repeated : Dgemm → ℕ → List (Option Float) → Option (List (Option Float))
  unfolding rows
  repeated d zero c = some c
  repeated d (suc left) c = rows d d.n 0 c >>= repeated d left

  -- `call_work`: what is in the third matrix at the end.
  unfoldable pub do_dgemm : Dgemm → Option (List (Option Float))
  unfolding repeated
  do_dgemm d = repeated d d.repeats d.matrix_c

  -- The three matrices of `init_argument`.
  pub record Matrices : Type 0 where
    pub a : List (Option Float)
    pub b : List (Option Float)
    pub c : List (Option Float)

  -- The inner loop of `init_argument`, over `k`, for the row `j`.
  unfoldable pub fill_columns : ℕ → ℕ → ℕ → ℕ → Matrices → Option Matrices
  fill_columns n j zero k m = some m
  fill_columns n j (suc left) k m =
      let p = u32 (u32 (j * n) + k) in
      write m.a p (literal (codes "2.0")) >>= λ a. write m.b p (literal (codes "0.5")) >>= λ b.
      write m.c p (literal (codes "1.0")) >>= λ c.
      fill_columns n j left (k + 1) (record { a = a; b = b; c = c })

  unfoldable pub fill_rows : ℕ → ℕ → ℕ → Matrices → Option Matrices
  unfolding fill_columns
  fill_rows n zero j m = some m
  fill_rows n (suc left) j m = fill_columns n j n 0 m >>= fill_rows n left (j + 1)

  -- What `malloc` gives for a matrix.
  abbrev pub new_matrix : ℕ → List (Option Float)
  new_matrix n = replicate (u64 (8 * n * n) / 8) none

  -- `init_argument`, for a `malloc` that succeeds, where `n` and `repeats` fit `int`.
  unfoldable pub dgemm_args : ℕ → ℕ → Option Dgemm
  unfolding fill_rows
  dgemm_args n repeats =
      fill_rows n n 0 (record { a = new_matrix n; b = new_matrix n; c = new_matrix n }) >>= λ m.
      some (record {
        matrix_a = m.a;
        matrix_b = m.b;
        matrix_c = m.c;
        alpha = literal (codes "1.0");
        beta = literal (codes "1.0");
        n = n;
        repeats = repeats;
      })
