-- ===== src/Result/Row.antt =====
-- A sample is one row of the result array: the row that a round of a worker writes, and where it
-- lies.
use hwvar.Base.{
  ℕ, zero, suc, ◌+◌, ◌*◌, ◌≤◌, ◌<◌, ◌^◌, List, [], ◌∷◌, ◌≡◌, refl, ◌⊎◌, arith, length, get_elem?,
  set, length-set, get_elem?-set_self, get_elem?-set_ne, u32, sub32, sub64, ◌∙◌,
}
use hwvar.Result.{Probe, write_cells, worker_rep, result_base}

pub length-write_cells :
    (d : List ℕ) (at : ℕ) (vs : List ℕ) → length (write_cells d at vs) ≡ length d
unfolding write_cells
length-write_cells d at [] = refl
length-write_cells d at (v ∷ vs) = length-write_cells (set d at v) (at + 1) vs ∙ length-set d at v

pub write_cells-outside :
    (d : List ℕ) (at : ℕ) (vs : List ℕ) (j : ℕ)
    → (j < at) ⊎ (at + length vs ≤ j)
    → get_elem? (write_cells d at vs) j ≡ get_elem? d j
unfolding write_cells
write_cells-outside d at [] j h = refl
write_cells-outside d at (v ∷ vs) j h =
    write_cells-outside (set d at v) (at + 1) vs j (omega arith)
    ∙ get_elem?-set_ne d at j v (omega arith)

pub write_cells-inside :
    (d : List ℕ) (at : ℕ) (vs : List ℕ) (k : ℕ)
    → at + length vs ≤ length d
    → k < length vs
    → get_elem? (write_cells d at vs) (at + k) ≡ get_elem? vs k
unfolding write_cells
write_cells-inside d at [] k h p = absurd (omega arith)
write_cells-inside d at (v ∷ vs) zero h p =
    ground (arith, write_cells-outside (set d at v) (at + 1) vs at, get_elem?-set_self d at v)
write_cells-inside d at (v ∷ vs) (suc k) h p =
    ground (arith, write_cells-inside (set d at v) (at + 1) vs k, length-set d at v)

-- The cells of a sample: the elapsed time and the counts behind it.
abbrev pub sample : Probe → List ℕ
sample p = sub64 p.finish p.start ∷ p.counts

-- Where a round of a worker writes.
abbrev pub rep_index : ℕ → ℕ → ℕ → ℕ
rep_index base num_pmcs rep = base + u32 (u32 (num_pmcs + 1) * rep)

pub worker_rep-inside :
    (base num_pmcs rep k : ℕ) (p : Probe) (d : List ℕ)
    → rep_index base num_pmcs rep + length (sample p) ≤ length d
    → k < length (sample p)
    → get_elem? (worker_rep base num_pmcs rep p d) (rep_index base num_pmcs rep + k)
      ≡ get_elem? (sample p) k
unfolding worker_rep
worker_rep-inside base num_pmcs rep zero p d h q = ground (
  arith,
  length-write_cells d (rep_index base num_pmcs rep + 1) p.counts,
  get_elem?-set_self (write_cells d (rep_index base num_pmcs rep + 1) p.counts)
      (rep_index base num_pmcs rep) (sub64 p.finish p.start),
)
worker_rep-inside base num_pmcs rep (suc k) p d h q = ground (
  arith,
  get_elem?-set_ne (write_cells d (rep_index base num_pmcs rep + 1) p.counts)
      (rep_index base num_pmcs rep) (rep_index base num_pmcs rep + suc k) (sub64 p.finish p.start),
  write_cells-inside d (rep_index base num_pmcs rep + 1) p.counts k,
)

pub worker_rep-outside :
    (base num_pmcs rep j : ℕ) (p : Probe) (d : List ℕ)
    → (j < rep_index base num_pmcs rep) ⊎ (rep_index base num_pmcs rep + length (sample p) ≤ j)
    → get_elem? (worker_rep base num_pmcs rep p d) j ≡ get_elem? d j
unfolding worker_rep
worker_rep-outside base num_pmcs rep j p d h =
    get_elem?-set_ne (write_cells d (base + (u32 (u32 (num_pmcs + 1) * rep) + 1)) p.counts)
      (rep_index base num_pmcs rep) j (sub64 p.finish p.start) (omega arith)
    ∙ write_cells-outside d (base + (u32 (u32 (num_pmcs + 1) * rep) + 1)) p.counts j (omega arith)

pub length-worker_rep :
    (base num_pmcs rep : ℕ) (p : Probe) (d : List ℕ)
    → length (worker_rep base num_pmcs rep p d) ≡ length d
unfolding worker_rep
length-worker_rep base num_pmcs rep p d =
    length-set (write_cells d (base + (u32 (u32 (num_pmcs + 1) * rep) + 1)) p.counts)
      (base + u32 (u32 (num_pmcs + 1) * rep)) (sub64 p.finish p.start)
    ∙ length-write_cells d (base + (u32 (u32 (num_pmcs + 1) * rep) + 1)) p.counts

pub mul_lt : (a b n : ℕ) → a < b → a * n + n ≤ b * n
mul_lt a b n h = grind arith

le_mul_pos : (a n : ℕ) → 0 < n → a ≤ a * n
le_mul_pos a n h = grind arith

u32_small : (x : ℕ) → x < 2 ^ 32 → u32 x ≡ x
u32_small x h = omega arith

row_in_rows : (threads reps t r : ℕ) → t < threads → r < reps → t * reps + r < threads * reps
row_in_rows threads reps t r ht hr = grind arith

-- The row of thread `t` and repetition `r` ends within the array.
pub row_end :
    (threads reps cols t r : ℕ)
    → t < threads
    → r < reps
    → (t * reps + r) * cols + cols ≤ threads * reps * cols
row_end threads reps cols t r ht hr =
    mul_lt (t * reps + r) (threads * reps) cols (row_in_rows threads reps t r ht hr)

-- In an array of fewer than 2 ^ 32 cells no product on the way to an index wraps.
pub u32_products :
    (threads reps cols t r : ℕ)
    → threads * reps * cols < 2 ^ 32
    → 0 < cols
    → t < threads
    → r < reps
    → (u32 (t * reps) ≡ t * reps)
      × (u32 cols ≡ cols)
      × (u32 (t * reps * cols) ≡ t * reps * cols)
      × (u32 (cols * r) ≡ cols * r)
u32_products threads reps cols t r fits pos ht hr =
    let end = row_end threads reps cols t r ht hr in
    let small = le_mul_pos (t * reps + r) cols pos in
    (omega arith, omega arith, omega arith, omega arith)

-- The row begins behind those before it.
pub rep_index-row :
    (threads reps cols t r : ℕ)
    → threads * reps * cols < 2 ^ 32
    → 0 < cols
    → t < threads
    → r < reps
    → rep_index (result_base t reps cols) (sub32 cols 1) r ≡ (t * reps + r) * cols
unfolding result_base
rep_index-row threads reps cols t r fits pos ht hr =
    let (a, b, c, d) = u32_products threads reps cols t r fits pos ht hr in
    let e : u32 (sub32 cols 1 + 1) ≡ cols = omega arith in rw (e, a, c, d) (omega arith)
