-- ===== src/Kernel/Capacity/Rounds.antt =====
-- What any number of rounds of the capacity kernel leaves in memory.
use native.Mathlib.Nat.{mul-lt-mul_of_pos_right, div-mul-le_self, div-le_self}
use hwvar.Base.{
  ℕ, zero, suc, ◌*◌, ◌/◌, ◌^◌, ◌<◌, none, some, ◌≡◌, refl, ap, ◌∙◌, arith, false, if_else, ◌==◌,
  u32, u64,
}
use hwvar.Kernel.Capacity.{Capacity, capacity_init, u8, capacity_call}
use hwvar.Kernel.Capacity.Lines.{Swept, gathered-Swept, capacity_work-Swept}

module _ (linesize : ℕ) (some_bytes : 0 < linesize) where
  -- A round upon a round changes nothing.
  Swept-Swept :
      (n : ℕ) (d e e' : ℕ → ℕ)
      → Swept linesize n d e
      → Swept linesize n e e'
      → Swept linesize n d e'
  Swept-Swept n d e e' h again = record {
    written =
        λ i l odd. again.written i l odd ∙ ap u8 (gathered-Swept linesize some_bytes n d e h i);
    kept = λ j apart. again.kept j apart ∙ h.kept j apart;
  }

  module _ (c : Capacity) (n : ℕ) (stride : c.linesize ≡ linesize)
      (inside : (i : ℕ) → i < n → i * linesize < c.size) (small : c.size < 2 ^ 32)
      (lines : c.num_lines ≡ n) where
    capacity_call-Swept :
        (left : ℕ) (d e : ℕ → ℕ)
        → Swept linesize n d e
        → (e' : ℕ → ℕ) × (capacity_call c left e ≡ some e') × Swept linesize n d e'
    unfolding capacity_call
    capacity_call-Swept zero d e h = (e, refl, h)
    capacity_call-Swept (suc left) d e h =
        let (e1, run, once) =
          capacity_work-Swept linesize some_bytes c n e stride inside small lines in
        let (e2, rest, more) = capacity_call-Swept left d e1 (Swept-Swept n d e e1 h once) in
        (e2, rw run rest, more)

    capacity_call-first :
        (left : ℕ) (d : ℕ → ℕ)
        → (e : ℕ → ℕ) × (capacity_call c (suc left) d ≡ some e) × Swept linesize n d e
    unfolding capacity_call
    capacity_call-first left d =
        let (e1, run, once) =
          capacity_work-Swept linesize some_bytes c n d stride inside small lines in
        let (e2, rest, more) = capacity_call-Swept left d e1 once in (e2, rw run rest, more)

-- For a cache of less than 2 ^ 31 bytes and lines of some bytes, `capacity_init` succeeds, and any
-- number of rounds but zero ends within the bytes of the benchmark, whatever they hold at first. The
-- first byte of each odd line below the size of the cache is then the sum, modulo 256, of the first
-- bytes of the even lines before it and of their numbers; every other byte is what it was, all of the second half of
-- the array included.
pub capacity_call-init :
    (size line_size rounds : ℕ) (d : ℕ → ℕ)
    → size < 2 ^ 31
    → 0 < line_size
    → line_size < 2 ^ 32
    → 0 < rounds
    → (c : Capacity) × (e : ℕ → ℕ) × (capacity_init size line_size ≡ some c)
      × (capacity_call c rounds d ≡ some e)
      × Swept line_size (size / line_size) d e
unfolding capacity_init
capacity_call-init size line_size zero d few pos word some_round = absurd (omega arith)
capacity_call-init size line_size (suc left) d few pos word some_round =
    let lines = size / line_size in
    let c : Capacity = record {
      size = u32 (u64 (size * 2));
      linesize = u32 line_size;
      num_lines = u32 lines;
    } in
    let whole = div-mul-le_self size line_size in
    let inside : (i : ℕ) → i < lines → i * line_size < u32 (u64 (size * 2)) = λ i l.
      omega (arith, whole, mul-lt-mul_of_pos_right {m = i} {n = lines} {k = line_size} l pos) in
    let test : (line_size == 0) ≡ false = ground arith in
    let (e, run, h) =
      capacity_call-first line_size pos c lines (omega arith) inside (omega arith)
        (omega (arith, div-le_self size line_size)) left d in
    (c, e, if_else none test, run, h)
