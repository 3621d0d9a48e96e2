-- ===== src/Kernel/Stream/Runs.antt =====
-- What any number of rounds of the STREAM kernels leaves in the arrays.
use mathlib.Core.Path.{subst}
use hwvar.Base.{ℕ, zero, suc, ◌+◌, Option, none, some, ◌≡◌, refl, ap, ◌∙◌, arith}
use hwvar.Kernel.Arrays.{◌>>=◌}
use hwvar.Kernel.Defs.{Doubles}
use hwvar.Kernel.TuneSize.{Config, tune_size}
use hwvar.Kernel.Stream.{
  Kind, copy, scale, add, triad, all, datasets, Memory, for_each, again, copy_at, scale_at, add_at,
  triad_at, stream_copy_, stream_scale_, stream_add_, stream_triad_, stream_call, stream_work,
}
use hwvar.Kernel.Stream.Values.{Flat, Ends, Ends-bind, copy-Flat, scale-Flat, add-Flat, triad-Flat}
use hwvar.Kernel.Stream.Arrays.{argument_init-two, argument_init-three}

module _ (f : Doubles) where
  open f use {Double, of_ℕ, plus, times}

  -- The value of all cells of `a`, `b` and `c` after `n` rounds.
  abbrev pub value_a : Kind → ℕ → Double
  value_a copy n = of_ℕ 1
  value_a scale zero = of_ℕ 1
  value_a scale (suc n) = times (of_ℕ 3) (of_ℕ 2)
  value_a add n = of_ℕ 1
  value_a triad zero = of_ℕ 1
  value_a triad (suc n) = plus (of_ℕ 2) (times (of_ℕ 3) (of_ℕ 0))
  value_a all zero = of_ℕ 1
  value_a all (suc n) = let x = value_a all n in plus x (times (of_ℕ 3) (plus (times (of_ℕ 3) x) x))

  abbrev pub value_b : Kind → ℕ → Double
  value_b copy (suc n) = of_ℕ 1
  value_b all (suc n) = value_a all n
  value_b _ _ = of_ℕ 2

  abbrev pub value_c : Kind → ℕ → Option Double
  value_c copy n = none
  value_c scale n = none
  value_c add (suc n) = some (plus (of_ℕ 1) (of_ℕ 2))
  value_c all (suc n) = let x = value_a all n in some (plus (times (of_ℕ 3) x) x)
  value_c _ _ = some (of_ℕ 0)

  -- The cells of the arrays.
  abbrev pub cells_of : Kind → ℕ → ℕ
  cells_of copy size = size + size
  cells_of scale size = size + size
  cells_of _ size = size + size + size

  module _ (size : ℕ) (kind : Kind) where
    abbrev pub After : ℕ → Memory f → Type 0
    After n =
        Flat f size (cells_of kind size) (some (value_a kind n)) (some (value_b kind n))
          (value_c kind n)

    again-After :
        (body : Memory f → Option (Memory f))
        → ((k : ℕ) (m : Memory f)
            → After k m
            → Ends f size (cells_of kind size) (body m) (After (suc k)))
        → (n k : ℕ) (m : Memory f) → After k m
        → Ends f size (cells_of kind size) (again f body n m) (After (k + n))
    unfolding again
    again-After body round zero k m h = (m, refl, subst (λ j. After j m) (omega arith) h)
    again-After body round (suc n) k m h =
        let (m1, run, h1) = round k m h in
        let (m2, rest, h2) = again-After body round n (suc k) m1 h1 in
        let same : suc k + n ≡ k + suc n = omega arith in
        (
          m2,
          ap (λ (o : Option (Memory f)). o >>= again f body n) run ∙ rest,
          subst (λ j. After j m2) same h2,
        )

  bind_some : (o : Option (Memory f)) → (o >>= λ m. some m) ≡ o
  bind_some none = refl
  bind_some (some m) = refl

  -- A single round.
  once :
      (size room : ℕ) {P : Memory f → Type 0} (body : Memory f → Option (Memory f)) (m : Memory f)
      → Ends f size room (body m) P
      → Ends f size room (again f body 1 m) P
  unfolding again
  once size room body m (m', run, h) = (m', bind_some (body m) ∙ run, h)

  module _ (size : ℕ) where
    copy-round :
        (k : ℕ) (m : Memory f)
        → After size copy k m
        → Ends f size
            (size + size)
            (for_each f (copy_at f 0 size) size 0 m)
            (After size copy (suc k))
    copy-round k m =
        copy-Flat f size (size + size) (some (value_b copy k)) none (of_ℕ 1) m (omega arith)

    scale-round :
        (k : ℕ) (m : Memory f)
        → After size scale k m
        → Ends f size
            (size + size)
            (for_each f (scale_at f size 0 (of_ℕ 3)) size 0 m)
            (After size scale (suc k))
    scale-round k m =
        scale-Flat f size (size + size) (some (value_a scale k)) none (of_ℕ 2) (of_ℕ 3) m
          (omega arith)

    add-round :
        (k : ℕ) (m : Memory f)
        → After size add k m
        → Ends f size
            (size + size + size)
            (for_each f (add_at f 0 size (size + size)) size 0 m)
            (After size add (suc k))
    add-round k m =
        add-Flat f size (size + size + size) (of_ℕ 1) (of_ℕ 2) (value_c add k) m (omega arith)

    triad-round :
        (k : ℕ) (m : Memory f)
        → After size triad k m
        → Ends f size
            (size + size + size)
            (for_each f (triad_at f 0 size (size + size) (of_ℕ 3)) size 0 m)
            (After size triad (suc k))
    triad-round k m =
        triad-Flat f size (size + size + size) (some (value_a triad k)) (of_ℕ 2) (of_ℕ 0) (of_ℕ 3) m
          (omega arith)

    abbrev all_body : Memory f → Option (Memory f)
    all_body m = stream_copy_ f 0 size size 1 m >>= λ m.
        stream_scale_ f size 0 (of_ℕ 3) size 1 m >>= λ m.
        stream_add_ f 0 size (size + size) size 1 m >>= λ m.
        stream_triad_ f 0 size (size + size) (of_ℕ 3) size 1 m

    all-round :
        (k : ℕ) (m : Memory f)
        → After size all k m
        → Ends f size (size + size + size) (all_body m) (After size all (suc k))
    unfolding stream_copy_ stream_scale_ stream_add_ stream_triad_
    all-round k m h =
        let room = size + size + size in
        let x = value_a all k in
        let x3 = times (of_ℕ 3) x in
        let goal = After size all (suc k) in
        Ends-bind f size room goal
          (once size room (for_each f (copy_at f 0 size) size 0) m
            (copy-Flat f size room (some (value_b all k)) (value_c all k) x m (omega arith) h))
          (λ m1 h1.
            Ends-bind f size room goal
              (once size room (for_each f (scale_at f size 0 (of_ℕ 3)) size 0) m1
                (scale-Flat f size room (some x) (value_c all k) x (of_ℕ 3) m1 (omega arith) h1))
              (λ m2 h2.
                Ends-bind f size room goal
                  (once size room (for_each f (add_at f 0 size (size + size)) size 0) m2
                    (add-Flat f size room x3 x (value_c all k) m2 (omega arith) h2))
                  (λ m3 h3.
                    once size room (for_each f (triad_at f 0 size (size + size) (of_ℕ 3)) size 0) m3
                      (triad-Flat f size room (some x3) x (plus x3 x) (of_ℕ 3) m3 (omega arith)
                        h3))))

counted : (n : ℕ) → 0 + n ≡ n
counted n = omega arith

-- For each of the five benchmarks, where `tune_size` gives a size: `STREAM_argument_init` and then
-- any number of rounds end, without an access outside of the memory that was allocated and without a
-- read of a cell that was not written. All elements of an array have then the same value, which is
-- that of the formulas of the benchmark, in the order of their operations; the memory is as large as
-- the arrays that the benchmark uses.
pub stream_work-After :
    (f : Doubles) (config : Config f) (kind : Kind) (n size : ℕ)
    → tune_size f config 8 (datasets kind) 1 ≡ some size
    → (m : Memory f) × (stream_work f config kind n ≡ some m) × After f size kind n m
unfolding stream_work stream_call stream_copy_ stream_scale_ stream_add_ stream_triad_
stream_work-After f config copy n size e =
    let (m, run, h) = argument_init-two f config size e in
    let (m', runs, h') = again-After f size copy _ (copy-round f size) n 0 m h in
    (m', rw (run, e) runs, subst (λ j. After f size copy j m') (counted n) h')
stream_work-After f config scale n size e =
    let (m, run, h) = argument_init-two f config size e in
    let (m', runs, h') = again-After f size scale _ (scale-round f size) n 0 m h in
    (m', rw (run, e) runs, subst (λ j. After f size scale j m') (counted n) h')
stream_work-After f config add n size e =
    let (m, run, h) = argument_init-three f config size e in
    let (m', runs, h') = again-After f size add _ (add-round f size) n 0 m h in
    (m', rw (run, e) runs, subst (λ j. After f size add j m') (counted n) h')
stream_work-After f config triad n size e =
    let (m, run, h) = argument_init-three f config size e in
    let (m', runs, h') = again-After f size triad _ (triad-round f size) n 0 m h in
    (m', rw (run, e) runs, subst (λ j. After f size triad j m') (counted n) h')
stream_work-After f config all n size e =
    let (m, run, h) = argument_init-three f config size e in
    let (m', runs, h') = again-After f size all _ (all-round f size) n 0 m h in
    (m', rw (run, e) runs, subst (λ j. After f size all j m') (counted n) h')
