-- ===== src/Tuning/Auto.antt =====
-- The arguments that the benchmarks are initialised with.
use native.Mathlib.Nat.{mod-eq_of_lt}
use mathlib.Core.List.{append_assoc}
use hwvar.Base.{
  ℕ, suc, ◌+◌, ◌^◌, ◌<◌, List, [], ◌∷◌, ◌++◌, ◌≡◌, refl, ap, sym, ◌∙◌, arith, u32, length,
  length-append, length-replicate, length-map, set, replicate, map, if_else, ◌==◌, false,
}
use hwvar.Benchmark.{Benchmark}
use hwvar.Options.Values.{Outcome, continues, ◌>>=◌}
use hwvar.Tuning.Arguments.{
  Word, rounds_of, unset, set_ten, set_tuned, init_or_tune, tune_benchmarks_time,
}

set-append {ℓ} :
    {A : Type ℓ} (pre : List A) (x v : A) (xs : List A)
    → set (pre ++ x ∷ xs) (length pre) v ≡ (pre ++ v ∷ []) ++ xs
set-append [] x v xs = refl
set-append (y ∷ pre) x v xs = ap (λ l. y ∷ l) (set-append pre x v xs)

-- The place of the next argument.
set-next :
    (argc i : ℕ) (pre : List Word) (x v : Word) (xs : List Word)
    → length pre ≡ argc + i
    → argc + i < 2 ^ 32
    → set (pre ++ x ∷ xs) (u32 (argc + i)) v ≡ (pre ++ v ∷ []) ++ xs
set-next argc i pre x v xs here small =
    ap (λ k. set (pre ++ x ∷ xs) k v) (mod-eq_of_lt small ∙ sym here) ∙ set-append pre x v xs

length-next :
    (argc i : ℕ) (pre : List Word) (v : Word)
    → length pre ≡ argc + i
    → length (pre ++ v ∷ []) ≡ argc + (i + 1)
length-next argc i pre v here = omega (arith, length-append pre (v ∷ []))

abbrev pub given : (Benchmark → ℕ) → Benchmark → Word
given n b = rounds_of b.name (n b)

set_ten-map :
    (argc i : ℕ) (bs : List Benchmark) (pre xs : List Word)
    → length pre ≡ argc + i
    → length xs ≡ length bs
    → argc + i + length bs < 2 ^ 32
    → set_ten argc i bs (pre ++ xs) ≡ pre ++ map (given (λ b. 10)) bs
unfolding set_ten
set_ten-map argc i [] pre [] here same small = refl
set_ten-map argc i [] pre (x ∷ xs) here same small = cc
set_ten-map argc i (b ∷ bs) pre [] here same small = cc
set_ten-map argc i (b ∷ bs) pre (x ∷ xs) here same small =
    let v = rounds_of b.name 10 in
    ap (set_ten argc (i + 1) bs) (set-next argc i pre x v xs here (omega arith))
    ∙ set_ten-map argc (i + 1) bs (pre ++ v ∷ []) xs (length-next argc i pre v here) (omega arith)
        (omega arith)
    ∙ append_assoc pre (v ∷ []) (map (given (λ b. 10)) bs)

module _ (tuned : Benchmark → Outcome ℕ) (n : Benchmark → ℕ)
    (does : (b : Benchmark) → tuned b ≡ continues (n b)) where
  set_tuned-map :
      (argc i : ℕ) (bs : List Benchmark) (pre xs : List Word)
      → length pre ≡ argc + i
      → length xs ≡ length bs
      → argc + i + length bs < 2 ^ 32
      → set_tuned tuned argc i bs (pre ++ xs) ≡ continues (pre ++ map (given n) bs)
  unfolding set_tuned
  set_tuned-map argc i [] pre [] here same small = refl
  set_tuned-map argc i [] pre (x ∷ xs) here same small = cc
  set_tuned-map argc i (b ∷ bs) pre [] here same small = cc
  set_tuned-map argc i (b ∷ bs) pre (x ∷ xs) here same small =
      let v = rounds_of b.name (n b) in
      ap
        (λ (o : Outcome ℕ). o >>= λ k.
          set_tuned tuned argc (i + 1) bs
            (set (pre ++ x ∷ xs) (u32 (argc + i)) (rounds_of b.name k)))
        (does b)
      ∙ ap (set_tuned tuned argc (i + 1) bs) (set-next argc i pre x v xs here (omega arith))
      ∙ set_tuned-map argc (i + 1) bs (pre ++ v ∷ []) xs (length-next argc i pre v here)
          (omega arith) (omega arith)
      ∙ ap continues (append_assoc pre (v ∷ []) (map (given n) bs))

  tune_benchmarks_time-given :
      (bs : List Benchmark) (argv xs : List Word)
      → length xs ≡ length bs
      → length argv + length bs < 2 ^ 32
      → tune_benchmarks_time tuned bs (argv ++ xs) (length argv)
        ≡ continues (argv ++ map (given (λ b. 10)) bs, argv ++ map (given n) bs)
  unfolding tune_benchmarks_time
  tune_benchmarks_time-given bs argv xs same small =
      let argc = length argv in
      let tens = map (given (λ b. 10)) bs in
      ap (λ argv'. set_tuned tuned argc 0 bs argv' >>= λ argv''. continues (argv', argv''))
        (set_ten-map argc 0 bs argv xs (omega arith) same (omega arith))
      ∙ ap (λ (o : Outcome (List Word)). o >>= λ argv''. continues (argv ++ tens, argv''))
          (set_tuned-map argc 0 bs argv tens (omega arith) (length-map (given (λ b. 10)) bs)
            (omega arith))

  -- Where `tune_time` gives each benchmark a number of rounds, the option --auto makes `main`
  -- initialise the benchmarks twice: with 10 rounds for each chosen benchmark behind the arguments of
  -- the user, and then with the numbers of `tune_time` in their place, each at the right name. For
  -- fewer than 2 ^ 32 arguments in all.
  pub init_or_tune-auto :
      (auto_tune : ℕ) (bs : List Benchmark) (argv : List Word)
      → length argv + length bs < 2 ^ 32
      → init_or_tune tuned 0 (suc auto_tune) bs argv
        ≡ continues ((argv ++ map (given (λ b. 10)) bs) ∷ (argv ++ map (given n) bs) ∷ [])
  unfolding init_or_tune
  init_or_tune-auto auto_tune bs argv small =
      let on : (suc auto_tune == 0) ≡ false = ground arith in
      if_else _ on
      ∙ ap
          (λ (o : Outcome (List Word × List Word)).
            o >>= λ myargv. continues (myargv.0 ∷ myargv.1 ∷ []))
          (tune_benchmarks_time-given bs argv (replicate (length bs) unset)
            (length-replicate (length bs) unset) small)
