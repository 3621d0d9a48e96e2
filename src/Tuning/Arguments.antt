-- ===== src/Tuning/Arguments.antt =====
-- `tune_benchmarks_time` of src/main.cc, and the part of `main` that calls it or `init_benchmarks`.
use hwvar.Base.{ℕ, ◌+◌, List, [], ◌∷◌, ◌++◌, if◌then◌else◌, ◌==◌, u32, length, set, replicate}
use hwvar.Benchmark.{Benchmark}
use hwvar.Options.Values.{success, Outcome, continues, exits, ◌>>=◌}

-- An argument of the command line: a text, "--NAME-rounds=NUMBER" as `asprintf` makes it, or what
-- `malloc` left there.
pub data Word : Type 0 where
  text : List ℕ → Word
  rounds_of : List ℕ → ℕ → Word
  unset : Word

-- The first loop, from benchmark `i`.
unfoldable pub set_ten : ℕ → ℕ → List Benchmark → List Word → List Word
set_ten argc i [] argv = argv
set_ten argc i (b ∷ bs) argv =
    set_ten argc (i + 1) bs (set argv (u32 (argc + i)) (rounds_of b.name 10))

-- `tune_time` of each benchmark comes to a number of rounds, or ends the program.
module _ (tuned : Benchmark → Outcome ℕ) where
  -- The second loop.
  unfoldable pub set_tuned : ℕ → ℕ → List Benchmark → List Word → Outcome (List Word)
  set_tuned argc i [] argv = continues argv
  set_tuned argc i (b ∷ bs) argv =
      tuned b >>= λ n. set_tuned argc (i + 1) bs (set argv (u32 (argc + i)) (rounds_of b.name n))

  -- The arguments that `init_benchmarks` gets, and those that are left.
  unfoldable pub tune_benchmarks_time :
      List Benchmark → List Word → ℕ → Outcome (List Word × List Word)
  unfolding set_ten set_tuned
  tune_benchmarks_time bs argv argc =
      let argv' = set_ten argc 0 bs argv in
      set_tuned argc 0 bs argv' >>= λ argv''. continues (argv', argv'')

  -- Each list of arguments that `init_benchmarks` is called with, where `main` goes on. `argv` has
  -- `argc` arguments.
  unfoldable pub init_or_tune : ℕ → ℕ → List Benchmark → List Word → Outcome (List (List Word))
  unfolding tune_benchmarks_time
  init_or_tune tune auto_tune bs argv =
      let idx = length argv in
      if tune == 0
      then (if auto_tune == 0
          then continues (argv ∷ [])
          else (tune_benchmarks_time bs (argv ++ replicate (length bs) unset) idx >>= λ myargv.
              continues (myargv.0 ∷ myargv.1 ∷ [])))
      else (tune_benchmarks_time bs (text [] ∷ replicate (length bs) unset) 1 >>= λ _.
          exits success)
