-- ===== src/Selection.antt =====
-- The choice of benchmarks and counters of `main` of src/main.cc: `count_chars`, the loop over the
-- argument of `--benchmarks`, and the one over the argument of `--pmcs`. A C string is the list of
-- its characters, `none` a null pointer.
mod Names
pub mod Chosen
pub mod Counters
mod Examples
use hwvar.Base.{
  ℕ, zero, suc, ◌+◌, Bool, true, false, ◌&&◌, not, Option, none, some, List, [], ◌∷◌, if◌then◌else◌,
  ltb, ◌==◌, arith, replicate, length, set, u32, sub32,
}
use hwvar.Benchmark.{Benchmark}
use hwvar.Registry.{number_benchmarks, get_benchmark_name, get_benchmark_idx}

-- The loop of `count_chars`, over the rest of `str`.
unfoldable pub count_loop : List ℕ → ℕ → ℕ → ℕ
count_loop [] c chars = chars
count_loop (x ∷ xs) c chars = count_loop xs c (if x == c then u32 (chars + 1) else chars)

unfoldable pub count_chars : Option (List ℕ) → ℕ → ℕ
unfolding count_loop
count_chars none c = 0
count_chars (some str) c = count_loop str c 0

-- What `strtok` returns: a token, and where the next call goes on.
pub record Token : Type 0 where
  pub text : List ℕ
  pub rest : List ℕ

abbrev pub longer : ℕ → Token → Token
longer x t = record { text = x ∷ t.text; rest = t.rest }

-- The token up to the next comma.
unfoldable pub span : List ℕ → Token
span [] = record { text = []; rest = [] }
span (x ∷ xs) = if x == b',' then record { text = []; rest = xs } else longer x (span xs)

-- `strtok (s, ",")`, and `strtok (NULL, ",")` where `s` is left: commas are skipped.
unfoldable pub strtok : List ℕ → Option Token
unfolding span
strtok [] = none
strtok (x ∷ xs) = if x == b',' then strtok xs else some (longer x (span xs))

abbrev pub strtok_next : Option Token → Option Token
strtok_next none = none
strtok_next (some t) = strtok t.rest

-- The index for the next round, by what was found: `--i` in the body undoes the `++i` of the loop.
abbrev pub next_index : ℕ → Option Benchmark → ℕ
next_index i none = u32 (sub32 i 1 + 1)
next_index i (some b) = u32 (i + 1)

-- The loop over the names, from the text at which `strtok` goes on: `i` at its end, the array,
-- and the names that it reported as unknown. `none` is the end of fuel.
pub record Selected : Type 0 where
  pub count : ℕ
  pub slots : List (Option Benchmark)

unfoldable pub select_loop : ℕ → Option Token → ℕ → ℕ → List (Option Benchmark) → Option Selected
select_loop zero arg i num_benchmarks slots = none
select_loop (suc fuel) none i num_benchmarks slots = some (record { count = i; slots = slots })
select_loop (suc fuel) (some t) i num_benchmarks slots =
    let b = get_benchmark_name t.text in
    let rest =
      select_loop fuel (strtok_next (some t)) (next_index i b) num_benchmarks (set slots i b) in
    if ltb i num_benchmarks then rest else some (record { count = i; slots = slots })

-- The loop over `get_benchmark_idx`, from `i`, for `n` more rounds.
unfoldable pub select_all : ℕ → ℕ → List (Option Benchmark) → List (Option Benchmark)
select_all zero i slots = slots
select_all (suc n) i slots = select_all n (u32 (i + 1)) (set slots i (get_benchmark_idx i))

unfoldable pub select_benchmarks : Option (List ℕ) → Option Selected
unfolding select_loop select_all count_chars number_benchmarks strtok
select_benchmarks none =
    let num_benchmarks = number_benchmarks in
    some (record {
      count = num_benchmarks;
      slots = select_all num_benchmarks 0 (replicate num_benchmarks none);
    })
select_benchmarks (some opt_benchmarks) =
    let num_benchmarks = u32 (count_chars (some opt_benchmarks) b',' + 1) in
    select_loop (suc (length opt_benchmarks)) (strtok opt_benchmarks) 0 num_benchmarks
      (replicate num_benchmarks none)

-- `opt_pmcs != NULL && *opt_pmcs != '\0'`
abbrev pub have_pmcs : Option (List ℕ) → Bool
have_pmcs none = false
have_pmcs (some []) = false
have_pmcs (some (x ∷ xs)) = true

abbrev pub num_pmcs : Option (List ℕ) → ℕ
unfolding count_chars
num_pmcs opt_pmcs = u32 ((if have_pmcs opt_pmcs then 1 else 0) + count_chars opt_pmcs b',')

-- The loop over the counters; an entry of the array is `none` until it is written.
unfoldable pub pmcs_loop :
    ℕ → Option Token → ℕ → ℕ → List (Option (List ℕ)) → Option (List (Option (List ℕ)))
pmcs_loop zero arg i num slots = none
pmcs_loop (suc fuel) none i num slots = some slots
pmcs_loop (suc fuel) (some t) i num slots =
    let rest =
      pmcs_loop fuel (strtok_next (some t)) (u32 (i + 1)) num (set slots i (some t.text)) in
    if ltb i num then rest else some slots

unfoldable pub parse_pmcs : Option (List ℕ) → Option (List (Option (List ℕ)))
unfolding pmcs_loop strtok count_chars
parse_pmcs none = some []
parse_pmcs (some opt_pmcs) =
    if have_pmcs (some opt_pmcs)
    then pmcs_loop (suc (length opt_pmcs)) (strtok opt_pmcs) 0 (num_pmcs (some opt_pmcs))
        (replicate (num_pmcs (some opt_pmcs)) none)
    else some []
