-- ===== src/Registry.antt =====
-- src/benchmarks/benchmark.c: the table of benchmarks, its initialisation and its lookups. The
-- entries are the `benchmark_t` constants of the files in src/benchmarks.
pub mod Lookup
mod Examples
use hwvar.Base.{
  ℕ, zero, suc, ◌-◌, Bool, true, false, Option, none, some, List, [], ◌∷◌, if◌then◌else◌, ltb,
  length, get_elem?, codes, strcaseeq,
}
use hwvar.Benchmark.{Benchmark, Init, Call}

abbrev pub dgemm_ops : Benchmark
dgemm_ops = record {
  name = codes "dgemm";
  init = some Init.dgemm_init;
  init_arg = true;
  reset_arg = false;
  free_arg = true;
  call = Call.kernel 0;
  state = none;
}

abbrev pub haccmk_ops : Benchmark
haccmk_ops = record {
  name = codes "HACCmk";
  init = some Init.haccmk_init;
  init_arg = true;
  reset_arg = false;
  free_arg = true;
  call = Call.kernel 1;
  state = none;
}

abbrev pub sha256 : Benchmark
sha256 = record {
  name = codes "sha256";
  init = some Init.sha256_init;
  init_arg = true;
  reset_arg = false;
  free_arg = true;
  call = Call.kernel 2;
  state = none;
}

abbrev pub fwq_ops : Benchmark
fwq_ops = record {
  name = codes "fwq";
  init = some Init.fwq_init;
  init_arg = true;
  reset_arg = false;
  free_arg = true;
  call = Call.kernel 3;
  state = none;
}

abbrev pub hpccg_ops : Benchmark
hpccg_ops = record {
  name = codes "hpccg";
  init = some Init.hpccg_init;
  init_arg = true;
  reset_arg = false;
  free_arg = false;
  call = Call.kernel 4;
  state = none;
}

abbrev pub minife_ops : Benchmark
minife_ops = record {
  name = codes "minife";
  init = some Init.minife_init;
  init_arg = true;
  reset_arg = false;
  free_arg = false;
  call = Call.kernel 5;
  state = none;
}

abbrev pub capacity_ops : Benchmark
capacity_ops = record {
  name = codes "capacity";
  init = some Init.capacity_init;
  init_arg = true;
  reset_arg = false;
  free_arg = true;
  call = Call.kernel 6;
  state = none;
}

-- The five STREAM entries of src/benchmarks/stream.c differ in name, call and number of data sets.
abbrev stream_entry : List ℕ → ℕ → ℕ → Benchmark
stream_entry name call datasets = record {
  name = name;
  init = some Init.stream_init;
  init_arg = true;
  reset_arg = false;
  free_arg = true;
  call = Call.kernel call;
  state = some datasets;
}

abbrev pub stream : Benchmark
stream = stream_entry (codes "STREAM") 7 3

abbrev pub stream_scale : Benchmark
stream_scale = stream_entry (codes "STREAM_Scale") 8 2

abbrev pub stream_add : Benchmark
stream_add = stream_entry (codes "STREAM_Add") 9 3

abbrev pub stream_triad : Benchmark
stream_triad = stream_entry (codes "STREAM_Triad") 10 3

abbrev pub stream_copy : Benchmark
stream_copy = stream_entry (codes "STREAM_Copy") 11 2

-- `benchmarks[]`
unfoldable pub benchmarks : List Benchmark
benchmarks =
    dgemm_ops ∷ haccmk_ops ∷ sha256 ∷ fwq_ops ∷ hpccg_ops ∷ minife_ops ∷ capacity_ops ∷ stream
    ∷ stream_scale ∷ stream_add ∷ stream_triad ∷ stream_copy ∷ []

unfoldable pub number_benchmarks : ℕ
unfolding benchmarks
number_benchmarks = length benchmarks

-- The loop of `init_benchmarks` over the first `n` entries: the `init` functions in the order in
-- which they are called, each after `optind` is reset.
unfoldable pub init_first : ℕ → List Benchmark → List Init
init_first zero bs = []
init_first (suc n) [] = []
init_first (suc n) (b ∷ bs) = elim b.init [ some f ↦ f ∷ init_first n bs | none ↦ init_first n bs ]

unfoldable pub init_benchmarks : List Init
unfolding init_first number_benchmarks
init_benchmarks = init_first (number_benchmarks - 4) benchmarks

-- The loop of `get_benchmark_name`.
unfoldable pub find_name : List ℕ → List Benchmark → Option Benchmark
unfolding strcaseeq
find_name name [] = none
find_name name (b ∷ bs) = if strcaseeq name b.name then some b else find_name name bs

unfoldable pub get_benchmark_name : List ℕ → Option Benchmark
unfolding find_name benchmarks
get_benchmark_name name = find_name name benchmarks

-- `none` is the failure of the `assert`.
unfoldable pub get_benchmark_idx : ℕ → Option Benchmark
unfolding number_benchmarks
get_benchmark_idx idx = if ltb idx number_benchmarks then get_elem? benchmarks idx else none
