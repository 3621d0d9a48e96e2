-- ===== src/Options/Loop.antt =====
-- The variables of `main` that options set, and the loop over the options.
use hwvar.Base.{
  ℕ, ◌*◌, true, ◌||◌, Option, none, some, List, [], ◌∷◌, if◌then◌else◌, ◌==◌, codes, streq, u32,
  u64, get_or,
}
use hwvar.Kernel.Defs.{Doubles}
use hwvar.Spawn.{Bitmaps}
use hwvar.Driver.{Policy, parallel, one_by_one, pair}
use hwvar.Options.Values.{
  success, failure, Outcome, continues, exits, ◌>>=◌, Library, si_suffix_to_factor, parse_double,
  file_exists,
}

-- `stdout`, a file that was opened for writing, or the NULL of a `fopen` that fails.
pub data Output : Type 0 where
  stdout : Output
  written : List ℕ → Output
  null : Output

pub data Flag : Type 0 where
  tune auto_tune use_hyperthreads do_binding : Flag

-- `opened` is no variable, but what the file system has seen: the names that `fopen` was called with.
pub record Settings (f : Doubles) (hwloc : Bitmaps) : Type 0 where
  pub policy : Policy
  pub opt_benchmarks : Option (List ℕ)
  pub opt_pmcs : Option (List ℕ)
  pub iterations : ℕ
  pub size : ℕ
  pub fill : f.Double
  pub time : f.Double
  pub output : Output
  pub auto_tune : ℕ
  pub tune : ℕ
  pub use_hyperthreads : ℕ
  pub do_binding : ℕ
  pub cpuset1 : hwloc.Bitmap
  pub cpuset2 : hwloc.Bitmap
  pub opened : List (List ℕ)

-- `struct option`, less the name and whether there is an argument, which only `getopt_long` reads.
pub record Entry : Type 0 where
  pub flag : Option Flag
  pub val : ℕ

abbrev option : ℕ → Entry
option val = record { flag = none; val = val }

-- `options`
abbrev pub options : List Entry
options =
    option b'p'
    ∷ option b'b'
    ∷ option b'i'
    ∷ option b'l'
    ∷ option b'o'
    ∷ option 1
    ∷ option 2
    ∷ option b's'
    ∷ option b'f'
    ∷ option b't'
    ∷ record { flag = some Flag.tune; val = 1 }
    ∷ record { flag = some Flag.auto_tune; val = 1 }
    ∷ record { flag = some Flag.use_hyperthreads; val = 0 }
    ∷ record { flag = some Flag.do_binding; val = 0 }
    ∷ option b'm'
    ∷ []

-- What `getopt_long` finds on the command line: a long option by its index in `options`, or a
-- character, which is `?` for what it does not know; and `optarg`.
pub data Found : Type 0 where
  long short : ℕ → Found

pub record Parsed : Type 0 where
  pub found : Found
  pub optarg : List ℕ

abbrev entry : ℕ → Entry
entry i = get_or options i (option b'?')

-- What a call of `getopt_long` stores, and what it returns.
abbrev pub stored : Found → Option (Flag × ℕ)
stored (long i) = elim (entry i).flag [ none ↦ none | some flag ↦ some (flag, (entry i).val) ]
stored (short c) = none

abbrev pub returned : Found → ℕ
returned (long i) = elim (entry i).flag [ none ↦ (entry i).val | some flag ↦ 0 ]
returned (short c) = c

-- The labels of the `switch`; `no_case` is what has no effect.
pub data Case : Type 0 where
  case_1 case_2 case_p case_b case_i case_l case_m case_o case_s case_f case_t no_case : Case

abbrev pub case_of : ℕ → Case
case_of c =
    if c == 1
    then case_1
    else if c == 2
    then case_2
    else if c == b'p'
    then case_p
    else if c == b'b'
    then case_b
    else if c == b'i'
    then case_i
    else if c == b'l'
    then case_l
    else if c == b'm'
    then case_m
    else if c == b'o'
    then case_o
    else if c == b's'
    then case_s
    else if c == b'f'
    then case_f
    else if c == b't'
    then case_t
    else no_case

abbrev pub policy_named : List ℕ → Option Policy
policy_named optarg =
    if streq optarg (codes "parallel")
    then some parallel
    else if streq optarg (codes "onebyone") || streq optarg (codes "one-by-one")
    then some one_by_one
    else if streq optarg (codes "pair")
    then some pair
    else none

-- The character at the end pointer of `strtoul`.
abbrev pub suffix : List ℕ → ℕ
suffix [] = 0
suffix (c ∷ cs) = c

module _ {f : Doubles} {hwloc : Bitmaps} (lib : Library f hwloc) where
  open lib use {strtoul, fopen, list_sscanf, literal}

  abbrev pub store : Option (Flag × ℕ) → Settings f hwloc → Settings f hwloc
  store none v = v
  store (some (Flag.tune, n)) v = record v { tune = n }
  store (some (Flag.auto_tune, n)) v = record v { auto_tune = n }
  store (some (Flag.use_hyperthreads, n)) v = record v { use_hyperthreads = n }
  store (some (Flag.do_binding, n)) v = record v { do_binding = n }

  -- The body of the `switch`.
  unfoldable pub handle : Case → List ℕ → Settings f hwloc → Outcome (Settings f hwloc)
  handle case_1 optarg v = elim (list_sscanf optarg) [
    | none ↦ exits failure
    | some set ↦ continues (record v { cpuset1 = set })
  ]
  handle case_2 optarg v = elim (list_sscanf optarg) [
    | none ↦ exits failure
    | some set ↦ continues (record v { cpuset2 = set })
  ]
  handle case_p optarg v = elim (policy_named optarg) [
    | none ↦ exits failure
    | some named ↦ continues (record v { policy = named })
  ]
  handle case_b optarg v = continues (record v { opt_benchmarks = some optarg })
  handle case_i optarg v = continues (record v { iterations = u32 (strtoul optarg).value })
  handle case_l optarg v = exits success
  handle case_m optarg v = continues (record v { opt_pmcs = some optarg })
  handle case_o optarg v =
      if streq optarg (codes "-")
      then continues v
      else if file_exists lib v.opened optarg
      then exits failure
      else continues (record v {
        output = if fopen v.opened optarg then written optarg else null;
        opened = optarg ∷ v.opened;
      })
  handle case_s optarg v =
      let tmp = strtoul optarg in
      si_suffix_to_factor (suffix tmp.rest) >>= λ factor.
      continues (record v { size = u64 (tmp.value * factor) })
  handle case_f optarg v =
      parse_double lib optarg true >>= λ value. continues (record v { fill = value })
  handle case_t optarg v =
      parse_double lib optarg true >>= λ value. continues (record v { time = value })
  handle no_case optarg v = continues v

  -- The loop, over what `getopt_long` finds until it returns -1.
  unfoldable pub parse_options : List Parsed → Settings f hwloc → Outcome (Settings f hwloc)
  unfolding handle
  parse_options [] v = continues v
  parse_options (x ∷ xs) v =
      handle (case_of (returned x.found)) x.optarg (store (stored x.found) v) >>= parse_options xs

  -- The variables before the loop. `l1_size` is the size of the cache that `l1_attributes` finds.
  abbrev pub initial : ℕ → Settings f hwloc
  initial l1_size = record {
    policy = one_by_one;
    opt_benchmarks = none;
    opt_pmcs = none;
    iterations = 13;
    size = l1_size;
    fill = literal (codes "0.9");
    time = literal (codes "20");
    output = stdout;
    auto_tune = 0;
    tune = 0;
    use_hyperthreads = 1;
    do_binding = 1;
    cpuset1 = hwloc.empty;
    cpuset2 = hwloc.empty;
    opened = [];
  }
