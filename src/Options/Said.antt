-- ===== src/Options/Said.antt =====
-- What an option of the command line says by itself, and what the options say together: the last one
-- that speaks of a variable sets it.
use hwvar.Base.{
  ℕ, ◌*◌, ◌^◌, Bool, true, false, ◌||◌, Option, none, some, List, [], ◌∷◌, if◌then◌else◌, codes,
  streq, u32, u64,
}
use hwvar.Kernel.Defs.{Doubles}
use hwvar.Spawn.{Bitmaps}
use hwvar.Driver.{Policy}
use hwvar.Options.Values.{Exit, success, failure, Outcome, continues, exits, Library, file_exists}
use hwvar.Options.Sizes.{power}
use hwvar.Options.Loop.{
  Output, written, null, Flag, Settings, Parsed, stored, returned, Case, case_1, case_2, case_p,
  case_b, case_i, case_l, case_m, case_o, case_s, case_f, case_t, case_of, policy_named, suffix,
}

-- What overrides, and what is overridden.
abbrev pub or_else {ℓ} : {A : Type ℓ} → Option A → A → A
or_else none a = a
or_else (some b) a = b

abbrev pub or_option {ℓ} : {A : Type ℓ} → Option A → Option A → Option A
or_option none o = o
or_option (some a) o = some a

-- The last of the values that some items have.
unfoldable pub last_of {ℓ κ} : {A : Type ℓ} {B : Type κ} → (A → Option B) → List A → Option B
last_of said [] = none
last_of said (x ∷ xs) = or_option (last_of said xs) (said x)

-- The case that the loop takes.
abbrev pub label : Parsed → Case
label x = case_of (returned x.found)

abbrev pub only : Bool → Exit → Option Exit
only b e = if b then some e else none

abbrev pub is_none {ℓ} : {A : Type ℓ} → Option A → Bool
is_none none = true
is_none (some a) = false

abbrev pub policy_said : Case → List ℕ → Option Policy
policy_said case_p arg = policy_named arg
policy_said _ arg = none

abbrev pub benchmarks_said : Case → List ℕ → Option (Option (List ℕ))
benchmarks_said case_b arg = some (some arg)
benchmarks_said _ arg = none

abbrev pub pmcs_said : Case → List ℕ → Option (Option (List ℕ))
pmcs_said case_m arg = some (some arg)
pmcs_said _ arg = none

abbrev pub flag_said : (Flag → Bool) → Option (Flag × ℕ) → Option ℕ
flag_said is_it none = none
flag_said is_it (some (flag, n)) = if is_it flag then some n else none

abbrev pub is_auto : Flag → Bool
is_auto Flag.auto_tune = true
is_auto _ = false

abbrev pub is_tune : Flag → Bool
is_tune Flag.tune = true
is_tune _ = false

abbrev pub is_hyperthreads : Flag → Bool
is_hyperthreads Flag.use_hyperthreads = true
is_hyperthreads _ = false

abbrev pub is_binding : Flag → Bool
is_binding Flag.do_binding = true
is_binding _ = false

-- The files opened after an option, and after all of them.
unfoldable pub opening : Case → List ℕ → List (List ℕ) → List (List ℕ)
opening case_o arg opened = if streq arg (codes "-") then opened else arg ∷ opened
opening _ arg opened = opened

unfoldable pub openings : List Parsed → List (List ℕ) → List (List ℕ)
unfolding opening
openings [] opened = opened
openings (x ∷ xs) opened = openings xs (opening (label x) x.optarg opened)

module _ {f : Doubles} {hwloc : Bitmaps} (lib : Library f hwloc) where
  open lib use {strtoul, strtod, isnan, isinf, negative, fopen, list_sscanf}

  abbrev pub refused_double : List ℕ → Bool
  refused_double arg =
      let (value, erange) = strtod arg in (erange || isnan value || isinf value) || negative value

  abbrev pub power_of : List ℕ → Option ℕ
  power_of arg = power (suffix (strtoul arg).rest)

  -- Whether an option ends the program, which depends on the files that were opened before and on
  -- nothing else that came before it.
  unfoldable pub ends : List (List ℕ) → Case → List ℕ → Option Exit
  ends opened case_1 arg = only (is_none (list_sscanf arg)) failure
  ends opened case_2 arg = only (is_none (list_sscanf arg)) failure
  ends opened case_p arg = only (is_none (policy_named arg)) failure
  ends opened case_l arg = some success
  ends opened case_o arg =
      if streq arg (codes "-") then none else only (file_exists lib opened arg) failure
  ends opened case_s arg = only (is_none (power_of arg)) failure
  ends opened case_f arg = only (refused_double arg) failure
  ends opened case_t arg = only (refused_double arg) failure
  ends opened _ arg = none

  abbrev pub iterations_said : Case → List ℕ → Option ℕ
  iterations_said case_i arg = some (u32 (strtoul arg).value)
  iterations_said _ arg = none

  unfoldable pub size_said : Case → List ℕ → Option ℕ
  size_said case_s arg = elim (power_of arg) [
    | none ↦ none
    | some k ↦ some (u64 ((strtoul arg).value * 1024 ^ k))
  ]
  size_said _ arg = none

  abbrev pub fill_said : Case → List ℕ → Option f.Double
  fill_said case_f arg = some (strtod arg).0
  fill_said _ arg = none

  abbrev pub time_said : Case → List ℕ → Option f.Double
  time_said case_t arg = some (strtod arg).0
  time_said _ arg = none

  unfoldable pub output_said : List (List ℕ) → Case → List ℕ → Option Output
  output_said opened case_o arg =
      if streq arg (codes "-") then none else some (if fopen opened arg then written arg else null)
  output_said opened _ arg = none

  abbrev pub set1_said : Case → List ℕ → Option hwloc.Bitmap
  set1_said case_1 arg = list_sscanf arg
  set1_said _ arg = none

  abbrev pub set2_said : Case → List ℕ → Option hwloc.Bitmap
  set2_said case_2 arg = list_sscanf arg
  set2_said _ arg = none

  -- The first exit, where the files `opened` have been opened before.
  unfoldable pub first_exit : List (List ℕ) → List Parsed → Option Exit
  first_exit opened [] = none
  first_exit opened (x ∷ xs) =
      or_option (ends opened (label x) x.optarg) (first_exit (opening (label x) x.optarg opened) xs)

  -- The last output.
  unfoldable pub last_output : List (List ℕ) → List Parsed → Option Output
  unfolding output_said
  last_output opened [] = none
  last_output opened (x ∷ xs) =
      or_option (last_output (opening (label x) x.optarg opened) xs)
        (output_said opened (label x) x.optarg)

  -- The last that the options say by a function of the case and the argument.
  unfoldable pub said {ℓ} : {A : Type ℓ} → (Case → List ℕ → Option A) → List Parsed → Option A
  unfolding last_of
  said g xs = last_of (λ x. g (label x) x.optarg) xs

  unfoldable pub flagged : (Flag → Bool) → List Parsed → Option ℕ
  unfolding last_of
  flagged is_it xs = last_of (λ x. flag_said is_it (stored x.found)) xs

  -- The variables that the options leave, where none ends the program.
  unfoldable pub combined : List Parsed → Settings f hwloc → Settings f hwloc
  unfolding said flagged size_said last_output openings
  combined xs v = record {
    policy = or_else (said policy_said xs) v.policy;
    opt_benchmarks = or_else (said benchmarks_said xs) v.opt_benchmarks;
    opt_pmcs = or_else (said pmcs_said xs) v.opt_pmcs;
    iterations = or_else (said iterations_said xs) v.iterations;
    size = or_else (said size_said xs) v.size;
    fill = or_else (said fill_said xs) v.fill;
    time = or_else (said time_said xs) v.time;
    output = or_else (last_output v.opened xs) v.output;
    auto_tune = or_else (flagged is_auto xs) v.auto_tune;
    tune = or_else (flagged is_tune xs) v.tune;
    use_hyperthreads = or_else (flagged is_hyperthreads xs) v.use_hyperthreads;
    do_binding = or_else (flagged is_binding xs) v.do_binding;
    cpuset1 = or_else (said set1_said xs) v.cpuset1;
    cpuset2 = or_else (said set2_said xs) v.cpuset2;
    opened = openings xs v.opened;
  }

  -- The first exit, if there is one, and else the variables.
  abbrev pub unless : Option Exit → Settings f hwloc → Outcome (Settings f hwloc)
  unless none v = continues v
  unless (some e) v = exits e
