-- ===== src/Options/Last.antt =====
-- That the loop over the options comes to what the options say together.
use hwvar.Base.{
  ℕ, ◌*◌, ◌^◌, Bool, true, false, ◌||◌, Option, none, some, List, [], ◌∷◌, ◌≡◌, refl, ap, sym, ◌∙◌,
  if◌then◌else◌, codes, streq, u64,
}
use hwvar.Kernel.Defs.{Doubles}
use hwvar.Spawn.{Bitmaps}
use hwvar.Driver.{Policy}
use hwvar.Options.Values.{Exit, failure, Outcome, continues, exits, ◌>>=◌, Library, file_exists}
use hwvar.Options.Sizes.{factor, si_suffix_to_factor-power}
use hwvar.Options.Loop.{
  Output, written, null, Flag, Settings, Parsed, stored, Case, case_1, case_2, case_p, case_b,
  case_i, case_l, case_m, case_o, case_s, case_f, case_t, no_case, policy_named, suffix, store,
  handle, parse_options,
}
use hwvar.Options.Said.{
  or_else, or_option, last_of, label, only, is_none, policy_said, benchmarks_said, pmcs_said,
  flag_said, is_auto, is_tune, is_hyperthreads, is_binding, power_of, ends, iterations_said,
  size_said, fill_said, time_said, output_said, opening, openings, last_output, set1_said,
  set2_said, first_exit, said, flagged, combined, unless,
}

or_else-or_option {ℓ} :
    {A : Type ℓ} (o p : Option A) (a : A) → or_else (or_option o p) a ≡ or_else o (or_else p a)
or_else-or_option none p a = refl
or_else-or_option (some b) p a = refl

module _ {f : Doubles} {hwloc : Bitmaps} (lib : Library f hwloc) where
  open lib use {strtoul, strtod, isnan, isinf, negative, fopen, list_sscanf}

  -- The variables after one option that does not end the program.
  unfoldable pub change : Case → List ℕ → Option (Flag × ℕ) → Settings f hwloc → Settings f hwloc
  unfolding size_said output_said opening
  change c arg flag v = record {
    policy = or_else (policy_said c arg) v.policy;
    opt_benchmarks = or_else (benchmarks_said c arg) v.opt_benchmarks;
    opt_pmcs = or_else (pmcs_said c arg) v.opt_pmcs;
    iterations = or_else (iterations_said lib c arg) v.iterations;
    size = or_else (size_said lib c arg) v.size;
    fill = or_else (fill_said lib c arg) v.fill;
    time = or_else (time_said lib c arg) v.time;
    output = or_else (output_said lib v.opened c arg) v.output;
    auto_tune = or_else (flag_said is_auto flag) v.auto_tune;
    tune = or_else (flag_said is_tune flag) v.tune;
    use_hyperthreads = or_else (flag_said is_hyperthreads flag) v.use_hyperthreads;
    do_binding = or_else (flag_said is_binding flag) v.do_binding;
    cpuset1 = or_else (set1_said lib c arg) v.cpuset1;
    cpuset2 = or_else (set2_said lib c arg) v.cpuset2;
    opened = opening c arg v.opened;
  }

  store-change :
      (flag : Option (Flag × ℕ)) (v : Settings f hwloc)
      → store lib flag v ≡ change no_case [] flag v
  unfolding change size_said output_said opening
  store-change none v = refl
  store-change (some (Flag.tune, n)) v = refl
  store-change (some (Flag.auto_tune, n)) v = refl
  store-change (some (Flag.use_hyperthreads, n)) v = refl
  store-change (some (Flag.do_binding, n)) v = refl

  -- Each kind of option, by the answers of the library.
  parsed_set1 :
      (o : Option hwloc.Bitmap) (v : Settings f hwloc)
      → elim o [ none ↦ exits failure | some set ↦ continues (record v { cpuset1 = set }) ]
        ≡ unless lib (only (is_none o) failure) (record v { cpuset1 = or_else o v.cpuset1 })
  parsed_set1 none v = refl
  parsed_set1 (some set) v = refl

  parsed_set2 :
      (o : Option hwloc.Bitmap) (v : Settings f hwloc)
      → elim o [ none ↦ exits failure | some set ↦ continues (record v { cpuset2 = set }) ]
        ≡ unless lib (only (is_none o) failure) (record v { cpuset2 = or_else o v.cpuset2 })
  parsed_set2 none v = refl
  parsed_set2 (some set) v = refl

  parsed_policy :
      (o : Option Policy) (v : Settings f hwloc)
      → elim o [ none ↦ exits failure | some named ↦ continues (record v { policy = named }) ]
        ≡ unless lib (only (is_none o) failure) (record v { policy = or_else o v.policy })
  parsed_policy none v = refl
  parsed_policy (some named) v = refl

  parsed_output :
      (same exists : Bool) (out : Output) (arg : List ℕ) (v : Settings f hwloc)
      → (if same
          then continues v
          else if exists
          then exits failure
          else continues (record v { output = out; opened = arg ∷ v.opened }))
        ≡ unless lib (if same then none else only exists failure) (record v {
          output = or_else (if same then none else some out) v.output;
          opened = if same then v.opened else arg ∷ v.opened;
        })
  parsed_output true exists out arg v = refl
  parsed_output false true out arg v = refl
  parsed_output false false out arg v = refl

  parsed_size :
      (o : Option ℕ) (n : ℕ) (v : Settings f hwloc)
      → (factor o >>= λ k. continues (record v { size = u64 (n * k) }))
        ≡ unless lib (only (is_none o) failure) (record v {
          size = or_else (elim o [ none ↦ none | some k ↦ some (u64 (n * 1024 ^ k)) ]) v.size;
        })
  parsed_size none n v = refl
  parsed_size (some k) n v = refl

  parsed_double :
      (b c : Bool) (d : f.Double) (go : f.Double → Settings f hwloc)
      → ((if b then exits failure else if c then exits failure else continues d) >>= λ value.
          continues (go value))
        ≡ unless lib (only (b || c) failure) (go d)
  parsed_double true c d go = refl
  parsed_double false true d go = refl
  parsed_double false false d go = refl

  pub handle-change :
      (c : Case) (arg : List ℕ) (v : Settings f hwloc)
      → handle lib c arg v ≡ unless lib (ends lib v.opened c arg) (change c arg none v)
  unfolding handle change ends size_said output_said opening
  handle-change case_1 arg v = parsed_set1 (list_sscanf arg) v
  handle-change case_2 arg v = parsed_set2 (list_sscanf arg) v
  handle-change case_p arg v = parsed_policy (policy_named arg) v
  handle-change case_b arg v = refl
  handle-change case_i arg v = refl
  handle-change case_l arg v = refl
  handle-change case_m arg v = refl
  handle-change case_o arg v =
      parsed_output (streq arg (codes "-")) (file_exists lib v.opened arg)
        (if fopen v.opened arg then written arg else null) arg v
  handle-change case_s arg v =
      let tmp = strtoul arg in
      ap (λ (o : Outcome ℕ). o >>= λ n. continues (record v { size = u64 (tmp.value * n) }))
        (si_suffix_to_factor-power (suffix tmp.rest))
      ∙ parsed_size (power_of lib arg) tmp.value v
  handle-change case_f arg v =
      let (value, erange) = strtod arg in
      parsed_double (erange || isnan value || isinf value) (negative value) value
        (λ d. record v { fill = d })
  handle-change case_t arg v =
      let (value, erange) = strtod arg in
      parsed_double (erange || isnan value || isinf value) (negative value) value
        (λ d. record v { time = d })
  handle-change no_case arg v = refl

  -- One round of the loop.
  one_option :
      (x : Parsed) (v : Settings f hwloc)
      → handle lib (label x) x.optarg (store lib (stored x.found) v)
        ≡ unless lib
            (ends lib v.opened (label x) x.optarg)
            (change (label x) x.optarg (stored x.found) v)
  unfolding change opening
  one_option x v =
      handle-change (label x) x.optarg (store lib (stored x.found) v)
      ∙ ap
          (λ w.
            unless lib (ends lib w.opened (label x) x.optarg) (change (label x) x.optarg none w))
          (store-change (stored x.found) v)

  -- One more option in front changes the variables first.
  combined-cons :
      (x : Parsed) (xs : List Parsed) (v : Settings f hwloc)
      → combined lib (x ∷ xs) v ≡ combined lib xs (change (label x) x.optarg (stored x.found) v)
  unfolding combined change said flagged last_of last_output openings
  combined-cons x xs v = λ i. record {
    policy =
        or_else-or_option (said lib policy_said xs) (policy_said (label x) x.optarg) v.policy i;
    opt_benchmarks =
        or_else-or_option (said lib benchmarks_said xs) (benchmarks_said (label x) x.optarg)
          v.opt_benchmarks i;
    opt_pmcs =
        or_else-or_option (said lib pmcs_said xs) (pmcs_said (label x) x.optarg) v.opt_pmcs i;
    iterations =
        or_else-or_option (said lib (iterations_said lib) xs)
          (iterations_said lib (label x) x.optarg) v.iterations i;
    size =
        or_else-or_option (said lib (size_said lib) xs) (size_said lib (label x) x.optarg) v.size i;
    fill =
        or_else-or_option (said lib (fill_said lib) xs) (fill_said lib (label x) x.optarg) v.fill i;
    time =
        or_else-or_option (said lib (time_said lib) xs) (time_said lib (label x) x.optarg) v.time i;
    output =
        or_else-or_option (last_output lib (opening (label x) x.optarg v.opened) xs)
          (output_said lib v.opened (label x) x.optarg) v.output i;
    auto_tune =
        or_else-or_option (flagged lib is_auto xs) (flag_said is_auto (stored x.found)) v.auto_tune
          i;
    tune = or_else-or_option (flagged lib is_tune xs) (flag_said is_tune (stored x.found)) v.tune i;
    use_hyperthreads =
        or_else-or_option (flagged lib is_hyperthreads xs)
          (flag_said is_hyperthreads (stored x.found)) v.use_hyperthreads i;
    do_binding =
        or_else-or_option (flagged lib is_binding xs) (flag_said is_binding (stored x.found))
          v.do_binding i;
    cpuset1 =
        or_else-or_option (said lib (set1_said lib) xs) (set1_said lib (label x) x.optarg) v.cpuset1
          i;
    cpuset2 =
        or_else-or_option (said lib (set2_said lib) xs) (set2_said lib (label x) x.optarg) v.cpuset2
          i;
    opened = openings xs (opening (label x) x.optarg v.opened);
  }

  after_one :
      (x : Parsed) (xs : List Parsed) (v : Settings f hwloc)
      → let w = change (label x) x.optarg (stored x.found) v in
        parse_options lib xs w ≡ unless lib (first_exit lib w.opened xs) (combined lib xs w)
        → (o : Option Exit)
        → (unless lib o w >>= parse_options lib xs)
          ≡ unless lib (or_option o (first_exit lib w.opened xs)) (combined lib (x ∷ xs) v)
  unfolding change
  after_one x xs v rest none =
      rest
      ∙ ap (unless lib (first_exit lib (opening (label x) x.optarg v.opened) xs))
          (sym (combined-cons x xs v))
  after_one x xs v rest (some e) = refl

  -- For every command line: if an option ends the program, the loop ends it as the first such option
  -- says, where a file exists for an option as it does after the options before it have opened theirs. Otherwise the loop leaves each variable as the last option that speaks of it says, and as it
  -- was if there is none, in whatever order the options of other kinds stand.
  pub parse_options-combined :
      (xs : List Parsed) (v : Settings f hwloc)
      → parse_options lib xs v ≡ unless lib (first_exit lib v.opened xs) (combined lib xs v)
  unfolding parse_options first_exit combined said flagged last_of last_output openings change
  parse_options-combined [] v = refl
  parse_options-combined (x ∷ xs) v =
      ap (λ (o : Outcome (Settings f hwloc)). o >>= parse_options lib xs) (one_option x v)
      ∙ after_one x xs v (parse_options-combined xs (change (label x) x.optarg (stored x.found) v))
          (ends lib v.opened (label x) x.optarg)
