-- ===== src/Options/Examples.antt =====
-- A command line of seven options, of which two speak of the policy, on a machine of two processors.
use native.Mathlib.Nat.{mod-lt}
use hwvar.Base.{
  ℕ, ◌+◌, ◌*◌, ◌/◌, ◌%◌, ◌^◌, Bool, true, false, not, ◌&&◌, ◌||◌, none, some, List, [], ◌∷◌, ◌≡◌,
  refl, arith, if◌then◌else◌, ◌==◌, codes, streq, tolower,
}
use hwvar.Kernel.Defs.{Doubles}
use hwvar.Spawn.{Bitmaps}
use hwvar.Driver.{pair}
use hwvar.Options.Values.{failure, continues, exits, Library, si_suffix_to_factor, file_exists}
use hwvar.Options.Sizes.{power}
use hwvar.Options.Loop.{written, Settings, Parsed, long, short, initial, parse_options}
use hwvar.Options.Said.{opening, openings, last_output, ends, first_exit, combined, unless}
use hwvar.Options.Last.{parse_options-combined}
use hwvar.Options.Cpusets.{Sets, choose_cpus}

abbrev whole : Doubles
whole = record {
  Double = ℕ;
  of_ℕ = λ n. n;
  plus = λ a b. a + b;
  times = λ a b. a * b;
  over = λ a b. a / b;
  pow = λ a b. a ^ b;
  to_u32 = λ a. a % 2 ^ 32;
  to_u32-lt = λ a. mod-lt a (omega arith);
}

-- A set tells of two processors whether they are in it.
abbrev two_cpus : Bitmaps
two_cpus = record {
  Bitmap = Bool × Bool;
  empty = (false, false);
  singlify = λ a. if a.0 then (true, false) else a;
  is_included = λ a b. (not a.0 || b.0) && (not a.1 || b.1);
  first = λ a. if a.0 then some 0 else if a.1 then some 1 else none;
  add = λ a n. if n == 0 then (true, a.1) else (a.0, true);
  weight = λ a. (if a.0 then 1 else 0) + (if a.1 then 1 else 0);
}

abbrev any_streq : List ℕ → List (List ℕ) → Bool
unfolding streq
any_streq name [] = false
any_streq name (n ∷ ns) = streq name n || any_streq name ns

abbrev lib : Library whole two_cpus
lib = record {
  strtoul = λ text.
      if streq text (codes "32k")
      then record { value = 32; rest = codes "k" }
      else record { value = 0; rest = text };
  strtod = λ text. (7, false);
  isnan = λ d. false;
  isinf = λ d. false;
  negative = λ d. false;
  literal = λ text. 1;
  stat = λ opened name. if streq name (codes "old") || any_streq name opened then none else some 2;
  enoent = 2;
  fopen = λ opened name. true;
  list_sscanf = λ text. if streq text (codes "0") then some (true, false) else some (false, true);
  is_zero = λ a. not a.0 && not a.1;
  union = λ a b. (a.0 || b.0, a.1 || b.1);
}

abbrev line : List Parsed
line =
    record { found = short b'p'; optarg = codes "parallel" }
    ∷ record { found = long 7; optarg = codes "32k" }
    ∷ record { found = short b'o'; optarg = codes "new" }
    ∷ record { found = long 10; optarg = [] }
    ∷ record { found = long 5; optarg = codes "0" }
    ∷ record { found = long 6; optarg = codes "1" }
    ∷ record { found = long 0; optarg = codes "pair" }
    ∷ []

abbrev result : Settings whole two_cpus
result = record (initial lib 4096) {
  policy = pair;
  size = 32768;
  output = written (codes "new");
  opened = codes "new" ∷ [];
  tune = 1;
  cpuset1 = (true, false);
  cpuset2 = (false, true);
}

line-result : parse_options lib line (initial lib 4096) ≡ continues result
unfolding parse_options si_suffix_to_factor file_exists streq
line-result = refl

line-combined :
    unless lib (first_exit lib [] line) (combined lib line (initial lib 4096)) ≡ continues result
unfolding first_exit combined power file_exists streq ends tolower openings last_output opening
line-combined = refl

parse_options-combined_example :
    parse_options lib line (initial lib 4096)
    ≡ unless lib (first_exit lib [] line) (combined lib line (initial lib 4096))
parse_options-combined_example = parse_options-combined lib line (initial lib 4096)

abbrev twice : List Parsed
twice =
    record { found = short b'o'; optarg = codes "new" }
    ∷ record { found = long 10; optarg = [] }
    ∷ record { found = short b'o'; optarg = codes "new" }
    ∷ []

twice-exits : parse_options lib twice (initial lib 4096) ≡ exits failure
unfolding parse_options file_exists streq
twice-exits = refl

abbrev chosen : Sets lib
chosen = record { cpuset1 = (true, false); cpuset2 = (false, true); runset = (true, true) }

chosen_sets : choose_cpus lib (true, true) result ≡ continues chosen
unfolding choose_cpus
chosen_sets = refl
