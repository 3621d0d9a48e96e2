-- ===== src/Options/Values.antt =====
-- `si_suffix_to_factor`, `parse_double` and `file_exists` of src/main.cc.
use hwvar.Base.{
  ℕ, ◌*◌, Bool, true, not, ◌&&◌, ◌||◌, Option, none, some, List, if◌then◌else◌, ◌==◌, tolower,
}
use hwvar.Kernel.Defs.{Doubles}
use hwvar.Spawn.{Bitmaps}

-- EXIT_SUCCESS and EXIT_FAILURE
pub data Exit : Type 0 where
  success failure : Exit

-- A part of `main` goes on with a value, or ends the program: by `exit`, or by a failed assertion.
pub data Outcome {ℓ} (A : Type ℓ) : Type ℓ where
  continues : A → Outcome A
  exits : Exit → Outcome A
  failed_assert : Outcome A

infixl 5 ◌>>=◌
abbrev pub ◌>>=◌ {ℓ κ} : {A : Type ℓ} {B : Type κ} → Outcome A → (A → Outcome B) → Outcome B
continues a >>= f = f a
exits e >>= f = exits e
failed_assert >>= f = failed_assert

-- What `strtoul` makes of a text: the number and the text after it. `errno` only decides on a message.
pub record Number : Type 0 where
  pub value : ℕ
  pub rest : List ℕ

-- What `main` uses of the C library, beside floating-point numbers and hwloc's bitmaps. `stat` is the
-- error, and `none` on success; `fopen` tells whether the file opens for writing. Both depend on the
-- files that the program has had `fopen` open before, the last one first, since that creates files.
-- `list_sscanf` is `none` for a negative result.
pub record Library (f : Doubles) (hwloc : Bitmaps) : Type 0 where
  pub strtoul : List ℕ → Number
  pub strtod : List ℕ → f.Double × Bool
  pub isnan : f.Double → Bool
  pub isinf : f.Double → Bool
  pub negative : f.Double → Bool
  pub literal : List ℕ → f.Double
  pub stat : List (List ℕ) → List ℕ → Option ℕ
  pub enoent : ℕ
  pub fopen : List (List ℕ) → List ℕ → Bool
  pub list_sscanf : List ℕ → Option hwloc.Bitmap
  pub is_zero : hwloc.Bitmap → Bool
  pub union : hwloc.Bitmap → hwloc.Bitmap → hwloc.Bitmap

unfoldable pub si_suffix_to_factor : ℕ → Outcome ℕ
unfolding tolower
si_suffix_to_factor suffix =
    let c = tolower suffix in
    if c == 0
    then continues 1
    else if c == b'k'
    then continues 1024
    else if c == b'm'
    then continues (1024 * 1024)
    else if c == b'g'
    then continues (1024 * 1024 * 1024)
    else exits failure

module _ {f : Doubles} {hwloc : Bitmaps} (lib : Library f hwloc) where
  open lib use {strtod, isnan, isinf, negative, stat, enoent}

  abbrev pub parse_double : List ℕ → Bool → Outcome f.Double
  parse_double optarg positive =
      let (value, erange) = strtod optarg in
      if erange || isnan value || isinf value
      then exits failure
      else if positive && negative value
      then exits failure
      else continues value

  unfoldable pub file_exists : List (List ℕ) → List ℕ → Bool
  file_exists opened name = elim (stat opened name) [
    | none ↦ true
    | some errno ↦ not (errno == enoent)
  ]
