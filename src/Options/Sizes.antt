-- ===== src/Options/Sizes.antt =====
-- The unit of the argument of `--size`.
use hwvar.Base.{
  ℕ, ◌+◌, ◌*◌, ◌^◌, Option, none, some, List, [], ◌∷◌, ◌≡◌, arith, if◌then◌else◌, ◌==◌, tolower,
}
use hwvar.Options.Values.{failure, Outcome, continues, exits, si_suffix_to_factor}

-- The place of a number in a list.
abbrev pub index_of : ℕ → List ℕ → Option ℕ
index_of x [] = none
index_of x (y ∷ ys) =
    if x == y then some 0 else elim (index_of x ys) [ none ↦ none | some i ↦ some (i + 1) ]

-- The power of 1024 that a unit stands for: none, kilo, mega and giga, in either case.
unfoldable pub power : ℕ → Option ℕ
power unit = index_of (tolower unit) (0 ∷ b'k' ∷ b'm' ∷ b'g' ∷ [])

abbrev pub factor : Option ℕ → Outcome ℕ
factor none = exits failure
factor (some k) = continues (1024 ^ k)

factor-index_of :
    (c : ℕ)
    → (if c == 0
        then continues 1
        else if c == b'k'
        then continues 1024
        else if c == b'm'
        then continues (1024 * 1024)
        else if c == b'g'
        then continues (1024 * 1024 * 1024)
        else exits failure)
      ≡ factor (index_of c (0 ∷ b'k' ∷ b'm' ∷ b'g' ∷ []))
factor-index_of c = ground arith

-- For every character, `si_suffix_to_factor` returns 1024 to the power that the unit stands for, and
-- ends the program for a character that is no unit.
pub si_suffix_to_factor-power : (unit : ℕ) → si_suffix_to_factor unit ≡ factor (power unit)
unfolding si_suffix_to_factor power
si_suffix_to_factor-power unit = factor-index_of (tolower unit)
