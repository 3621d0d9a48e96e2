-- ===== src/Base/Text.antt =====
-- C strings as lists of character codes, and what the program uses of <string.h> and <ctype.h>,
-- in the C locale.
use Prim.Native.Nat.{ℕ, ◌+◌}
use Prim.Native.Char.{code}
use Prim.Native.String.{String}
use mathlib.Core.Path.{◌≡◌, refl, ap}
use mathlib.Core.Bool.{Bool, true, false, ◌&&◌}
use mathlib.Core.List.{List, [], ◌∷◌, map}
use native.Mathlib.Omega.{arith}
use hwvar.Base.Tests.{leb, ◌==◌, if◌then◌else◌}

-- The bytes of an ASCII text.
abbrev pub codes : String → List ℕ
codes String.[] = []
codes (String.◌∷◌ c s) = code c ∷ codes s

abbrev pub is_upper : ℕ → Bool
is_upper c = leb b'A' c && leb c b'Z'

unfoldable pub tolower : ℕ → ℕ
tolower c = if is_upper c then c + 32 else c

-- `strcmp (a, b) == 0`
unfoldable pub streq : List ℕ → List ℕ → Bool
streq [] [] = true
streq (x ∷ xs) (y ∷ ys) = x == y && streq xs ys
streq _ _ = false

-- `strcasecmp (a, b) == 0`
unfoldable pub strcaseeq : List ℕ → List ℕ → Bool
unfolding tolower
strcaseeq [] [] = true
strcaseeq (x ∷ xs) (y ∷ ys) = tolower x == tolower y && strcaseeq xs ys
strcaseeq _ _ = false

pub streq→eq : (a b : List ℕ) → streq a b ≡ true → a ≡ b
unfolding streq
streq→eq [] [] h = refl
streq→eq [] (y ∷ ys) h = cc
streq→eq (x ∷ xs) [] h = cc
streq→eq (x ∷ xs) (y ∷ ys) h = ground (arith, streq→eq xs ys)

pub streq_refl : (a : List ℕ) → streq a a ≡ true
unfolding streq
streq_refl [] = refl
streq_refl (x ∷ xs) = ground (arith, streq_refl xs)

-- The comparison sees only the folded characters.
pub strcaseeq-streq : (a b : List ℕ) → strcaseeq a b ≡ streq (map tolower a) (map tolower b)
unfolding strcaseeq streq
strcaseeq-streq [] [] = refl
strcaseeq-streq [] (y ∷ ys) = refl
strcaseeq-streq (x ∷ xs) [] = refl
strcaseeq-streq (x ∷ xs) (y ∷ ys) = ap (λ b. tolower x == tolower y && b) (strcaseeq-streq xs ys)
