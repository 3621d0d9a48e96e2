-- ===== src/Selection/Names.antt =====
-- The names in a list that is separated by commas, written without `strtok`, and that `strtok`
-- gives them.
use hwvar.Base.{
  ℕ, ◌+◌, ◌^◌, ◌≤◌, ◌<◌, Option, none, some, List, [], ◌∷◌, ◌≡◌, refl, ◌∙◌, if◌then◌else◌, ◌==◌,
  arith, length, Bool-cases, inl, inr,
}
use native.Mathlib.Nat.{mod-eq_of_lt}
use hwvar.Selection.{Token, longer, span, strtok, count_loop}

-- What stands between the commas.
abbrev pub extend : ℕ → List (List ℕ) → List (List ℕ)
extend x [] = (x ∷ []) ∷ []
extend x (f ∷ fs) = (x ∷ f) ∷ fs

unfoldable pub fields : List ℕ → List (List ℕ)
fields [] = [] ∷ []
fields (x ∷ xs) = if x == b',' then [] ∷ fields xs else extend x (fields xs)

unfoldable pub drop_empty : List (List ℕ) → List (List ℕ)
drop_empty [] = []
drop_empty ([] ∷ fs) = drop_empty fs
drop_empty ((x ∷ f) ∷ fs) = (x ∷ f) ∷ drop_empty fs

unfoldable pub names : List ℕ → List (List ℕ)
unfolding fields drop_empty
names s = drop_empty (fields s)

-- The first field is the span; the others have the names of what follows it.
record Split (s : List ℕ) : Type 0 where
  later : List (List ℕ)
  parts : fields s ≡ (span s).text ∷ later
  same : drop_empty later ≡ names (span s).rest
  shorter : length (span s).rest ≤ length s

fields-Split : (s : List ℕ) → Split s
unfolding fields span names drop_empty
fields-Split [] = record { later = []; parts = refl; same = refl; shorter = omega arith }
fields-Split (x ∷ xs) = elim (Bool-cases (x == b',')) [
  | inl e ↦ record {
    later = fields xs;
    parts = rw (e) refl;
    same = rw (e) refl;
    shorter = rw (e) (omega arith);
  }
  | inr e ↦
      let r = fields-Split xs in
      record {
        later = r.later;
        parts = rw (e, r.parts) refl;
        same = rw (e) r.same;
        shorter = rw (e) (omega (arith, r.shorter));
      }
]

-- What a call of `strtok` gives: nothing when no name is left, or else the first name, and a rest
-- that is shorter and has the other names.
pub data Taken (s : List ℕ) : Option Token → Type 0 where
  over : names s ≡ [] → Taken s none
  token :
      (t : Token) → names s ≡ t.text ∷ names t.rest → length t.rest < length s → Taken s (some t)

Taken-comma :
    (x : ℕ) (xs : List ℕ) (o : Option Token)
    → names (x ∷ xs) ≡ names xs
    → Taken xs o
    → Taken (x ∷ xs) o
Taken-comma x xs none same (over e) = over (same ∙ e)
Taken-comma x xs (some t) same (token _ e h) = token t (same ∙ e) (omega arith)

pub strtok-Taken : (s : List ℕ) → Taken s (strtok s)
unfolding strtok names fields drop_empty span
strtok-Taken [] = over refl
strtok-Taken (x ∷ xs) = elim (Bool-cases (x == b',')) [
  | inl e ↦ rw (e) (Taken-comma x xs (strtok xs) (rw (e) refl) (strtok-Taken xs))
  | inr e ↦
      let r = fields-Split xs in
      let first : names (x ∷ xs) ≡ (x ∷ (span xs).text) ∷ names (span xs).rest =
        rw (e, r.parts, r.same) refl in
      rw (e) (token (longer x (span xs)) first (omega (arith, r.shorter)))
]

length-drop_empty : (fs : List (List ℕ)) → length (drop_empty fs) ≤ length fs
unfolding drop_empty
length-drop_empty [] = omega arith
length-drop_empty ([] ∷ fs) = omega (arith, length-drop_empty fs)
length-drop_empty ((x ∷ f) ∷ fs) = omega (arith, length-drop_empty fs)

length-extend : (x : ℕ) (s : List ℕ) → length (extend x (fields s)) ≡ length (fields s)
unfolding span
length-extend x s = rw ((fields-Split s).parts) refl

-- There is a field more than there are commas.
pub count_loop-fields :
    (s : List ℕ) (chars : ℕ)
    → chars + length s < 2 ^ 32
    → chars + length (fields s) ≡ count_loop s b',' chars + 1
unfolding count_loop fields
count_loop-fields [] chars h = omega arith
count_loop-fields (x ∷ xs) chars h = elim (Bool-cases (x == b',')) [
  | inl e ↦
      rw (e, mod-eq_of_lt {n = chars + 1} {m = 2 ^ 32} (omega arith))
        (omega (arith, count_loop-fields xs (chars + 1) (omega arith)))
  | inr e ↦ rw (e, length-extend x xs) (count_loop-fields xs chars (omega arith))
]

-- So there is room for every name.
pub length-names : (s : List ℕ) → length s < 2 ^ 32 → length (names s) ≤ count_loop s b',' 0 + 1
unfolding names
length-names s h = omega (arith, length-drop_empty (fields s), count_loop-fields s 0 (omega arith))

length-fields : (s : List ℕ) → length (fields s) ≤ length s + 1
unfolding fields
length-fields [] = omega arith
length-fields (x ∷ xs) = elim (Bool-cases (x == b',')) [
  | inl e ↦ rw (e) (omega (arith, length-fields xs))
  | inr e ↦ rw (e, length-extend x xs) (omega (arith, length-fields xs))
]

-- The count does not wrap.
pub commas-le : (s : List ℕ) → length s < 2 ^ 32 → count_loop s b',' 0 ≤ length s
commas-le s h = omega (arith, length-fields s, count_loop-fields s 0 (omega arith))
