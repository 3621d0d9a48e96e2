-- ===== src/Timestamp/Halves.antt =====
-- The two halves of a time stamp make the counter that they were read from.
use mathlib.Core.Path.{subst}
use Prim.Native.Nat.{digits, max, bit_or-bitwise}
use native.Mathlib.Numerals.{unary_clauses}
use hwvar.Base.{
  ℕ, zero, suc, ◌+◌, ◌*◌, ◌/◌, ◌%◌, ◌^◌, ◌≤◌, ◌<◌, some, ◌≡◌, refl, ap, ap₂, sym, ◌∙◌, arith, ◌==◌,
  u64, sub64, ◌⊎◌, true, false, if_then, if_else, inl, inr, Bool-cases,
}
use hwvar.Timestamp.{upper, lower, joined, arch_timestamp_begin, arch_timestamp_end, read_timebase}

pow_suc : (w : ℕ) → 2 ^ suc w ≡ 2 * 2 ^ w
pow_suc w = simp unary_clauses (omega arith)

abbrev or_digits : ℕ → ℕ → ℕ → ℕ
or_digits = digits (λ b. b) max

or_digits-zero : (n a : ℕ) → a ≤ n → or_digits n a 0 ≡ a
or_digits-zero zero a l = omega arith
or_digits-zero (suc n) zero l = refl
or_digits-zero (suc n) (suc a) l =
    let rest = or_digits-zero n (suc a / 2) (omega arith) in omega (arith, rest)

shift_suc : (h k : ℕ) → h * 2 ^ suc k ≡ 2 * (h * 2 ^ k)
shift_suc h k = ap (λ p. h * p) (pow_suc k) ∙ grind arith

-- A word of at most `k` bits fills the `k` zeros at the end of another.
or_digits-shift : (n k h a l : ℕ) → a ≡ h * 2 ^ k → l < 2 ^ k → a ≤ n → or_digits n a l ≡ a + l
or_digits-shift n zero h a l shifted small fuel =
    let none_left : l ≡ 0 = omega arith in rw none_left (or_digits-zero n a fuel ∙ omega arith)
or_digits-shift zero (suc k) h a l shifted small fuel = omega arith
or_digits-shift (suc n) (suc k) h zero l shifted small fuel = omega arith
or_digits-shift (suc n) (suc k) h (suc a) l shifted small fuel =
    let twice : suc a ≡ 2 * (h * 2 ^ k) = shifted ∙ shift_suc h k in
    let rest =
      or_digits-shift n k h (suc a / 2) (l / 2) (omega (arith, twice)) (omega (arith, pow_suc k))
        (omega (arith, twice)) in
    let even : suc a % 2 ≡ 0 = omega (arith, twice) in rw even (omega (arith, rest, twice))

joined-halves : (t : ℕ) → t < 2 ^ 64 → joined (upper t) (lower t) ≡ t
unfolding joined
joined-halves t l =
    let same : u64 (upper t * 2 ^ 32) ≡ upper t * 2 ^ 32 = omega arith in
    let whole =
      or_digits-shift (upper t * 2 ^ 32) 32 (upper t) (upper t * 2 ^ 32) (lower t) refl
        (omega arith) (omega arith) in
    rw same (bit_or-bitwise (upper t * 2 ^ 32) (lower t) ∙ whole ∙ omega arith)

-- On x86_64, where the time stamp counter has counted `cycles` cycles of the processor, less than
-- 2 ^ 64, between two time stamps, the difference that `worker` stores is their number, though the
-- counter may have started again from 0 in between.
pub arch_timestamp_end-begin :
    (since cycles : ℕ)
    → cycles < 2 ^ 64
    → sub64 (arch_timestamp_end (u64 (since + cycles))) (arch_timestamp_begin (u64 since)) ≡ cycles
unfolding arch_timestamp_begin arch_timestamp_end
arch_timestamp_end-begin since cycles l =
    ap₂ sub64 (joined-halves (u64 (since + cycles)) (omega arith))
      (joined-halves (u64 since) (omega arith))
    ∙ omega arith

same_upper : (t0 t1 t2 : ℕ) → t0 ≤ t1 → t1 ≤ t2 → upper t0 ≡ upper t2 → upper t0 ≡ upper t1
same_upper t0 t1 t2 l m e = omega arith

-- A time base that advances by less than 2 ^ 32 carries into its upper half at most once.
one_carry :
    (t0 t1 t2 t3 : ℕ)
    → t0 ≤ t1
    → t1 ≤ t2
    → t2 ≤ t3
    → t3 < t0 + 2 ^ 32
    → (upper t0 == upper t1) ≡ false
    → (upper t2 == upper t3) ≡ true
one_carry t0 t1 t2 t3 l m n near differ = ground arith

equal : {a b : ℕ} → (a == b) ≡ true → a ≡ b
equal e = ground arith

plus : (a b c : ℕ) → a + (b + c) ≡ a + b + c
plus a b c = omega arith

module _ (timebase : ℕ → ℕ) (word : (n : ℕ) → timebase n < 2 ^ 64)
    (on : (m n : ℕ) → m ≤ n → timebase m ≤ timebase n) where
  -- A round that finds the same upper half twice has read one moment of the time base.
  round-joined :
      (at : ℕ)
      → upper (timebase at) ≡ upper (timebase (at + 2))
      → joined (upper (timebase at)) (lower (timebase (at + 1))) ≡ timebase (at + 1)
  round-joined at e =
      let same =
        same_upper (timebase at) (timebase (at + 1)) (timebase (at + 2))
          (on at (at + 1) (omega arith)) (on (at + 1) (at + 2) (omega arith)) e in
      rw same (joined-halves (timebase (at + 1)) (word (at + 1)))

  round_ends :
      (left at : ℕ)
      → (upper (timebase at) == upper (timebase (at + 2))) ≡ true
      → read_timebase timebase (suc left) at ≡ some (timebase (at + 1))
  unfolding read_timebase
  round_ends left at e = if_then _ e ∙ ap some (round-joined at (equal e))

  round_again :
      (left at : ℕ)
      → (upper (timebase at) == upper (timebase (at + 2))) ≡ false
      → read_timebase timebase (suc left) at ≡ read_timebase timebase left (at + 3)
  unfolding read_timebase
  round_again left at ne = if_else _ ne

  -- Where the time base has 64 bits, does not go back and advances by less than 2 ^ 32 in any six
  -- reads of the loop, `read_timebase` ends after at most two rounds, with what the time base was at
  -- one of its reads, though the halves are read one after the other.
  pub read_timebase-now :
      (left at : ℕ)
      → ((n : ℕ) → timebase (n + 5) < timebase n + 2 ^ 32)
      → 2 ≤ left
      → (read_timebase timebase left at ≡ some (timebase (at + 1)))
        ⊎ (read_timebase timebase left at ≡ some (timebase (at + 4)))
  read_timebase-now zero at slow enough = absurd (omega arith)
  read_timebase-now (suc zero) at slow enough = absurd (omega arith)
  read_timebase-now (suc (suc left)) at slow enough =
      elim (Bool-cases (upper (timebase at) == upper (timebase (at + 2)))) [
        | inl e ↦ inl (round_ends (suc left) at e)
        | inr differ ↦
            let e =
              one_carry (timebase at) (timebase (at + 2)) (timebase (at + 3))
                (timebase (at + 3 + 2)) (on at (at + 2) (omega arith))
                (on (at + 2) (at + 3) (omega arith)) (on (at + 3) (at + 3 + 2) (omega arith))
                (subst (λ n. timebase n < timebase at + 2 ^ 32) (plus at 3 2) (slow at)) differ in
            inr (
              round_again (suc left) at differ
              ∙ round_ends left (at + 3) e
              ∙ ap (λ n. some (timebase n)) (sym (plus at 3 1)))
      ]
