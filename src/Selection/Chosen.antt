-- ===== src/Selection/Chosen.antt =====
-- The loops of the selection, against the names in their argument.
use mathlib.Core.Path.{subst}
use native.Mathlib.Nat.{mod-eq_of_lt}
use mathlib.Core.List.{map-append, append-nil, append_assoc}
use hwvar.Base.{
  ℕ, zero, suc, ◌+◌, ◌^◌, ◌≤◌, ◌<◌, Option, none, some, List, [], ◌∷◌, ◌++◌, ◌≡◌, refl, ap, sym,
  ◌∙◌, arith, length, map, take, set, replicate, u32, sub32, if_then, lt→ltb, take-set_next,
  take-set_self, length-set, length-append, length-replicate, Option-cases, inl, inr,
}
use hwvar.Benchmark.{Benchmark}
use hwvar.Registry.{get_benchmark_name}
use hwvar.Selection.{
  Token, Selected, strtok, select_loop, select_benchmarks, count_chars, count_loop,
}
use hwvar.Selection.Names.{names, Taken, over, token, strtok-Taken, length-names, commas-le}

-- The benchmarks that some names name, without those that name none.
unfoldable pub known : List (List ℕ) → List Benchmark
known [] = []
known (n ∷ ns) = elim (get_benchmark_name n) [ none ↦ known ns | some b ↦ b ∷ known ns ]

known-unknown :
    (n : List ℕ) (ns : List (List ℕ)) → get_benchmark_name n ≡ none → known (n ∷ ns) ≡ known ns
unfolding known
known-unknown n ns miss = rw (known, miss) refl

known-known :
    (n : List ℕ) (ns : List (List ℕ)) (b : Benchmark)
    → get_benchmark_name n ≡ some b
    → known (n ∷ ns) ≡ b ∷ known ns
unfolding known
known-known n ns b hit = rw (known, hit) refl

-- What is in an array whose first entries hold the benchmarks `bs`.
pub record Holds (bs : List Benchmark) (s : Selected) : Type 0 where
  pub number : s.count ≡ length bs
  pub entries : take s.count s.slots ≡ map some bs

-- One round with a name that is known: the entry is written and counted.
kept-Holds :
    (i : ℕ) (slots : List (Option Benchmark)) (bs : List Benchmark) (b : Benchmark)
    → i < length slots
    → length slots < 2 ^ 32
    → Holds bs (record { count = i; slots = slots })
    → Holds (bs ++ b ∷ []) (record { count = u32 (i + 1); slots = set slots i (some b) })
kept-Holds i slots bs b room small h =
    let wrap : u32 (i + 1) ≡ suc i = grind arith in
    record {
      number = wrap ∙ grind (arith, length-append bs (b ∷ []));
      entries =
          rw (wrap, take-set_next slots i (some b) room, h.entries)
            (sym (map-append some bs (b ∷ [])));
    }

-- One round with a name that is not: the entry is free again.
skipped-Holds :
    (i : ℕ) (slots : List (Option Benchmark)) (bs : List Benchmark)
    → i < length slots
    → length slots < 2 ^ 32
    → Holds bs (record { count = i; slots = slots })
    → Holds bs (record { count = u32 (sub32 i 1 + 1); slots = set slots i none })
skipped-Holds i slots bs room small h =
    let wrap : u32 (sub32 i 1 + 1) ≡ i = grind arith in
    record { number = wrap ∙ h.number; entries = rw (wrap, take-set_self slots i none) h.entries }

select_loop-Holds :
    (fuel : ℕ) (s : List ℕ) (i num : ℕ) (slots : List (Option Benchmark)) (bs : List Benchmark)
    → length s < fuel
    → num ≡ length slots
    → num < 2 ^ 32
    → length bs + length (names s) ≤ num
    → Holds bs (record { count = i; slots = slots })
    → (o : Option Token) → Taken s o
    → (r : Selected) × (select_loop fuel o i num slots ≡ some r) × Holds (bs ++ known (names s)) r
unfolding select_loop known
select_loop-Holds zero s i num slots bs fueled same small room h o taken = absurd (omega arith)
select_loop-Holds (suc fuel) s i num slots bs fueled same small room h none (over e) =
    (record { count = i; slots = slots }, refl, rw (e, append-nil bs) h)
select_loop-Holds (suc fuel) s i num slots bs fueled same small room h (some t)
      (token _ e shorter) =
    let more : length (names s) ≡ suc (length (names t.rest)) = ap length e in
    let inside : i < length slots = grind (arith, h.number) in
    let within : i < num = omega arith in
    elim (Option-cases (get_benchmark_name t.text)) [
      | inl miss ↦
          let (r, run, held) =
            select_loop-Holds fuel t.rest (u32 (sub32 i 1 + 1)) num (set slots i none) bs
              (omega arith) (same ∙ sym (length-set slots i none)) small (grind arith)
              (skipped-Holds i slots bs inside (omega arith) h) (strtok t.rest)
              (strtok-Taken t.rest) in
          (
            r,
            rw (miss) (if_then _ (lt→ltb i num within) ∙ run),
            subst (λ ns. Holds (bs ++ ns) r)
                (sym (ap known e ∙ known-unknown t.text (names t.rest) miss)) held,
          )
      | inr (b, hit) ↦
          let (r, run, held) =
            select_loop-Holds fuel t.rest (u32 (i + 1)) num (set slots i (some b)) (bs ++ b ∷ [])
              (omega arith) (same ∙ sym (length-set slots i (some b))) small
              (grind (arith, length-append bs (b ∷ [])))
              (kept-Holds i slots bs b inside (omega arith) h) (strtok t.rest)
              (strtok-Taken t.rest) in
          (
            r,
            rw (hit) (if_then _ (lt→ltb i num within) ∙ run),
            subst (λ ns. Holds ns r)
                (append_assoc bs (b ∷ []) (known (names t.rest))
                  ∙ ap (λ ns. bs ++ ns)
                      (sym (ap known e ∙ known-known t.text (names t.rest) b hit)))
                held,
          )
    ]

-- The loop over the argument of `--benchmarks`, a text of less than 2 ^ 32 - 1 characters, ends, and
-- the benchmarks that it selects are the ones that the text names, in its order and as often as it
-- names them, without the names that are unknown.
pub select_benchmarks-names :
    (opt_benchmarks : List ℕ)
    → length opt_benchmarks + 1 < 2 ^ 32
    → (r : Selected) × (select_benchmarks (some opt_benchmarks) ≡ some r)
      × Holds (known (names opt_benchmarks)) r
unfolding select_benchmarks count_chars
select_benchmarks-names s small =
    let num = u32 (count_loop s b',' 0 + 1) in
    let wrap : num ≡ count_loop s b',' 0 + 1 =
      mod-eq_of_lt (omega (arith, commas-le s (omega arith))) in
    select_loop-Holds (suc (length s)) s 0 num (replicate num none) [] (omega arith)
      (sym (length-replicate num none)) (omega (arith, commas-le s (omega arith)))
      (omega (arith, length-names s (omega arith))) (record { number = refl; entries = refl })
      (strtok s) (strtok-Taken s)
