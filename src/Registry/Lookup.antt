-- ===== src/Registry/Lookup.antt =====
-- Looking a benchmark up by name and by number, and what `init_benchmarks` reaches.
use mathlib.Core.Option.{some_inj}
use mathlib.Core.Logic.{ite}
use hwvar.Base.{
  ℕ, zero, suc, ◌<◌, true, false, Option, none, some, List, [], ◌∷◌, ◌≡◌, refl, ap, arith,
  get_elem?, map, tolower, strcaseeq, strcaseeq-streq, sym, ◌∙◌, Bool-cases, inl, inr,
  get_elem?-map,
}
use hwvar.Benchmark.{Benchmark, Init}
use hwvar.Registry.{benchmarks, init_benchmarks, find_name, get_benchmark_name, get_benchmark_idx}

-- Names that fold to the same text find the same entry.
find_name-fold :
    (a b : List ℕ) (bs : List Benchmark)
    → map tolower a ≡ map tolower b
    → find_name a bs ≡ find_name b bs
unfolding find_name
find_name-fold a b [] e = refl
find_name-fold a b (c ∷ cs) e =
    rw (strcaseeq-streq a c.name, strcaseeq-streq b c.name, e, find_name-fold a b cs e)

-- A name is found at the first entry that it names, up to case.
pub record Found (name : List ℕ) (bs : List Benchmark) (b : Benchmark) : Type 0 where
  pub index : ℕ
  pub there : get_elem? bs index ≡ some b
  pub named : strcaseeq name b.name ≡ true
  pub first :
      (j : ℕ) (c : Benchmark) → j < index → get_elem? bs j ≡ some c → strcaseeq name c.name ≡ false

Found-suc :
    {name : List ℕ} {c b : Benchmark} {cs : List Benchmark}
    → strcaseeq name c.name ≡ false
    → Found name cs b
    → Found name (c ∷ cs) b
Found-suc {name} {c} {b} {cs} miss rest = record {
  index = suc rest.index;
  there = rest.there;
  named = rest.named;
  first = first;
}
  where
    first :
        (j : ℕ) (d : Benchmark)
        → j < suc rest.index
        → get_elem? (c ∷ cs) j ≡ some d
        → strcaseeq name d.name ≡ false
    first zero d h e = rw (← some_inj.0 e) miss
    first (suc j) d h e = rest.first j d (omega arith) e

find_name-Found :
    (name : List ℕ) (bs : List Benchmark) (b : Benchmark)
    → find_name name bs ≡ some b
    → Found name bs b
unfolding find_name
find_name-Found name [] b e = cc
find_name-Found name (c ∷ cs) b e = elim (Bool-cases (strcaseeq name c.name)) [
  | inl hit ↦
      let same : c ≡ b = some_inj.0 (rw hit at e) in
      record {
        index = 0;
        there = ap some same;
        named = rw (← same) hit;
        first = λ j d h g. absurd (omega arith);
      }
  | inr miss ↦ Found-suc miss (find_name-Found name cs b (rw miss at e))
]

find_name-none :
    (name : List ℕ) (bs : List Benchmark) (i : ℕ) (b : Benchmark)
    → find_name name bs ≡ none
    → get_elem? bs i ≡ some b
    → strcaseeq name b.name ≡ false
unfolding find_name
find_name-none name [] i b e g = cc
find_name-none name (c ∷ cs) zero b e g =
    let same : c ≡ b = some_inj.0 g in rw (← same) (ground arith)
find_name-none name (c ∷ cs) (suc i) b e g = find_name-none name cs i b (ground (arith, e)) g

table_names : map (λ b. get_benchmark_name b.name) benchmarks ≡ map some benchmarks
unfolding get_benchmark_name
table_names = refl

get_benchmark_idx-table :
    (idx : ℕ) {b : Benchmark} → get_benchmark_idx idx ≡ some b → get_elem? benchmarks idx ≡ some b
unfolding get_benchmark_idx
get_benchmark_idx-table idx e = ground arith

get_benchmark_name-fold :
    (a b : List ℕ) → map tolower a ≡ map tolower b → get_benchmark_name a ≡ get_benchmark_name b
unfolding get_benchmark_name
get_benchmark_name-fold a b e = find_name-fold a b benchmarks e

-- A right answer to the question for a name.
pub data Answer (name : List ℕ) : Option Benchmark → Type 0 where
  hit : (b : Benchmark) → Found name benchmarks b → Answer name (some b)
  miss :
      ((i : ℕ) (b : Benchmark) → get_elem? benchmarks i ≡ some b → strcaseeq name b.name ≡ false)
      → Answer name none

find_name-Answer :
    (name : List ℕ) (o : Option Benchmark) → find_name name benchmarks ≡ o → Answer name o
find_name-Answer name none e = miss (λ i b g. find_name-none name benchmarks i b e g)
find_name-Answer name (some b) e = hit b (find_name-Found name benchmarks b e)

-- `get_benchmark_name` gives the first entry of the table with that name, in any capitals; it
-- gives NULL only if no entry has that name.
pub get_benchmark_name-Answer : (name : List ℕ) → Answer name (get_benchmark_name name)
unfolding get_benchmark_name
get_benchmark_name-Answer name = find_name-Answer name (find_name name benchmarks) refl

-- Every entry of the table is found under its own name, written in any capitals: no entry hides
-- another.
get_benchmark_name-idx :
    (idx : ℕ) (name : List ℕ) {b : Benchmark}
    → get_benchmark_idx idx ≡ some b
    → map tolower name ≡ map tolower b.name
    → get_benchmark_name name ≡ some b
get_benchmark_name-idx idx name {b} e fold =
    let here = get_benchmark_idx-table idx e in
    let found : get_benchmark_name b.name ≡ some b = some_inj.0 (
      sym (get_elem?-map (λ c. get_benchmark_name c.name) benchmarks idx here)
      ∙ ap (λ l. get_elem? l idx) table_names
      ∙ get_elem?-map some benchmarks idx here) in
    get_benchmark_name-fold name b.name fold ∙ found

pub Init-discrete : Discrete Init
Init-discrete = hlevel

pub count_init : Init → List Init → ℕ
count_init f [] = 0
count_init f (g ∷ gs) = ite (Init-discrete f g) (suc (count_init f gs)) (count_init f gs)

unfoldable pub init_once : Benchmark → ℕ
unfolding count_init init_benchmarks
init_once b = elim b.init [ some f ↦ count_init f init_benchmarks | none ↦ 1 ]

table_inits : map init_once benchmarks ≡ map (λ _. 1) benchmarks
unfolding init_once Init-discrete
table_inits = refl

-- `init_benchmarks` calls the `init` function of every benchmark of the table, those that the five
-- STREAM entries share included, exactly once.
init_benchmarks-once : (idx : ℕ) {b : Benchmark} → get_benchmark_idx idx ≡ some b → init_once b ≡ 1
init_benchmarks-once idx {b} e =
    let here = get_benchmark_idx-table idx e in
    some_inj.0 (
      sym (get_elem?-map init_once benchmarks idx here)
      ∙ ap (λ l. get_elem? l idx) table_inits
      ∙ get_elem?-map (λ _. 1) benchmarks idx here)
