-- ===== src/Selection/Examples.antt =====
-- An instance of the theorem on the selection: two names that are known, in another case, an
-- unknown one, and an empty one.
use hwvar.Base.{refl, none, map, Option, ◌+◌, ℕ, ◌≡◌, List, arith, codes, some}
use hwvar.Selection.Counters.{Written, parse_pmcs-names}
use hwvar.Registry.{benchmarks, get_benchmark_idx, number_benchmarks}
use hwvar.Selection.{parse_pmcs, count_chars, Selected, select_benchmarks}
use hwvar.Selection.Names.{names}
use hwvar.Selection.Chosen.{Holds, known, select_benchmarks-names}

abbrev argument : List ℕ
argument = codes "fwq,Nothing,,stream_COPY"

select_benchmarks-names_example :
    (r : Selected) × (select_benchmarks (some argument) ≡ some r) × Holds (known (names argument)) r
select_benchmarks-names_example = select_benchmarks-names argument (omega arith)

-- Two counters with two commas between them: the third entry is not written.
abbrev counters : List ℕ
counters = codes "INST,,CYCLES"

parse_pmcs-names_example :
    (r : List (Option (List ℕ))) × (parse_pmcs (some counters) ≡ some r)
    × Written (names counters) (count_chars (some counters) b',' + 1) r
parse_pmcs-names_example = parse_pmcs-names b'I' (codes "NST,,CYCLES") (omega arith)

-- Without `--benchmarks` every benchmark of the table is selected.
all_benchmarks : select_benchmarks none ≡ some (record { count = 12; slots = map some benchmarks })
unfolding select_benchmarks benchmarks get_benchmark_idx number_benchmarks
all_benchmarks = refl
