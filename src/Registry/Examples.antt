-- ===== src/Registry/Examples.antt =====
-- The table at concrete names.
use hwvar.Base.{none, ◌≡◌, refl, codes}
use hwvar.Registry.{get_benchmark_name, number_benchmarks}
use hwvar.Registry.Lookup.{Answer, get_benchmark_name-Answer}

number_benchmarks_twelve : number_benchmarks ≡ 12
unfolding number_benchmarks
number_benchmarks_twelve = refl

unknown_name : get_benchmark_name (codes "linpack") ≡ none
unfolding get_benchmark_name
unknown_name = refl

get_benchmark_name-Answer_example : Answer (codes "FWQ") (get_benchmark_name (codes "FWQ"))
get_benchmark_name-Answer_example = get_benchmark_name-Answer (codes "FWQ")
