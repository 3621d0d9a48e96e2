-- ===== src/Result/Examples.antt =====
-- Two threads with two repetitions and one counter, their rounds interleaved.
use hwvar.Base.{
  ℕ, zero, suc, ◌+◌, ◌*◌, ◌<◌, Option, none, some, List, [], ◌∷◌, ◌≡◌, refl, inl, inr, arith, codes,
}
use hwvar.Result.{Probe, result_alloc, worker_rep, result_base, result_print, row, header}
use hwvar.Result.Rounds.{Round, Schedule, Has, round, rounds}
use hwvar.Result.Table.{filled, measured_blocks, result_print-measured}

abbrev probe : ℕ → ℕ → Probe
probe t r = record { start = 10; finish = 13 + t + 2 * r; counts = (t * 10 + r) ∷ [] }

abbrev at : ℕ → ℕ → Round
at t r = record { thread = t; rep = r }

abbrev order : List Round
order = at 1 0 ∷ at 0 0 ∷ at 0 1 ∷ at 1 1 ∷ []

abbrev next : Option ℕ → Option ℕ
next none = some 4
next (some n) = some (n + 1)

complete : (t r : ℕ) → t < 2 → r < 2 → Has (at t r) order
complete zero zero ht hr = inr (inl refl)
complete zero (suc zero) ht hr = inr (inr (inl refl))
complete (suc zero) zero ht hr = inl refl
complete (suc zero) (suc zero) ht hr = inr (inr (inr (inl refl)))
complete t (suc (suc r)) ht hr = absurd (omega arith)
complete (suc (suc t)) r ht hr = absurd (omega arith)

order-Schedule : Schedule 2 2 order
order-Schedule = record { within = λ x h. ground arith; complete = complete }

print_lines :
    result_print (filled (λ i. 0) 2 2 2 probe order) next (codes "MISS" ∷ []) 1
    ≡ some (
        row (some 4) (some 3 ∷ some 5 ∷ [])
        ∷ row (some 5) (some 4 ∷ some 6 ∷ [])
        ∷ header (some (codes "MISS"))
        ∷ row (some 4) (some 0 ∷ some 1 ∷ [])
        ∷ row (some 5) (some 10 ∷ some 11 ∷ [])
        ∷ [])
unfolding result_print result_alloc rounds round worker_rep result_base
print_lines = refl

result_print-measured_example :
    result_print (filled (λ i. 0) 2 2 2 probe order) next (codes "MISS" ∷ []) 1
    ≡ some (measured_blocks 2 2 probe next (codes "MISS" ∷ []) 2 0)
result_print-measured_example =
    result_print-measured (λ i. 0) 2 2 2 probe order next (codes "MISS" ∷ []) (omega arith)
      (omega arith) (omega arith) (λ t r ht hr. refl) order-Schedule
