-- ===== src/Pmu/Plain/Examples.antt =====
-- Two repetitions with two counters that are not there: the cells hold 7 before.
use hwvar.Base.{ℕ, ◌+◌, ◌*◌, ◌<◌, true, not, ◌&&◌, ◌≡◌, refl, arith, if◌then◌else◌, ◌==◌, sub64}
use hwvar.Pmu.Events.{returned, exit_failure}
use hwvar.Pmu.Plain.{Platform, plain_rep, plain_reps, plain_work}
use hwvar.Pmu.Plain.Columns.{is_x86_64, plain_work-columns}

abbrev start : ℕ → ℕ
start rep = 100 * rep

abbrev finish : ℕ → ℕ
finish rep = 100 * rep + 30

abbrev cells : ℕ → ℕ
cells j = 7

abbrev after : ℕ → ℕ
after = plain_reps start finish true 2 2 0 cells

second_row : (after 3 ≡ 30) × (after 4 ≡ 7) × (after 5 ≡ 7)
unfolding plain_reps plain_rep
second_row = (refl, refl, refl)

plain_work-columns_example :
    ((p : Platform)
      → plain_work start finish true 2 p 2 cells
        ≡ (if is_x86_64 p && not (2 == 0) then exit_failure else returned after))
    × ((m : ℕ) → m < 2 → after ((2 + 1) * m) ≡ sub64 (finish m) (start m))
    × ((m k : ℕ) → k < 2 → after ((2 + 1) * m + 1 + k) ≡ cells ((2 + 1) * m + 1 + k))
plain_work-columns_example = plain_work-columns start finish 2 2 cells (omega arith) (omega arith)
