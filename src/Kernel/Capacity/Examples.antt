-- ===== src/Kernel/Capacity/Examples.antt =====
-- The capacity kernel on four lines of two bytes.
use hwvar.Base.{ℕ, ◌+◌, ◌/◌, some, ◌≡◌, arith}
use hwvar.Kernel.Capacity.{Capacity, capacity_init, capacity_call}
use hwvar.Kernel.Capacity.Lines.{Swept}
use hwvar.Kernel.Capacity.Rounds.{capacity_call-init}

-- What `new` leaves.
abbrev left_over : ℕ → ℕ
left_over j = 100 + j

capacity_call-init_example :
    (c : Capacity) × (e : ℕ → ℕ) × (capacity_init 9 2 ≡ some c)
    × (capacity_call c 3 left_over ≡ some e)
    × Swept 2 (9 / 2) left_over e
capacity_call-init_example =
    capacity_call-init 9 2 3 left_over (omega arith) (omega arith) (omega arith) (omega arith)
