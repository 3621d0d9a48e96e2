-- ===== src/Kernel/Fwq/Examples.antt =====
-- An instance of the theorem on the fwq kernel.
use hwvar.Base.{◌*◌, ◌^◌, ◌≡◌, some, arith}
use hwvar.Kernel.Fwq.{fwq_call}
use hwvar.Kernel.Fwq.Quantum.{fwq_call-quantum}

fwq_call-quantum_example : fwq_call 10 ≡ some (0, 10 * 2 ^ 20)
fwq_call-quantum_example = fwq_call-quantum 10 (omega arith)
