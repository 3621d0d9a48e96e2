-- ===== src/Kernel/Defs.antt =====
-- What the kernels share: the numbers of type `double` and `float`.
use hwvar.Base.{List, ℕ, ◌<◌, ◌^◌, Bool}

-- What the kernels use of `double` (or `float`). The operations are the machine's; nothing is
-- assumed of them but that a conversion to `unsigned` yields an `unsigned`.
pub record Doubles : Type 1 where
  pub Double : Type 0
  pub of_ℕ : ℕ → Double
  pub plus : Double → Double → Double
  pub times : Double → Double → Double
  pub over : Double → Double → Double
  pub pow : Double → Double → Double
  pub to_u32 : Double → ℕ
  pub to_u32-lt : (x : Double) → to_u32 x < 2 ^ 32

-- What the HACCmk and dgemm kernels use of `float` and `double`, with the constants of their source.
pub record Floats : Type 1 where
  pub Float : Type 0
  -- The number that a text of the source denotes.
  pub literal : List ℕ → Float
  pub of_ℕ : ℕ → Float
  pub plus : Float → Float → Float
  pub minus : Float → Float → Float
  pub times : Float → Float → Float
  pub over : Float → Float → Float
  pub pow : Float → Float → Float
  pub less : Float → Float → Bool
