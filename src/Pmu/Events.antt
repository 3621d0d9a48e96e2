-- ===== src/Pmu/Events.antt =====
-- What the platforms share: families of registers, the search for an event by its name, and how a
-- function ends that may call `exit`.
use hwvar.Base.{ℕ, Option, none, some, List, [], ◌∷◌, if◌then◌else◌, strcaseeq}
pub use hwvar.Base.{set_at}

-- `struct pmu_event` and `struct pmu_evt`: a name, and the number that selects the event.
pub record Event : Type 0 where
  pub name : List ℕ
  pub code : ℕ

-- The loop of `str2type` and of `find_event` over their table; `none` is the result -1.
unfoldable pub find_event : List ℕ → List Event → Option ℕ
unfolding strcaseeq
find_event name [] = none
find_event name (e ∷ es) = if strcaseeq name e.name then some e.code else find_event name es

-- A function returns, or ends the program with a failure.
pub data Ending {ℓ} (A : Type ℓ) : Type ℓ where
  returned : A → Ending A
  exit_failure : Ending A

infixl 5 ◌>>=◌
abbrev pub ◌>>=◌ {ℓ κ} : {A : Type ℓ} {B : Type κ} → Ending A → (A → Ending B) → Ending B
returned a >>= f = f a
exit_failure >>= f = exit_failure
