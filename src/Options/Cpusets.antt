-- ===== src/Options/Cpusets.antt =====
-- The part of `main` of src/main.cc between the options and `spawn_workers`: the sets of processors.
use hwvar.Base.{Bool, true, false, not, if◌then◌else◌}
use hwvar.Kernel.Defs.{Doubles}
use hwvar.Spawn.{Bitmaps}
use hwvar.Driver.{Policy, pair}
use hwvar.Options.Values.{failure, Outcome, continues, exits, failed_assert, Library}
use hwvar.Options.Loop.{Settings}

abbrev pub is_pair : Policy → Bool
is_pair pair = true
is_pair _ = false

abbrev same_bool : Bool → Bool → Bool
same_bool true b = b
same_bool false b = not b

module _ {f : Doubles} {hwloc : Bitmaps} (lib : Library f hwloc) where
  open hwloc use {Bitmap, is_included}
  open lib use {is_zero, union}

  -- The two sets and `runset`; `global` is the set of the whole machine.
  pub record Sets : Type 0 where
    pub cpuset1 : Bitmap
    pub cpuset2 : Bitmap
    pub runset : Bitmap

  -- The default is the whole machine.
  abbrev pub first_set : Bitmap → Settings f hwloc → Bitmap
  first_set global v = if is_zero v.cpuset1 then global else v.cpuset1

  unfoldable pub choose_cpus : Bitmap → Settings f hwloc → Outcome Sets
  choose_cpus global v =
      let cpuset1 = first_set global v in
      if not (is_included cpuset1 global)
      then exits failure
      else if not (is_included v.cpuset2 global)
      then exits failure
      else if same_bool (is_pair v.policy) (not (is_zero v.cpuset2))
      then continues
          (record { cpuset1 = cpuset1; cpuset2 = v.cpuset2; runset = union cpuset1 v.cpuset2 })
      else failed_assert
