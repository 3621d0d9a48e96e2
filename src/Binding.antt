-- ===== src/Binding.antt =====
-- `bind_thread` of src/worker.c with the functions that it calls to see where the thread may run.
-- The bitmaps of hwloc, and what hwloc and the kernel answer, are parameters.
pub mod Reported
mod Examples
use hwvar.Base.{
  ℕ, zero, suc, ◌+◌, ◌-◌, ◌^◌, Bool, true, false, not, ◌&&◌, ◌||◌, Option, none, some,
  if◌then◌else◌, ◌==◌,
}
use hwvar.Mailbox.{Arg}

-- `hwloc_bitmap_alloc`, `hwloc_bitmap_set`, `hwloc_bitmap_isequal` and `hwloc_bitmap_first`, which is
-- -1, here `none`, on the empty set.
pub record Bitmaps : Type 1 where
  pub Bitmap : Type 0
  pub empty : Bitmap
  pub add : Bitmap → ℕ → Bitmap
  pub is_equal : Bitmap → Bitmap → Bool
  pub first : Bitmap → Option ℕ

-- What the thread can ask for: a binding by hwloc to the set of its argument, or by the kernel to one
-- processor.
pub data Request : Type 0 where
  hwloc_set_cpubind nothing : Request
  sched_setaffinity : ℕ → Request

-- What it says: that it is bound, or where it should be and where it is.
pub data Report : Type 0 where
  thread_bound target_differs silent : Report

module _ (hwloc : Bitmaps) where
  open hwloc use {Bitmap, empty, add, is_equal, first}

  -- What the calls answer once the request is made, `none` being a failure; `unset` is what a
  -- `cpu_set_t` on the stack holds, and `setsize` is CPU_SETSIZE.
  pub record Host : Type 0 where
    pub is_thissystem : Bool
    pub is_mckernel : Bool
    pub get_cpubind : Option Bitmap
    pub get_last_cpu_location : Option Bitmap
    pub sched_getaffinity : Option (ℕ → Bool)
    pub sched_getcpu : Option ℕ
    pub unset : ℕ → Bool
    pub setsize : ℕ

  abbrev pub or_else {ℓ} : {A : Type ℓ} → A → Option A → A
  or_else x none = x
  or_else x (some y) = y

  -- The conversion of an `int` that is -1 on failure.
  abbrev pub to_unsigned : Option ℕ → ℕ
  to_unsigned o = or_else (2 ^ 32 - 1) o

  abbrev pub current_cpuset_hwloc : Host → Bitmap
  current_cpuset_hwloc h = or_else empty h.get_cpubind

  abbrev pub current_cpu_hwloc : Host → ℕ
  current_cpu_hwloc h = to_unsigned (first (or_else empty h.get_last_cpu_location))

  abbrev pub cpuset_of : Host → ℕ → Bool
  cpuset_of h = or_else h.unset h.sched_getaffinity

  -- The loop, with `left` processors to go.
  unfoldable pub add_set : (ℕ → Bool) → ℕ → ℕ → Bitmap → Bitmap
  add_set cpuset zero cpu ret = ret
  add_set cpuset (suc left) cpu ret =
      add_set cpuset left (cpu + 1) (if cpuset cpu then add ret cpu else ret)

  unfoldable pub current_cpuset_getaffinity : Host → Bitmap
  unfolding add_set
  current_cpuset_getaffinity h = add_set (cpuset_of h) h.setsize 0 empty

  abbrev pub current_cpu_getaffinity : Host → ℕ
  current_cpu_getaffinity h = to_unsigned h.sched_getcpu

  -- `equal`, for the set and the processor of the argument.
  unfoldable pub is_bound : Host → Bitmap → ℕ → Bool
  unfolding current_cpuset_getaffinity
  is_bound h cpuset cpu =
      is_equal cpuset (current_cpuset_hwloc h)
      && (h.is_mckernel || (cpu == current_cpu_hwloc h))
      && is_equal cpuset (current_cpuset_getaffinity h)
      && (cpu == current_cpu_getaffinity h)

  unfoldable pub bind_thread : Host → Bitmap → Arg → Request × Report × Arg
  unfolding is_bound
  bind_thread h cpuset a =
      if a.do_binding
      then (
        if h.is_thissystem then hwloc_set_cpubind else sched_setaffinity a.cpu,
        if is_bound h cpuset a.cpu then thread_bound else target_differs,
        a,
      )
      else (nothing, silent, record a { cpu = current_cpu_getaffinity h })
