-- ===== src/Kernel/Hacc.antt =====
-- The kernel of src/benchmarks/HACCmk.c: the size that `HACCmk_init` settles on, the arrays of
-- `HACCmk_argument_init`, `HACCmk_work` and `Step10_orig`. The operations on `float` and `double`
-- are the machine's; conversions between the two are part of them.
pub mod Memory
mod Examples
use hwvar.Base.{
  ℕ, zero, suc, ◌+◌, ◌-◌, ◌%◌, Bool, Option, none, some, List, ◌==◌, if◌then◌else◌, ltb, replicate,
  set, u32, codes,
}
use hwvar.Kernel.Defs.{Floats}
use hwvar.Kernel.Arrays.{◌>>=◌, read, write}

-- The three adjustments of `HACCmk_init` to what `tune_size` gives.
unfoldable pub at_least : ℕ → ℕ
at_least n = if ltb n 400 then 400 else n

unfoldable pub by_four : ℕ → ℕ
by_four n = if n % 4 == 0 then n else n - n % 4

unfoldable pub at_most : ℕ → ℕ
at_most n = if ltb 15000 n then 15000 else n

unfoldable pub hacc_size : ℕ → ℕ
unfolding at_least by_four at_most
hacc_size n = at_most (by_four (at_least n))

module _ (fl : Floats) where
  open fl use {Float, literal, of_ℕ, plus, minus, times, over, pow, less}

  -- `HACCmk_args_t`
  pub record Hacc : Type 0 where
    pub xx : List (Option Float)
    pub yy : List (Option Float)
    pub zz : List (Option Float)
    pub mass : List (Option Float)
    pub vx1 : List (Option Float)
    pub vy1 : List (Option Float)
    pub vz1 : List (Option Float)

  -- `p3f_t`
  pub record Point : Type 0 where
    pub x : Float
    pub y : Float
    pub z : Float

  abbrev pub fresh_array : ℕ → List (Option Float)
  fresh_array n = replicate n none

  -- `HACCmk_argument_init`, for a `malloc` that succeeds: the first cells of four arrays are set.
  unfoldable pub hacc_args : ℕ → Hacc
  hacc_args n = record {
    xx = set (fresh_array n) 0 (some (literal (codes "0")));
    yy = set (fresh_array n) 0 (some (literal (codes "0")));
    zz = set (fresh_array n) 0 (some (literal (codes "0")));
    mass = set (fresh_array n) 0 (some (literal (codes "2")));
    vx1 = fresh_array n;
    vy1 = fresh_array n;
    vz1 = fresh_array n;
  }

  -- The polynomial of `Step10_orig`.
  abbrev pub poly : Float → Float
  poly r2 =
      let step = λ (c : List ℕ) (t : Float). plus (literal c) (times r2 t) in
      step (codes "0.269327") (
        step (codes "-0.0750978") (
          step (codes "0.0114808") (
            step (codes "-0.00109313")
              (step (codes "0.0000605491") (literal (codes "-0.00000147177"))))))

  -- What one particle adds to the force, at the distances `dx`, `dy`, `dz`, with mass `m1`.
  abbrev pub pull : Float → Float → Float → Float → Float → Float → Point → Point
  pull fsrrmax2 mp_rsm2 m1 dx dy dz p =
      let r2 = plus (plus (times dx dx) (times dy dy)) (times dz dz) in
      let m = if less r2 fsrrmax2 then m1 else literal (codes "0.0") in
      let f' = minus (pow (plus r2 mp_rsm2) (literal (codes "-1.5"))) (poly r2) in
      let f = if less (literal (codes "0.0")) r2 then times m f' else literal (codes "0.0") in
      record { x = plus p.x (times f dx); y = plus p.y (times f dy); z = plus p.z (times f dz) }

  -- The loop of `Step10_orig`, from `j`, with `left` rounds to go.
  unfoldable pub step10_loop : Hacc → Point → Float → Float → ℕ → ℕ → Point → Option Point
  step10_loop a at' fsrrmax2 mp_rsm2 zero j p = some p
  step10_loop a at' fsrrmax2 mp_rsm2 (suc left) j p = read a.xx j >>= λ x1. read a.yy j >>= λ y1.
      read a.zz j >>= λ z1. read a.mass j >>= λ m1.
      step10_loop a at' fsrrmax2 mp_rsm2 left (j + 1)
        (pull fsrrmax2 mp_rsm2 m1 (minus x1 at'.x) (minus y1 at'.y) (minus z1 at'.z) p)

  unfoldable pub step10 : ℕ → Point → Float → Float → Hacc → Option Point
  unfolding step10_loop
  step10 count1 at' fsrrmax2 mp_rsm2 a =
      let zero' = literal (codes "0.0") in
      step10_loop a at' fsrrmax2 mp_rsm2 count1 0 (record { x = zero'; y = zero'; z = zero' })

  -- One round of the loop that lays out the particles.
  unfoldable pub place : ℕ → ℕ → Hacc → Option Hacc
  place n i a =
      let over_n = λ (c : List ℕ). over (literal c) (of_ℕ n) in
      read a.xx (i - 1) >>= λ x. write a.xx i (plus x (over_n (codes "1.0"))) >>= λ xx.
      read a.yy (i - 1) >>= λ y. write a.yy i (plus y (over_n (codes "2.0"))) >>= λ yy.
      read a.zz (i - 1) >>= λ z. write a.zz i (plus z (over_n (codes "3.0"))) >>= λ zz.
      read xx i >>= λ x'.
      write a.mass i (plus (times (of_ℕ i) (literal (codes "0.01"))) x') >>= λ mass.
      some (record a { xx = xx; yy = yy; zz = zz; mass = mass })

  unfoldable pub place_loop : ℕ → ℕ → ℕ → Hacc → Option Hacc
  unfolding place
  place_loop n zero i a = some a
  place_loop n (suc left) i a = place n i a >>= place_loop n left (i + 1)

  -- `memset (v, 0, n * sizeof (float))`
  unfoldable pub clear : ℕ → ℕ → List (Option Float) → Option (List (Option Float))
  clear zero i v = some v
  clear (suc left) i v = write v i (literal (codes "0")) >>= clear left (i + 1)

  -- One round of the loop over the first `count` particles.
  unfoldable pub push : ℕ → ℕ → Hacc → Option Hacc
  unfolding step10
  push n i a =
      let fcoeff = literal (codes "0.23") in
      read a.xx i >>= λ x. read a.yy i >>= λ y. read a.zz i >>= λ z.
      step10 n (record { x = x; y = y; z = z }) (literal (codes "0.5")) (literal (codes "0.03")) a
      >>= λ d. read a.vx1 i >>= λ vx. write a.vx1 i (plus vx (times d.x fcoeff)) >>= λ vx1.
          read a.vy1 i >>= λ vy. write a.vy1 i (plus vy (times d.y fcoeff)) >>= λ vy1.
          read a.vz1 i >>= λ vz. write a.vz1 i (plus vz (times d.z fcoeff)) >>= λ vz1.
          some (record a { vx1 = vx1; vy1 = vy1; vz1 = vz1 })

  -- The body of the loop over `n`; `count` is 1.
  unfoldable pub hacc_round : ℕ → Hacc → Option Hacc
  unfolding place_loop clear push
  hacc_round n a = place_loop n (n - 1) 1 a >>= λ b. clear n 0 b.vx1 >>= λ vx1.
      clear n 0 b.vy1 >>= λ vy1.
      clear n 0 b.vz1 >>= λ vz1. push n 0 (record b { vx1 = vx1; vy1 = vy1; vz1 = vz1 })

  -- The loop over `n`, on fuel.
  unfoldable pub hacc_sizes : ℕ → ℕ → ℕ → Hacc → Option Hacc
  unfolding hacc_round
  hacc_sizes zero size n a = none
  hacc_sizes (suc fuel) size n a =
      let rest = hacc_round n a >>= hacc_sizes fuel size (u32 (n + 20)) in
      if ltb n size then rest else some a

  -- `HACCmk_work`, with `left` iterations to go.
  unfoldable pub hacc_work : ℕ → ℕ → Hacc → Option Hacc
  unfolding hacc_sizes
  hacc_work size zero a = some a
  hacc_work size (suc left) a = hacc_sizes (suc size) size 400 a >>= hacc_work size left
