-- ===== src/Kernel/Hacc/Memory.antt =====
-- The memory of the HACCmk kernel: what `HACCmk_init` guarantees of the size, and that no loop of
-- `HACCmk_work` leaves its arrays.
use Prim.{Unit, tt}
use mathlib.Core.Path.{subst}
use hwvar.Base.{
  ℕ, zero, suc, ◌+◌, ◌-◌, ◌%◌, ◌≤◌, ◌<◌, Option, List, ◌≡◌, refl, ◌∙◌, arith, ltb, u32, Bool-cases,
  inl, inr, if_then, if_else, ltb→lt,
}
use hwvar.Kernel.Defs.{Floats}
use hwvar.Kernel.Arrays.{
  Filled, Gives, bind-Gives, read-Gives, write-Gives, fewer-Filled, fresh-Filled, first-Filled,
}
use hwvar.Kernel.Hacc.{
  Hacc, Point, at_least, by_four, at_most, hacc_size, hacc_args, step10_loop, step10, place,
  place_loop, clear, push, hacc_round, hacc_sizes, hacc_work,
}

-- Whatever `tune_size` gives, the size is between 400 and 15000 and divisible by 4.
pub hacc_size-bounds : (n : ℕ) → (400 ≤ hacc_size n) × (hacc_size n ≤ 15000) × (hacc_size n % 4 ≡ 0)
unfolding hacc_size at_least by_four at_most
hacc_size-bounds n = ground arith

-- A size from 400 to 15000 is changed only to the next multiple of 4 below it.
hacc_size-closest : (n : ℕ) → 400 ≤ n → n ≤ 15000 → (hacc_size n ≤ n) × (n < hacc_size n + 4)
unfolding hacc_size at_least by_four at_most
hacc_size-closest n low high = ground arith

module _ (fl : Floats) where
  open fl use {Float}

  -- Of `n` cells in each array, the first `i` of the particles and the first `k` of the forces are
  -- initialised.
  pub record Sane (n i k : ℕ) (a : Hacc fl) : Type 0 where
    pub xx : Filled n i a.xx
    pub yy : Filled n i a.yy
    pub zz : Filled n i a.zz
    pub mass : Filled n i a.mass
    pub vx1 : Filled n k a.vx1
    pub vy1 : Filled n k a.vy1
    pub vz1 : Filled n k a.vz1

  place-Sane :
      (m n k i : ℕ) (a : Hacc fl)
      → 0 < i
      → i < n
      → Sane n i k a
      → Gives (Sane n (suc i) k) (place fl m i a)
  unfolding place
  place-Sane m n k i a pos inside h = read-Gives (i - 1) (omega arith) h.xx (λ x.
      write-Gives i _ inside (omega arith) h.xx (λ xx _ fx.
        read-Gives (i - 1) (omega arith) h.yy (λ y.
          write-Gives i _ inside (omega arith) h.yy (λ yy _ fy.
            read-Gives (i - 1) (omega arith) h.zz (λ z.
              write-Gives i _ inside (omega arith) h.zz (λ zz _ fz.
                read-Gives i (omega arith) fx (λ x'.
                  write-Gives i _ inside (omega arith) h.mass (λ mass _ fm. (
                    record a { xx = xx; yy = yy; zz = zz; mass = mass },
                    refl,
                    record {
                      xx = fx;
                      yy = fy;
                      zz = fz;
                      mass = fm;
                      vx1 = h.vx1;
                      vy1 = h.vy1;
                      vz1 = h.vz1;
                    },
                  )))))))))

  place_loop-Sane :
      (m n k left i stop : ℕ) (a : Hacc fl)
      → 0 < i
      → i + left ≡ stop
      → stop ≤ n
      → Sane n i k a
      → Gives (Sane n stop k) (place_loop fl m left i a)
  unfolding place_loop
  place_loop-Sane m n k zero i stop a pos e fits h =
      (a, refl, subst (λ s. Sane n s k a) (omega arith) h)
  place_loop-Sane m n k (suc left) i stop a pos e fits h =
      bind-Gives (place-Sane m n k i a pos (omega arith) h) (λ b g.
        place_loop-Sane m n k left (i + 1) stop b (omega arith) (omega arith) fits
          (subst (λ s. Sane n s k b) (omega arith) g))

  clear-Filled :
      (n left i stop : ℕ) (v : List (Option Float))
      → i + left ≡ stop
      → stop ≤ n
      → Filled n i v
      → Gives (Filled n stop) (clear fl left i v)
  unfolding clear
  clear-Filled n zero i stop v e fits h = (v, refl, subst (λ s. Filled n s v) (omega arith) h)
  clear-Filled n (suc left) i stop v e fits h =
      write-Gives i _ (omega arith) (omega arith) h (λ w _ g.
        clear-Filled n left (i + 1) stop w (omega arith) fits
          (subst (λ s. Filled n s w) (omega arith) g))

  -- `Step10_orig` has a result.
  step10_loop-Gives :
      (n i k left j : ℕ) (a : Hacc fl) (at' p : Point fl) (f m : Float)
      → j + left ≤ i
      → Sane n i k a
      → Gives {0, 0} (λ _. Unit) (step10_loop fl a at' f m left j p)
  unfolding step10_loop
  step10_loop-Gives n i k zero j a at' p f m fits h = (p, refl, tt)
  step10_loop-Gives n i k (suc left) j a at' p f m fits h = read-Gives j (omega arith) h.xx (λ x.
      read-Gives j (omega arith) h.yy (λ y. read-Gives j (omega arith) h.zz (λ z.
        read-Gives j (omega arith) h.mass
          (λ m1. step10_loop-Gives n i k left (j + 1) a at' _ f m (omega arith) h))))

  push-Sane :
      (n i k : ℕ) (a : Hacc fl)
      → 0 < i
      → 0 < k
      → 0 < n
      → Sane n i k a
      → Gives (Sane n i k) (push fl i 0 a)
  unfolding push step10
  push-Sane n i k a some_i some_k some_n h = read-Gives 0 some_i h.xx (λ x.
      read-Gives 0 some_i h.yy (λ y. read-Gives 0 some_i h.zz (λ z.
        bind-Gives (step10_loop-Gives n i k i 0 a _ _ _ _ (omega arith) h) (λ d _.
          read-Gives 0 some_k h.vx1 (λ vx. write-Gives 0 _ some_n (omega arith) h.vx1 (λ vx1 fx _.
            read-Gives 0 some_k h.vy1 (λ vy. write-Gives 0 _ some_n (omega arith) h.vy1 (λ vy1 fy _.
              read-Gives 0 some_k h.vz1 (λ vz.
                write-Gives 0 _ some_n (omega arith) h.vz1 (λ vz1 fz _. (
                  record a { vx1 = vx1; vy1 = vy1; vz1 = vz1 },
                  refl,
                  record {
                    xx = h.xx;
                    yy = h.yy;
                    zz = h.zz;
                    mass = h.mass;
                    vx1 = fx;
                    vy1 = fy;
                    vz1 = fz;
                  },
                )))))))))))

  -- After a round only the first cells count: the next round lays the particles out again.
  fewer-Sane : (n i k : ℕ) (a : Hacc fl) → 0 < i → Sane n i k a → Sane n 1 0 a
  fewer-Sane n i k a pos h = record {
    xx = fewer-Filled 1 pos h.xx;
    yy = fewer-Filled 1 pos h.yy;
    zz = fewer-Filled 1 pos h.zz;
    mass = fewer-Filled 1 pos h.mass;
    vx1 = fewer-Filled 0 (omega arith) h.vx1;
    vy1 = fewer-Filled 0 (omega arith) h.vy1;
    vz1 = fewer-Filled 0 (omega arith) h.vz1;
  }

  hacc_round-Sane :
      (n i : ℕ) (a : Hacc fl)
      → 0 < i
      → i ≤ n
      → Sane n 1 0 a
      → Gives (Sane n 1 0) (hacc_round fl i a)
  unfolding hacc_round
  hacc_round-Sane n i a pos fits h =
      bind-Gives (place_loop-Sane i n 0 (i - 1) 1 i a (omega arith) (omega arith) fits h) (λ b g.
        bind-Gives (clear-Filled n i 0 i b.vx1 (omega arith) fits g.vx1) (λ vx1 gx.
          bind-Gives (clear-Filled n i 0 i b.vy1 (omega arith) fits g.vy1) (λ vy1 gy.
            bind-Gives (clear-Filled n i 0 i b.vz1 (omega arith) fits g.vz1) (λ vz1 gz.
              let (c, e, p) =
                push-Sane n i i (record b { vx1 = vx1; vy1 = vy1; vz1 = vz1 }) pos pos (omega arith)
                  (record {
                    xx = g.xx;
                    yy = g.yy;
                    zz = g.zz;
                    mass = g.mass;
                    vx1 = gx;
                    vy1 = gy;
                    vz1 = gz;
                  }) in
              (c, e, fewer-Sane n i i c pos p)))))

  hacc_sizes-Sane :
      (fuel n i : ℕ) (a : Hacc fl)
      → 0 < fuel
      → n ≤ i + (fuel - 1)
      → 0 < i
      → n ≤ 15000
      → Sane n 1 0 a
      → Gives (Sane n 1 0) (hacc_sizes fl fuel n i a)
  unfolding hacc_sizes
  hacc_sizes-Sane zero n i a lit enough pos word h = absurd (omega arith)
  hacc_sizes-Sane (suc fuel) n i a lit enough pos word h = elim (Bool-cases (ltb i n)) [
    | inl e ↦
        let more : i < n = ltb→lt i n e in
        let (b, g, p) =
          bind-Gives {P = Sane n 1 0} (hacc_round-Sane n i a pos (omega arith) h) (λ b q.
            hacc_sizes-Sane fuel n (u32 (i + 20)) b (omega arith) (omega arith) (omega arith) word
              q) in
        (b, if_then _ e ∙ g, p)
    | inr e ↦ (a, if_else _ e, h)
  ]

  hacc_work-Sane :
      (n left : ℕ) (a : Hacc fl)
      → n ≤ 15000
      → Sane n 1 0 a
      → Gives (Sane n 1 0) (hacc_work fl n left a)
  unfolding hacc_work
  hacc_work-Sane n zero a word h = (a, refl, h)
  hacc_work-Sane n (suc left) a word h =
      bind-Gives (hacc_sizes-Sane (suc n) n 400 a (omega arith) (omega arith) (omega arith) word h)
        (λ b g. hacc_work-Sane n left b word g)

  hacc_args-Sane : (n : ℕ) → 0 < n → Sane n 1 0 (hacc_args fl n)
  unfolding hacc_args
  hacc_args-Sane n pos = record {
    xx = first-Filled n _ pos;
    yy = first-Filled n _ pos;
    zz = first-Filled n _ pos;
    mass = first-Filled n _ pos;
    vx1 = fresh-Filled n;
    vy1 = fresh-Filled n;
    vz1 = fresh-Filled n;
  }

  -- With the size of `HACCmk_init` and the arrays of `HACCmk_argument_init`, `HACCmk_work` ends, and
  -- neither leaves an array nor reads a cell that is uninitialised, for any number of iterations; the
  -- arrays keep their size, and the first cells of the particles are initialised at the end too.
  pub hacc_work-safe :
      (n iterations : ℕ)
      → Gives
          (Sane (hacc_size n) 1 0)
          (hacc_work fl (hacc_size n) iterations (hacc_args fl (hacc_size n)))
  hacc_work-safe n iterations =
      let (low, high, _) = hacc_size-bounds n in
      hacc_work-Sane (hacc_size n) iterations (hacc_args fl (hacc_size n)) high
        (hacc_args-Sane (hacc_size n) (omega arith))
