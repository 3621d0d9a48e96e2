-- ===== src/Kernel/Stream/Arrays.antt =====
-- The arrays that `STREAM_argument_init` makes.
use hwvar.Base.{ℕ, ◌+◌, ◌*◌, ◌/◌, ◌^◌, ◌<◌, Option, none, some, ◌≡◌, refl, sym, arith, u64}
use hwvar.Kernel.Defs.{Doubles}
use hwvar.Kernel.TuneSize.{Config, tune_size}
use hwvar.Kernel.Stream.{Memory, for_each, fill_at, argument_init}
use hwvar.Kernel.Stream.Blocks.{
  upto, Blocks, put-a, put-b, put-c, upto-suc, upto-none, upto-all, Blocks-cong, for_each-carries,
}
use hwvar.Kernel.Stream.Values.{Flat, Ends}

-- `tune_size` gives at most the elements whose bytes are an `unsigned`.
tune_size-lt :
    (f : Doubles) (config : Config f) (n size : ℕ)
    → tune_size f config 8 n 1 ≡ some size
    → size < 2 ^ 29
unfolding tune_size
tune_size-lt f config n size e = ground arith

module _ (f : Doubles) (config : Config f) (size : ℕ) where
  open f use {Double, of_ℕ}

  abbrev fresh : ℕ → Memory f
  fresh room = record { room = room; cells = λ i. none }

  -- With two arrays.
  fill-two :
      Ends f size
        (size + size)
        (for_each f (fill_at f config 2 size size) size 0 (fresh (size + size)))
        (Flat f size (size + size) (some (of_ℕ 1)) (some (of_ℕ 2)) none)
  fill-two =
      let room = size + size in
      let P : ℕ → Memory f → Type 0 = λ j.
        Blocks f size room (upto j (some (of_ℕ 1)) none) (upto j (some (of_ℕ 2)) none)
          (λ i. none) in
      let (m', run, h') =
        for_each-carries f size room (fill_at f config 2 size size) P
          (λ j m l h.
            let (m1, run1, h1) = put-a f size room _ _ _ m (of_ℕ 1) j h l (omega arith) in
            let (m2, run2, h2) = put-b f size room _ _ _ m1 (of_ℕ 2) j h1 l (omega arith) in
            (
              m2,
              rw (run1, run2) refl,
              Blocks-cong f size room h2 (λ i less. upto-suc j i (some (of_ℕ 1)) none)
                  (λ i less. upto-suc j i (some (of_ℕ 2)) none) (λ i less. refl),
            ))
          size 0 (fresh room) (omega arith)
          (record {
            has_room = refl;
            at_a = λ i less. sym (upto-none i (some (of_ℕ 1)) none);
            at_b = λ i less. sym (upto-none i (some (of_ℕ 2)) none);
            at_c = λ i less. refl;
          }) in
      (
        m',
        run,
        Blocks-cong f size room h' (λ i less. upto-all size i (some (of_ℕ 1)) none less)
            (λ i less. upto-all size i (some (of_ℕ 2)) none less) (λ i less. refl),
      )

  -- With three arrays.
  fill-three :
      Ends f size
        (size + size + size)
        (for_each f (fill_at f config 3 size size) size 0 (fresh (size + size + size)))
        (Flat f size (size + size + size) (some (of_ℕ 1)) (some (of_ℕ 2)) (some (of_ℕ 0)))
  fill-three =
      let room = size + size + size in
      let P : ℕ → Memory f → Type 0 = λ j.
        Blocks f size room (upto j (some (of_ℕ 1)) none) (upto j (some (of_ℕ 2)) none)
          (upto j (some (of_ℕ 0)) none) in
      let (m', run, h') =
        for_each-carries f size room (fill_at f config 3 size size) P
          (λ j m l h.
            let (m1, run1, h1) = put-a f size room _ _ _ m (of_ℕ 1) j h l (omega arith) in
            let (m2, run2, h2) = put-b f size room _ _ _ m1 (of_ℕ 2) j h1 l (omega arith) in
            let (m3, run3, h3) = put-c f size room _ _ _ m2 (of_ℕ 0) j h2 l (omega arith) in
            (
              m3,
              rw (run1, run2) run3,
              Blocks-cong f size room h3 (λ i less. upto-suc j i (some (of_ℕ 1)) none)
                  (λ i less. upto-suc j i (some (of_ℕ 2)) none)
                  (λ i less. upto-suc j i (some (of_ℕ 0)) none),
            ))
          size 0 (fresh room) (omega arith)
          (record {
            has_room = refl;
            at_a = λ i less. sym (upto-none i (some (of_ℕ 1)) none);
            at_b = λ i less. sym (upto-none i (some (of_ℕ 2)) none);
            at_c = λ i less. sym (upto-none i (some (of_ℕ 0)) none);
          }) in
      (
        m',
        run,
        Blocks-cong f size room h' (λ i less. upto-all size i (some (of_ℕ 1)) none less)
            (λ i less. upto-all size i (some (of_ℕ 2)) none less)
            (λ i less. upto-all size i (some (of_ℕ 0)) none less),
      )

  -- `STREAM_argument_init` with two arrays, or three, once `tune_size` has given their size.
  abbrev pub Made : ℕ → ℕ → Option Double → Type 0
  Made n room c =
      (m : Memory f) × (argument_init f config n ≡ some (size, m))
      × Flat f size room (some (of_ℕ 1)) (some (of_ℕ 2)) c m

  pub argument_init-two : tune_size f config 8 2 1 ≡ some size → Made 2 (size + size) none
  unfolding argument_init
  argument_init-two e =
      let few = tune_size-lt f config 2 size e in
      let bytes : u64 (u64 (8 * size) * 2) / 8 ≡ size + size = omega arith in
      let (m, run, h) = fill-two in (m, rw (e, bytes, run) refl, h)

  pub argument_init-three :
      tune_size f config 8 3 1 ≡ some size → Made 3 (size + size + size) (some (of_ℕ 0))
  unfolding argument_init
  argument_init-three e =
      let few = tune_size-lt f config 3 size e in
      let bytes : u64 (u64 (8 * size) * 3) / 8 ≡ size + size + size = omega arith in
      let (m, run, h) = fill-three in (m, rw (e, bytes, run) refl, h)
