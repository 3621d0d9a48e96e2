-- ===== src/Kernel/Stream/Values.antt =====
-- One loop of the STREAM kernels over arrays whose cells all have the same value.
use hwvar.Base.{ℕ, ◌+◌, ◌≤◌, ◌<◌, Option, some, ◌≡◌, refl, ap, sym, ◌∙◌, arith}
use hwvar.Kernel.Arrays.{◌>>=◌}
use hwvar.Kernel.Defs.{Doubles}
use hwvar.Kernel.Stream.{Memory, fetch, put, for_each, copy_at, scale_at, add_at, triad_at}
use hwvar.Kernel.Stream.Blocks.{
  upto, Blocks, fetch-cell, put-a, put-b, put-c, upto-suc, upto-none, upto-all, Blocks-cong,
  for_each-carries,
}

module _ (f : Doubles) (size room : ℕ) where
  open f use {Double, plus, times}

  abbrev pub Flat : Option Double → Option Double → Option Double → Memory f → Type 0
  Flat a b c = Blocks f size room (λ i. a) (λ i. b) (λ i. c)

  -- A run that ends with memory of which `P` holds.
  abbrev pub Ends : Option (Memory f) → (Memory f → Type 0) → Type 0
  Ends o P = (m : Memory f) × (o ≡ some m) × P m

  pub Ends-bind :
      {o : Option (Memory f)} {g : Memory f → Option (Memory f)} {P : Memory f → Type 0}
      (Q : Memory f → Type 0)
      → Ends o P
      → ((m : Memory f) → P m → Ends (g m) Q)
      → Ends (o >>= g) Q
  Ends-bind {g} Q (m, e, p) next = let (m', run, q) = next m p in (m', ap (λ o. o >>= g) e ∙ run, q)

  module _ (step : ℕ → Memory f → Option (Memory f)) (new : Double) (a b c : Option Double) where
    -- A loop that stores a value to each cell of one array.
    pub fills-a :
        size ≤ room
        → ((j : ℕ) (m : Memory f)
            → j < size
            → Blocks f size room (upto j (some new) a) (λ i. b) (λ i. c) m
            → step j m ≡ put f m (0 + j) new)
        → (m : Memory f) → Flat a b c m
        → Ends (for_each f step size 0 m) (Flat (some new) b c)
    fills-a fits stores m h =
        let (m', run, h') =
          for_each-carries f size room step
            (λ j. Blocks f size room (upto j (some new) a) (λ i. b) (λ i. c))
            (λ j m l h.
              let (m1, runs, h1) =
                put-a f size room (upto j (some new) a) (λ i. b) (λ i. c) m new j h l fits in
              (
                m1,
                stores j m l h ∙ runs,
                Blocks-cong f size room h1 (λ i less. upto-suc j i (some new) a) (λ i less. refl)
                    (λ i less. refl),
              ))
            size 0 m (omega arith)
            (Blocks-cong f size room h (λ i less. sym (upto-none i (some new) a)) (λ i less. refl)
              (λ i less. refl)) in
        (
          m',
          run,
          Blocks-cong f size room h' (λ i less. upto-all size i (some new) a less) (λ i less. refl)
              (λ i less. refl),
        )

    pub fills-b :
        size + size ≤ room
        → ((j : ℕ) (m : Memory f)
            → j < size
            → Blocks f size room (λ i. a) (upto j (some new) b) (λ i. c) m
            → step j m ≡ put f m (size + j) new)
        → (m : Memory f) → Flat a b c m
        → Ends (for_each f step size 0 m) (Flat a (some new) c)
    fills-b fits stores m h =
        let (m', run, h') =
          for_each-carries f size room step
            (λ j. Blocks f size room (λ i. a) (upto j (some new) b) (λ i. c))
            (λ j m l h.
              let (m1, runs, h1) =
                put-b f size room (λ i. a) (upto j (some new) b) (λ i. c) m new j h l fits in
              (
                m1,
                stores j m l h ∙ runs,
                Blocks-cong f size room h1 (λ i less. refl) (λ i less. upto-suc j i (some new) b)
                    (λ i less. refl),
              ))
            size 0 m (omega arith)
            (Blocks-cong f size room h (λ i less. refl) (λ i less. sym (upto-none i (some new) b))
              (λ i less. refl)) in
        (
          m',
          run,
          Blocks-cong f size room h' (λ i less. refl) (λ i less. upto-all size i (some new) b less)
              (λ i less. refl),
        )

    pub fills-c :
        size + size + size ≤ room
        → ((j : ℕ) (m : Memory f)
            → j < size
            → Blocks f size room (λ i. a) (λ i. b) (upto j (some new) c) m
            → step j m ≡ put f m (size + size + j) new)
        → (m : Memory f) → Flat a b c m
        → Ends (for_each f step size 0 m) (Flat a b (some new))
    fills-c fits stores m h =
        let (m', run, h') =
          for_each-carries f size room step
            (λ j. Blocks f size room (λ i. a) (λ i. b) (upto j (some new) c))
            (λ j m l h.
              let (m1, runs, h1) =
                put-c f size room (λ i. a) (λ i. b) (upto j (some new) c) m new j h l fits in
              (
                m1,
                stores j m l h ∙ runs,
                Blocks-cong f size room h1 (λ i less. refl) (λ i less. refl)
                    (λ i less. upto-suc j i (some new) c),
              ))
            size 0 m (omega arith)
            (Blocks-cong f size room h (λ i less. refl) (λ i less. refl)
              (λ i less. sym (upto-none i (some new) c))) in
        (
          m',
          run,
          Blocks-cong f size room h' (λ i less. refl) (λ i less. refl)
              (λ i less. upto-all size i (some new) c less),
        )

  -- The four loops, with their arrays where the benchmarks have them.
  module _ (b c : Option Double) where
    pub copy-Flat :
        (x : Double) (m : Memory f)
        → size + size ≤ room
        → Flat (some x) b c m
        → Ends (for_each f (copy_at f 0 size) size 0 m) (Flat (some x) (some x) c)
    copy-Flat x m fits =
        fills-b (copy_at f 0 size) x (some x) b c fits
          (λ j m l h.
            ap (λ o. o >>= λ x. put f m (size + j) x)
              (fetch-cell f size room m (0 + j) (some x) h.has_room (omega arith) (h.at_a j l)))
          m

  module _ (a c : Option Double) where
    pub scale-Flat :
        (x scalar : Double) (m : Memory f)
        → size + size ≤ room
        → Flat a (some x) c m
        → Ends
            (for_each f (scale_at f size 0 scalar) size 0 m)
            (Flat (some (times scalar x)) (some x) c)
    scale-Flat x scalar m fits =
        fills-a (scale_at f size 0 scalar) (times scalar x) a (some x) c (omega arith)
          (λ j m l h.
            ap (λ o. o >>= λ x. put f m (0 + j) (times scalar x))
              (fetch-cell f size room m (size + j) (some x) h.has_room (omega arith) (h.at_b j l)))
          m

  pub add-Flat :
      (x y : Double) (c : Option Double) (m : Memory f)
      → size + size + size ≤ room
      → Flat (some x) (some y) c m
      → Ends
          (for_each f (add_at f 0 size (size + size)) size 0 m)
          (Flat (some x) (some y) (some (plus x y)))
  add-Flat x y c m fits =
      fills-c (add_at f 0 size (size + size)) (plus x y) (some x) (some y) c fits
        (λ j m l h.
          ap (λ o. o >>= λ x. fetch f m (size + j) >>= λ y. put f m (size + size + j) (plus x y))
            (fetch-cell f size room m (0 + j) (some x) h.has_room (omega arith) (h.at_a j l))
          ∙ ap (λ o. o >>= λ y. put f m (size + size + j) (plus x y))
              (fetch-cell f size room m (size + j) (some y) h.has_room (omega arith) (h.at_b j l)))
        m

  pub triad-Flat :
      (a : Option Double) (x y scalar : Double) (m : Memory f)
      → size + size + size ≤ room
      → Flat a (some x) (some y) m
      → Ends
          (for_each f (triad_at f 0 size (size + size) scalar) size 0 m)
          (Flat (some (plus x (times scalar y))) (some x) (some y))
  triad-Flat a x y scalar m fits =
      fills-a (triad_at f 0 size (size + size) scalar) (plus x (times scalar y)) a (some x) (some y)
        (omega arith)
        (λ j m l h.
          ap
            (λ o. o >>= λ x.
              fetch f m (size + size + j) >>= λ y. put f m (0 + j) (plus x (times scalar y)))
            (fetch-cell f size room m (size + j) (some x) h.has_room (omega arith) (h.at_b j l))
          ∙ ap (λ o. o >>= λ y. put f m (0 + j) (plus x (times scalar y)))
              (fetch-cell f size room m (size + size + j) (some y) h.has_room (omega arith)
                (h.at_c j l)))
        m
