-- ===== src/Kernel/Stream/Blocks.antt =====
-- Arrays whose cells all have the same value, and loops that replace it.
use mathlib.Core.Path.{subst}
use hwvar.Base.{
  ℕ, zero, suc, ◌+◌, ◌≤◌, ◌<◌, Option, none, some, ◌≡◌, refl, ap, sym, ◌∙◌, arith, true, false,
  if◌then◌else◌, if_then, if_else, ltb, lt→ltb, ◌==◌, set_at, Bool-cases, inl, inr,
}
use hwvar.Kernel.Arrays.{◌>>=◌}
use hwvar.Kernel.Defs.{Doubles}
use hwvar.Kernel.Stream.{Memory, fetch, put, for_each}

-- The first `j` cells are already replaced.
abbrev pub upto {ℓ} : {A : Type ℓ} → ℕ → A → A → ℕ → A
upto j new old i = if ltb i j then new else old

module _ {ℓ} {A : Type ℓ} where
  set-same :
      (cells part : ℕ → A) (o j i : ℕ) (v : A)
      → cells (o + i) ≡ part i
      → set_at cells (o + j) v (o + i) ≡ set_at part j v i
  set-same cells part o j i v e =
      let same : (o + j == o + i) ≡ (j == i) = ground arith in rw (same, e) refl

  set-other : (cells : ℕ → A) (k i : ℕ) (v : A) → (k == i) ≡ false → set_at cells k v i ≡ cells i
  set-other cells k i v ne = if_else v ne

  pub upto-suc : (j i : ℕ) (new old : A) → set_at (upto j new old) j new i ≡ upto (suc j) new old i
  upto-suc j i new old = elim (Bool-cases (j == i)) [
    | inl e ↦ let reached : ltb i (suc j) ≡ true = ground arith in rw (e, reached) refl
    | inr ne ↦ let same : ltb i (suc j) ≡ ltb i j = ground arith in rw (ne, same) refl
  ]

  pub upto-none : (i : ℕ) (new old : A) → upto 0 new old i ≡ old
  upto-none i new old = if_else new (ground arith)

  pub upto-all : (j i : ℕ) (new old : A) → i < j → upto j new old i ≡ new
  upto-all j i new old l = if_then old (lt→ltb i j l)

module _ (f : Doubles) (size room : ℕ) where
  open f use {Double}

  -- The three arrays in the memory.
  pub record Blocks (a b c : ℕ → Option Double) (m : Memory f) : Type 0 where
    pub has_room : m.room ≡ room
    pub at_a : (i : ℕ) → i < size → m.cells (0 + i) ≡ a i
    pub at_b : (i : ℕ) → i < size → m.cells (size + i) ≡ b i
    pub at_c : (i : ℕ) → i < size → m.cells (size + size + i) ≡ c i

  pub fetch-cell :
      (m : Memory f) (i : ℕ) (v : Option Double)
      → m.room ≡ room
      → i < room
      → m.cells i ≡ v
      → fetch f m i ≡ v
  fetch-cell m i v e l is = if_then none (lt→ltb i m.room (subst (λ r. i < r) (sym e) l)) ∙ is

  abbrev Stored : Memory f → ℕ → Double → (Memory f → Type 0) → Type 0
  Stored m i x P = (m' : Memory f) × (put f m i x ≡ some m') × P m'

  module _ (a b c : ℕ → Option Double) (m : Memory f) (x : Double) (j : ℕ) (h : Blocks a b c m)
      (l : j < size) where
    stored-room : (i : ℕ) → i < room → ltb i m.room ≡ true
    stored-room i l = lt→ltb i m.room (subst (λ r. i < r) (sym h.has_room) l)

    pub put-a : size ≤ room → Stored m (0 + j) x (Blocks (set_at a j (some x)) b c)
    put-a fits = (
      record m { cells = set_at m.cells (0 + j) (some x) },
      if_then none (stored-room (0 + j) (omega arith)),
      record {
        has_room = h.has_room;
        at_a = λ i less. set-same m.cells a (0) j i (some x) (h.at_a i less);
        at_b =
            λ i less. set-other m.cells (0 + j) (size + i) (some x) (ground arith) ∙ h.at_b i less;
        at_c = λ i less.
            set-other m.cells (0 + j) (size + size + i) (some x) (ground arith) ∙ h.at_c i less;
      },
    )

    pub put-b : size + size ≤ room → Stored m (size + j) x (Blocks a (set_at b j (some x)) c)
    put-b fits = (
      record m { cells = set_at m.cells (size + j) (some x) },
      if_then none (stored-room (size + j) (omega arith)),
      record {
        has_room = h.has_room;
        at_a =
            λ i less. set-other m.cells (size + j) (0 + i) (some x) (ground arith) ∙ h.at_a i less;
        at_b = λ i less. set-same m.cells b (size) j i (some x) (h.at_b i less);
        at_c = λ i less.
            set-other m.cells (size + j) (size + size + i) (some x) (ground arith) ∙ h.at_c i less;
      },
    )

    pub put-c :
        size + size + size ≤ room → Stored m (size + size + j) x (Blocks a b (set_at c j (some x)))
    put-c fits = (
      record m { cells = set_at m.cells (size + size + j) (some x) },
      if_then none (stored-room (size + size + j) (omega arith)),
      record {
        has_room = h.has_room;
        at_a = λ i less.
            set-other m.cells (size + size + j) (0 + i) (some x) (ground arith) ∙ h.at_a i less;
        at_b = λ i less.
            set-other m.cells (size + size + j) (size + i) (some x) (ground arith) ∙ h.at_b i less;
        at_c = λ i less. set-same m.cells c (size + size) j i (some x) (h.at_c i less);
      },
    )

  pub Blocks-cong :
      {a b c a' b' c' : ℕ → Option Double} {m : Memory f}
      → Blocks a b c m
      → ((i : ℕ) → i < size → a i ≡ a' i)
      → ((i : ℕ) → i < size → b i ≡ b' i)
      → ((i : ℕ) → i < size → c i ≡ c' i)
      → Blocks a' b' c' m
  Blocks-cong h ea eb ec = record {
    has_room = h.has_room;
    at_a = λ i l. h.at_a i l ∙ ea i l;
    at_b = λ i l. h.at_b i l ∙ eb i l;
    at_c = λ i l. h.at_c i l ∙ ec i l;
  }

  -- A loop keeps what each of its rounds carries on.
  pub for_each-carries :
      (step : ℕ → Memory f → Option (Memory f)) (P : ℕ → Memory f → Type 0)
      → ((j : ℕ) (m : Memory f)
          → j < size
          → P j m
          → (m' : Memory f) × (step j m ≡ some m') × P (suc j) m')
      → (left j : ℕ) (m : Memory f) → j + left ≡ size
      → P j m
      → (m' : Memory f) × (for_each f step left j m ≡ some m') × P size m'
  unfolding for_each
  for_each-carries step P next zero j m e h = (m, refl, subst (λ k. P k m) (omega arith) h)
  for_each-carries step P next (suc left) j m e h =
      let (m1, run, h1) = next j m (omega arith) h in
      let more : suc j ≡ j + 1 = omega arith in
      let on : P (j + 1) m1 = subst (λ k. P k m1) more h1 in
      let (m2, rest, h2) = for_each-carries step P next left (j + 1) m1 (omega arith) on in
      (m2, ap (λ (o : Option (Memory f)). o >>= for_each f step left (j + 1)) run ∙ rest, h2)
