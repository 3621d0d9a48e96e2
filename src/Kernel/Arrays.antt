-- ===== src/Kernel/Arrays.antt =====
-- Arrays of a kernel, whose cells may be uninitialised: a read out of bounds or of such a cell, and a
-- write out of bounds, have no result.
use Prim.{yes, no}
use mathlib.Core.Path.{subst}
use mathlib.Core.Logic.{◌≢◌}
use hwvar.Base.{
  ℕ, suc, ◌≤◌, ◌<◌, Option, none, some, List, ◌≡◌, refl, ◌∙◌, ap, arith, if◌then◌else◌, ltb, length,
  get_elem?, set, length-set, get_elem?-set_self, get_elem?-set_ne, if_then, lt→ltb, replicate,
  length-replicate, ℕ_discrete, ◌⊎◌, inl, inr,
}

infixl 5 ◌>>=◌
abbrev pub ◌>>=◌ {ℓ κ} : {A : Type ℓ} {B : Type κ} → Option A → (A → Option B) → Option B
none >>= f = none
some a >>= f = f a

module _ {ℓ} {A : Type ℓ} where
  abbrev pub join : Option (Option A) → Option A
  join none = none
  join (some o) = o

  unfoldable pub read : List (Option A) → ℕ → Option A
  read a i = join (get_elem? a i)

  unfoldable pub write : List (Option A) → ℕ → A → Option (List (Option A))
  write a i v = if ltb i (length a) then some (set a i (some v)) else none

  -- An array of `n` cells, of which the first `i` are initialised.
  pub record Filled (n i : ℕ) (a : List (Option A)) : Type ℓ where
    pub size : length a ≡ n
    pub cells : (j : ℕ) → j < i → (x : A) × (read a j ≡ some x)

  set-cell :
      {n i : ℕ} {a : List (Option A)} (j k : ℕ) (v : A)
      → j < n
      → Filled n i a
      → (k ≡ j) ⊎ (k < i)
      → (x : A) × (read (set a j (some v)) k ≡ some x)
  unfolding read
  set-cell {a = a} j k v inside h (inl e) =
      (v, rw (e, get_elem?-set_self a j (some v) (grind (arith, h.size))) refl)
  set-cell {a = a} j k v inside h (inr l) = elim (ℕ_discrete j k) [
    | yes e ↦ (v, rw (← e, get_elem?-set_self a j (some v) (grind (arith, h.size))) refl)
    | no d ↦ let (x, g) = h.cells k l in (x, rw (get_elem?-set_ne a j k (some v) d) g)
  ]

  -- A write within the array succeeds, keeps what was initialised and adds its own cell.
  pub write-Filled :
      {n i : ℕ} {a : List (Option A)} (j : ℕ) (v : A)
      → j < n
      → j ≤ i
      → Filled n i a
      → (b : List (Option A)) × (write a j v ≡ some b) × Filled n i b × Filled n (suc j) b
  unfolding write
  write-Filled {n} {i} {a} j v inside within h =
      let size : length (set a j (some v)) ≡ n = length-set a j (some v) ∙ h.size in
      (
        set a j (some v),
        if_then _ (lt→ltb j (length a) (grind (arith, h.size))),
        record { size = size; cells = λ k l. set-cell j k v inside h (inr l) },
        record { size = size; cells = λ k l. set-cell j k v inside h (split k l) },
      )
    where
      split : (k : ℕ) → k < suc j → (k ≡ j) ⊎ (k < i)
      split k l = elim (ℕ_discrete k j) [ yes e ↦ inl e | no d ↦ inr (grind arith) ]

  pub fewer-Filled : {n i : ℕ} {a : List (Option A)} (j : ℕ) → j ≤ i → Filled n i a → Filled n j a
  fewer-Filled j le h = record { size = h.size; cells = λ k l. h.cells k (omega arith) }

  -- A new array has no cell initialised.
  pub fresh-Filled : (n : ℕ) → Filled n 0 (replicate n none)
  fresh-Filled n = record { size = length-replicate n none; cells = λ k l. absurd (omega arith) }

  -- A new array whose first cell was set.
  pub first-Filled : (n : ℕ) (v : A) → 0 < n → Filled n 1 (set (replicate n none) 0 (some v))
  first-Filled n v pos = record {
    size = length-set (replicate n none) 0 (some v) ∙ length-replicate n none;
    cells = λ k l. set-cell 0 k v pos (fresh-Filled n) (inl (omega arith));
  }

-- A computation that has a result, with a property.
abbrev pub Gives {ℓ κ} : {B : Type ℓ} → (B → Type κ) → Option B → Type (ℓ ⊔ κ)
Gives {B} P o = (b : B) × (o ≡ some b) × P b

module _ {ℓ κ} {B : Type ℓ} {P : B → Type κ} where
  pub bind-Gives {μ ν} :
      {A : Type μ} {Q : A → Type ν} {o : Option A} {f : A → Option B}
      → Gives Q o
      → ((a : A) → Q a → Gives P (f a))
      → Gives P (o >>= f)
  bind-Gives {f} (a, e, q) k = let (b, g, p) = k a q in (b, ap (λ o. o >>= f) e ∙ g, p)

  pub read-Gives {μ} :
      {A : Type μ} {n i : ℕ} {a : List (Option A)} {f : A → Option B} (j : ℕ)
      → j < i
      → Filled n i a
      → ((x : A) → Gives P (f x))
      → Gives P (read a j >>= f)
  read-Gives {f} j l h k =
      let (x, e) = h.cells j l in let (b, g, p) = k x in (b, ap (λ o. o >>= f) e ∙ g, p)

  pub write-Gives {μ} :
      {A : Type μ} {n i : ℕ} {a : List (Option A)} {f : List (Option A) → Option B} (j : ℕ) (v : A)
      → j < n
      → j ≤ i
      → Filled n i a
      → ((b : List (Option A)) → Filled n i b → Filled n (suc j) b → Gives P (f b))
      → Gives P (write a j v >>= f)
  write-Gives {f} j v inside within h k =
      let (c, e, old, new) = write-Filled j v inside within h in
      let (b, g, p) = k c old new in (b, ap (λ o. o >>= f) e ∙ g, p)

module _ {ℓ} {A : Type ℓ} where
  -- An array of `n` cells, of which the first `p` hold `new`.
  pub record Prefix (n p : ℕ) (new : A) (a : List (Option A)) : Type ℓ where
    pub size : length a ≡ n
    pub cells : (k : ℕ) → k < p → read a k ≡ some new

  -- The other cells hold `old`.
  pub record Halves (n p : ℕ) (new old : A) (a : List (Option A)) : Type ℓ where
    pub size : length a ≡ n
    pub cells : (k : ℕ) → k < p → read a k ≡ some new
    pub others : (k : ℕ) → p ≤ k → k < n → read a k ≡ some old

  read-set_self :
      (a : List (Option A)) (p : ℕ) (v : A) → p < length a → read (set a p (some v)) p ≡ some v
  unfolding read
  read-set_self a p v h = rw (get_elem?-set_self a p (some v) h) refl

  read-set_ne :
      (a : List (Option A)) (p k : ℕ) (v : A) → p ≢ k → read (set a p (some v)) k ≡ read a k
  unfolding read
  read-set_ne a p k v h = rw (get_elem?-set_ne a p k (some v) h) refl

  next-cell :
      (a : List (Option A)) (p k : ℕ) (new : A)
      → p < length a
      → ((k : ℕ) → k < p → read a k ≡ some new)
      → k < suc p
      → read (set a p (some new)) k ≡ some new
  next-cell a p k new inside before l = elim (ℕ_discrete p k) [
    | yes e ↦ subst (λ k. read (set a p (some new)) k ≡ some new) e (read-set_self a p new inside)
    | no d ↦ read-set_ne a p k new d ∙ before k (grind arith)
  ]

  write-some :
      (a : List (Option A)) (p : ℕ) (v : A) → p < length a → write a p v ≡ some (set a p (some v))
  unfolding write
  write-some a p v h = if_then _ (lt→ltb p (length a) h)

  pub write-Prefix :
      {n p : ℕ} {new : A} {a : List (Option A)}
      → p < n
      → Prefix n p new a
      → Gives (Prefix n (suc p) new) (write a p new)
  write-Prefix {n} {p} {new} {a} h q =
      let inside : p < length a = grind (arith, q.size) in
      (
        set a p (some new),
        write-some a p new inside,
        record {
          size = length-set a p (some new) ∙ q.size;
          cells = λ k l. next-cell a p k new inside q.cells l;
        },
      )

  pub write-Halves :
      {n p : ℕ} {new old : A} {a : List (Option A)}
      → p < n
      → Halves n p new old a
      → Gives (Halves n (suc p) new old) (write a p new)
  write-Halves {n} {p} {new} {old} {a} h q =
      let inside : p < length a = grind (arith, q.size) in
      (
        set a p (some new),
        write-some a p new inside,
        record {
          size = length-set a p (some new) ∙ q.size;
          cells = λ k l. next-cell a p k new inside q.cells l;
          others = λ k l m.
              read-set_ne a p k new (λ e. absurd (grind arith)) ∙ q.others k (omega arith) m;
        },
      )

  pub fresh-Prefix : (n : ℕ) (v : A) → Prefix n 0 v (replicate n none)
  fresh-Prefix n v = record { size = length-replicate n none; cells = λ k l. absurd (omega arith) }
