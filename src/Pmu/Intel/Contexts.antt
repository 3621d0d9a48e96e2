-- ===== src/Pmu/Intel/Contexts.antt =====
-- What `arch_pmu_init` and `arch_pmu_free` for x86_64 come to: the counters in use, and the contexts
-- of libjevents.
use hwvar.Base.{
  ap₂, ℕ, zero, suc, ◌+◌, ◌≤◌, Bool, true, false, not, Option, none, List, [], ◌∷◌, ◌≡◌, refl, ap,
  sym, ◌∙◌, arith, if◌then◌else◌, ltb, length, get_elem?, if_then, if_else,
}
use hwvar.Pmu.Events.{Ending, returned, exit_failure}
use hwvar.Pmu.Intel.Machine.{jevents, mck, Build, Os, Cpu, Pmu}
use hwvar.Pmu.Intel.Setup.{
  blank, add_events, start_global, prepare, arch_pmu_init, free_slots, arch_pmu_free,
}
use hwvar.Pmu.Intel.Slots.{installed, add_events-Added, placed, placed-lt}

-- The methods that the file selects.
abbrev pub as_it_stands : Build
as_it_stands = record { on_linux = jevents; on_mckernel = mck }

length-installed :
    (b : Build) (os : Os) (m : Bool) (slot : ℕ) (names : List (List ℕ))
    → length (installed b os m slot names) ≤ length names
unfolding installed
length-installed b os m slot [] = omega arith
length-installed b os m slot (n ∷ ns) =
    ground (arith, length-installed b os m slot ns, length-installed b os m (slot + 1) ns)

prepare-eq :
    (b : Build) (os : Os) (m : Bool) (c c' : Cpu) (p : Pmu)
    → prepare b os m c ≡ returned (p, c')
    → (p.active ≡ 0) × (p.mckernel ≡ m)
unfolding prepare
prepare-eq b os m c c' p e = ground arith

start_global-active : (b : Build) (s : Pmu × Cpu) → (start_global b s).0.active ≡ s.0.active
unfolding start_global
start_global-active b (p, c) = ground arith

returned_inj : (s t : Pmu × Cpu) → returned s ≡ returned t → s ≡ t
returned_inj s t e = cc

prepared-active :
    (b : Build) (os : Os) (m : Bool) (pmcs : List (List ℕ)) (p q : Pmu) (c c' d : Cpu)
    → prepare b os m c ≡ returned (q, d)
    → returned (start_global b (add_events b os 0 pmcs (q, d))) ≡ returned (p, c')
    → p.active ≡ length (installed b os m 0 pmcs)
prepared-active b os m pmcs p q c c' d e f =
    let (zero', same) = prepare-eq b os m c d q e in
    let s = add_events b os 0 pmcs (q, d) in
    let start = ap (λ s. s.0.active) (returned_inj (start_global b s) (p, c') f) in
    let counted : s.0.active ≡ q.active + length (installed b os q.mckernel q.active pmcs) =
      (add_events-Added b os 0 pmcs q d).active in
    sym start
    ∙ start_global-active b s
    ∙ counted
    ∙ ap₂ (λ n m'. n + length (installed b os m' n pmcs)) zero' same
    ∙ omega arith

-- Where `prepare` ends the program, nothing is returned.
ending-active :
    (b : Build) (os : Os) (m : Bool) (pmcs : List (List ℕ)) (p : Pmu) (c c' : Cpu)
    (o : Ending (Pmu × Cpu))
    → prepare b os m c ≡ o
    → elim o [
      | exit_failure ↦ exit_failure
      | returned s ↦ returned (start_global b (add_events b os 0 pmcs s))
    ]
      ≡ returned (p, c')
    → p.active ≡ length (installed b os m 0 pmcs)
ending-active b os m pmcs p c c' exit_failure e f = cc
ending-active b os m pmcs p c c' (returned (q, d)) e f = prepared-active b os m pmcs p q c c' d e f

-- On Linux or McKernel, by whichever methods: where `arch_pmu_init` returns, the counters in use
-- are as many as the names of events that resolve and that the method takes, and so at most as many
-- as were asked for.
pub arch_pmu_init-active :
    (b : Build) (os : Os) (mckernel : Bool) (pmcs : List (List ℕ)) (p : Pmu) (c c' : Cpu)
    → arch_pmu_init b os mckernel pmcs c ≡ returned (p, c')
    → (p.active ≡ length (installed b os mckernel 0 pmcs)) × (p.active ≤ length pmcs)
unfolding arch_pmu_init
arch_pmu_init-active b os m pmcs p c c' e =
    let counted = ending-active b os m pmcs p c c' (prepare b os m c) refl e in
    (counted, omega (arith, counted, length-installed b os m 0 pmcs))

-- As the file stands, on Linux.
pub arch_pmu_init-contexts :
    (os : Os) (pmcs : List (List ℕ)) (c : Cpu) (k : ℕ)
    → let ts = installed as_it_stands os false 0 pmcs in
      (p : Pmu) × (c' : Cpu) × (arch_pmu_init as_it_stands os false pmcs c ≡ returned (p, c'))
      × (p.active ≡ length ts)
      × (p.mckernel ≡ false)
      × (c'.contexts k ≡ (if ltb k (length ts) then get_elem? ts k else c.contexts k))
unfolding arch_pmu_init prepare start_global
arch_pmu_init-contexts os pmcs c k =
    let q = record (blank os false false) { global_ctrl = os.garbage } in
    let s = add_events as_it_stands os 0 pmcs (q, c) in
    let ts = installed as_it_stands os false 0 pmcs in
    let h = add_events-Added as_it_stands os 0 pmcs q c in
    let here : s.1.contexts k ≡ placed ts 0 c.contexts k = ap (λ f. f k) (h.contexts refl refl) in
    let linux : s.0.mckernel ≡ false = h.mckernel in
    let shift : placed ts 0 c.contexts k ≡ placed ts 0 c.contexts (0 + k) =
      ap (placed ts 0 c.contexts) (omega arith) in
    let base : (if ltb k (length ts) then get_elem? ts k else c.contexts (0 + k))
        ≡ (if ltb k (length ts) then get_elem? ts k else c.contexts k) =
      ap (λ m. if ltb k (length ts) then get_elem? ts k else c.contexts m) (omega arith) in
    (
      s.0,
      s.1,
      ap returned (if_else _ linux),
      h.active ∙ omega arith,
      linux,
      here ∙ shift ∙ placed-lt ts 0 c.contexts k ∙ base,
    )

free_slots-contexts :
    (b : Build) (p : Pmu) (left i k : ℕ) (c : Cpu)
    → b.on_linux ≡ jevents
    → (free_slots b p left i c).contexts k
      ≡ (if ltb k i then c.contexts k else if ltb k (i + left) then none else c.contexts k)
unfolding free_slots
free_slots-contexts b p zero i k c e = ground arith
free_slots-contexts b p (suc left) i k c e =
    free_slots-contexts b p left (i + 1) k _ e ∙ ground arith

pub arch_pmu_free-contexts :
    (p : Pmu) (c : Cpu) (k : ℕ)
    → p.mckernel ≡ false
    → (arch_pmu_free as_it_stands p c).contexts k ≡ (if ltb k p.active then none else c.contexts k)
unfolding arch_pmu_free
arch_pmu_free-contexts p c k linux =
    ap (λ (d : Cpu). d.contexts k) (if_then _ (ap not linux))
    ∙ free_slots-contexts as_it_stands p p.active 0 k c refl
    ∙ ground arith

pub if_again :
    (b : Bool) (x y : Option ℕ) → (if b then none else if b then x else y) ≡ (if b then none else y)
if_again true x y = refl
if_again false x y = refl

-- As the file stands, on Linux: `arch_pmu_init` returns, and the slots in use hold the contexts of
-- the events that resolve and open, in the order of their names, the other slots being as they were;
-- and `arch_pmu_free` closes exactly the slots in use.
pub arch_pmu_free-init :
    (os : Os) (pmcs : List (List ℕ)) (c : Cpu) (k : ℕ)
    → let ts = installed as_it_stands os false 0 pmcs in
      (p : Pmu) × (c' : Cpu) × (arch_pmu_init as_it_stands os false pmcs c ≡ returned (p, c'))
      × (p.active ≡ length ts)
      × (c'.contexts k ≡ (if ltb k (length ts) then get_elem? ts k else c.contexts k))
      × ((arch_pmu_free as_it_stands p c').contexts k
          ≡ (if ltb k (length ts) then none else c.contexts k))
arch_pmu_free-init os pmcs c k =
    let (p, c', run, counted, linux, here) = arch_pmu_init-contexts os pmcs c k in
    let ts = installed as_it_stands os false 0 pmcs in
    let closed = arch_pmu_free-contexts p c' k linux in
    (
      p,
      c',
      run,
      counted,
      here,
      closed
          ∙ ap₂ (λ n o. if ltb k n then none else o) counted here
          ∙ if_again (ltb k (length ts)) _ _,
    )
