-- ===== src/Pmu/Intel/Slots.antt =====
-- Which events get a slot on x86_64, and that their contexts are given back.
use mathlib.Core.Path.{subst₂}
use hwvar.Base.{
  ap₂, ℕ, zero, suc, ◌+◌, ◌<◌, Bool, true, false, Option, none, some, List, [], ◌∷◌, ◌≡◌, refl, ap,
  sym, ◌∙◌, arith, if◌then◌else◌, ltb, length, get_elem?, Option-cases, inl, inr,
}
use hwvar.Pmu.Events.{set_at}
use hwvar.Pmu.Intel.Machine.{jevents, perf, mck, Build, Os, Cpu, Pmu}
use hwvar.Pmu.Intel.Setup.{configure, next_slot, accept, add_event, add_events}

-- Whether an event gets the next slot.
unfoldable pub accepts : Build → Os → Bool → ℕ → ℕ → Bool
accepts b os mckernel slot config =
    if mckernel
    then elim b.on_mckernel [ mck ↦ os.mck_inits slot config | _ ↦ true ]
    else elim b.on_linux [
      | jevents ↦ os.rdpmc_opens slot config
      | perf ↦ elim (os.perf_event_open config) [ none ↦ false | some fd ↦ true ]
      | _ ↦ true
    ]

-- The configurations that get the slots from `slot` on.
unfoldable pub installed : Build → Os → Bool → ℕ → List (List ℕ) → List ℕ
unfolding accepts
installed b os mckernel slot [] = []
installed b os mckernel slot (n ∷ ns) = elim (os.resolve_event n) [
  | none ↦ installed b os mckernel slot ns
  | some config ↦ elim (accepts b os mckernel slot config) [
    | true ↦ config ∷ installed b os mckernel (slot + 1) ns
    | false ↦ installed b os mckernel slot ns
  ]
]

-- What the loop over the names leaves alone.
record Kept (p p' : Pmu) : Type 0 where
  active : p'.active ≡ p.active
  pub mckernel : p'.mckernel ≡ p.mckernel
  has_msr : p'.has_msr ≡ p.has_msr
  global_ctrl : p'.global_ctrl ≡ p.global_ctrl

configure-none :
    (b : Build) (os : Os) (i config : ℕ) (p : Pmu) (c : Cpu)
    → configure b os i config (p, c) ≡ none
    → accepts b os p.mckernel p.active config ≡ false
unfolding configure accepts
configure-none b os i config p c e = ground arith

configure-some :
    (b : Build) (os : Os) (i config : ℕ) (p p' : Pmu) (c c' : Cpu)
    → configure b os i config (p, c) ≡ some (p', c')
    → (accepts b os p.mckernel p.active config ≡ true) × Kept p p'
unfolding configure accepts
configure-some b os i config p p' c c' e = ground arith

configure-contexts :
    (b : Build) (os : Os) (i config : ℕ) (p p' : Pmu) (c c' : Cpu)
    → b.on_linux ≡ jevents
    → p.mckernel ≡ false
    → configure b os i config (p, c) ≡ some (p', c')
    → c'.contexts ≡ set_at c.contexts p.active (some config)
unfolding configure
configure-contexts b os i config p p' c c' l m e = ground arith

-- Slots that are filled from `n` on.
unfoldable pub placed : List ℕ → ℕ → (ℕ → Option ℕ) → ℕ → Option ℕ
placed [] n f = f
placed (t ∷ ts) n f = placed ts (n + 1) (set_at f n (some t))

placed-outside : (ts : List ℕ) (n : ℕ) (f : ℕ → Option ℕ) (k : ℕ) → k < n → placed ts n f k ≡ f k
unfolding placed
placed-outside [] n f k h = refl
placed-outside (t ∷ ts) n f k h = placed-outside ts (n + 1) _ k (omega arith) ∙ ground arith

pub placed-lt :
    (ts : List ℕ) (n : ℕ) (f : ℕ → Option ℕ) (k : ℕ)
    → placed ts n f (n + k) ≡ (if ltb k (length ts) then get_elem? ts k else f (n + k))
unfolding placed
placed-lt [] n f k = ground arith
placed-lt (t ∷ ts) n f zero = placed-outside ts (n + 1) _ (n + 0) (omega arith) ∙ ground arith
placed-lt (t ∷ ts) n f (suc k) =
    ap (placed ts (n + 1) _) (omega arith) ∙ placed-lt ts (n + 1) _ k ∙ after
  where
    after :
        (if ltb k (length ts) then get_elem? ts k else set_at f n (some t) (n + 1 + k))
        ≡ (if ltb (suc k) (suc (length ts)) then get_elem? ts k else f (n + suc k))
    after = ground (arith, ap f (let e : n + 1 + k ≡ n + suc k = omega arith in e))

-- What the loop over the names comes to, for the events `ts` that get a slot.
pub record Added (b : Build) (ts : List ℕ) (p p' : Pmu) (c c' : Cpu) : Type 0 where
  pub active : p'.active ≡ p.active + length ts
  pub mckernel : p'.mckernel ≡ p.mckernel
  pub contexts :
      b.on_linux ≡ jevents → p.mckernel ≡ false → c'.contexts ≡ placed ts p.active c.contexts

installed-unknown :
    (b : Build) (os : Os) (m : Bool) (slot : ℕ) (n : List ℕ) (ns : List (List ℕ))
    → os.resolve_event n ≡ none
    → installed b os m slot (n ∷ ns) ≡ installed b os m slot ns
unfolding installed
installed-unknown b os m slot n ns e = rw (installed, e) refl

installed-refused :
    (b : Build) (os : Os) (m : Bool) (slot config : ℕ) (n : List ℕ) (ns : List (List ℕ))
    → os.resolve_event n ≡ some config
    → accepts b os m slot config ≡ false
    → installed b os m slot (n ∷ ns) ≡ installed b os m slot ns
unfolding installed
installed-refused b os m slot config n ns e h = rw (installed, e, h) refl

installed-accepted :
    (b : Build) (os : Os) (m : Bool) (slot config : ℕ) (n : List ℕ) (ns : List (List ℕ))
    → os.resolve_event n ≡ some config
    → accepts b os m slot config ≡ true
    → installed b os m slot (n ∷ ns) ≡ config ∷ installed b os m (slot + 1) ns
unfolding installed
installed-accepted b os m slot config n ns e h = rw (installed, e, h) refl

Added-nil :
    (b : Build) (os : Os) (p : Pmu) (c : Cpu)
    → Added b (installed b os p.mckernel p.active []) p p c c
unfolding installed placed
Added-nil b os p c = record { active = omega arith; mckernel = refl; contexts = λ l m. refl }

-- The event that was added comes first.
Added-next :
    (b : Build) (os : Os) (i config : ℕ) (ts : List ℕ) (p p' : Pmu) (c c' : Cpu) (s : Pmu × Cpu)
    → configure b os i config (p, c) ≡ some (p', c')
    → Kept p p'
    → Added b ts (next_slot (p', c')).0 s.0 c' s.1
    → Added b (config ∷ ts) p s.0 c s.1
unfolding placed
Added-next b os i config ts p p' c c' s done kept h = record {
  active = omega (arith, h.active, kept.active);
  mckernel = h.mckernel ∙ kept.mckernel;
  contexts = λ l m.
      h.contexts l (kept.mckernel ∙ m)
      ∙ ap₂ (λ n f. placed ts (n + 1) f) kept.active
          (configure-contexts b os i config p p' c c' l m done);
}

Added-move :
    (b : Build) (ts ts' : List ℕ) (p : Pmu) (c : Cpu) (s s' : Pmu × Cpu)
    → ts ≡ ts'
    → s ≡ s'
    → Added b ts p s.0 c s.1
    → Added b ts' p s'.0 c s'.1
Added-move b ts ts' p c s s' e f h = subst₂ (λ ts s. Added b ts p s.0 c s.1) e f h

pub add_events-Added :
    (b : Build) (os : Os) (i : ℕ) (names : List (List ℕ)) (p : Pmu) (c : Cpu)
    → let s = add_events b os i names (p, c) in
      Added b (installed b os p.mckernel p.active names) p s.0 c s.1
unfolding add_events
add_events-Added b os i [] p c = Added-nil b os p c
add_events-Added b os i (n ∷ ns) p c =
    let later = λ (s : Pmu × Cpu). add_events b os (i + 1) ns s in
    elim (Option-cases (os.resolve_event n)) [
      | inl unknown ↦
          Added-move b _ _ p c _ _ (sym (installed-unknown b os p.mckernel p.active n ns unknown))
            (ap (λ o. later (add_event b os i o (p, c))) (sym unknown))
            (add_events-Added b os (i + 1) ns p c)
      | inr (config, known) ↦ elim (Option-cases (configure b os i config (p, c))) [
        | inl refused ↦
            Added-move b _ _ p c _ _
              (sym (
                installed-refused b os p.mckernel p.active config n ns known
                  (configure-none b os i config p c refused)))
              (ap (λ o. later (accept (p, c) o)) (sym refused)
                ∙ ap (λ o. later (add_event b os i o (p, c))) (sym known))
              (add_events-Added b os (i + 1) ns p c)
        | inr ((p', c'), done) ↦
            let (fits, kept) = configure-some b os i config p p' c c' done in
            Added-move b _ _ p c _ _
              (ap₂ (λ m a. config ∷ installed b os m (a + 1) ns) kept.mckernel kept.active
                ∙ sym (installed-accepted b os p.mckernel p.active config n ns known fits))
              (ap (λ o. later (accept (p, c) o)) (sym done)
                ∙ ap (λ o. later (add_event b os i o (p, c))) (sym known))
              (Added-next b os i config _ p p' c c' _ done kept
                (add_events-Added b os (i + 1) ns (next_slot (p', c')).0 c'))
      ]
    ]
