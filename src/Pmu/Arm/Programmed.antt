-- ===== src/Pmu/Arm/Programmed.antt =====
-- What `arch_pmu_init` leaves in the registers of aarch64.
use mathlib.Core.Option.{some_inj}
use hwvar.Base.{
  ℕ, zero, suc, ◌+◌, ◌%◌, ◌^◌, ◌≤◌, ◌<◌, true, false, none, some, List, [], ◌∷◌, ◌≡◌, refl, ap, sym,
  ◌∙◌, arith, if◌then◌else◌, ◌==◌, ltb, length, take, get_elem?, Option-cases, inl, inr, if_then,
  if_else, ◌⊎◌,
}
use hwvar.Pmu.Events.{set_at, returned}
use hwvar.Pmu.Arm.{
  Registers, str2type, program, program_one, enable_all, num_counters, arch_pmu_init,
}

-- The types of the events that names name.
unfoldable pub known : List (List ℕ) → List ℕ
known [] = []
known (n ∷ ns) = elim (str2type n) [ none ↦ known ns | some t ↦ t ∷ known ns ]

-- The types of the events that get a counter: unknown names get none, but take one from the others
-- all the same.
unfoldable pub chosen : List (List ℕ) → ℕ → List ℕ
unfolding known
chosen pmcs counters = known (take counters pmcs)

length-known : (ns : List (List ℕ)) → length (known ns) ≤ length ns
unfolding known
length-known [] = omega arith
length-known (n ∷ ns) = ground (arith, length-known ns)

length-take :
    (c : ℕ) (ns : List (List ℕ)) → (length (take c ns) ≤ c) × (length (take c ns) ≤ length ns)
length-take zero ns = (omega arith, omega arith)
length-take (suc c) [] = (omega arith, omega arith)
length-take (suc c) (n ∷ ns) = let (a, b) = length-take c ns in (omega arith, omega arith)

-- The counters from `n` on, set to types.
unfoldable fill : List ℕ → ℕ → (ℕ → ℕ) → ℕ → ℕ
fill [] n f = f
fill (t ∷ ts) n f = fill ts (n + 1) (set_at f n (0x8000000 + t % 2 ^ 16))

fill-outside :
    (ts : List ℕ) (n : ℕ) (f : ℕ → ℕ) (k : ℕ) → (k < n) ⊎ (n + length ts ≤ k) → fill ts n f k ≡ f k
unfolding fill
fill-outside [] n f k h = refl
fill-outside (t ∷ ts) n f k (inl h) = fill-outside ts (n + 1) _ k (inl (omega arith)) ∙ ground arith
fill-outside (t ∷ ts) n f k (inr h) = fill-outside ts (n + 1) _ k (inr (omega arith)) ∙ ground arith

fill-inside :
    (ts : List ℕ) (n : ℕ) (f : ℕ → ℕ) (k t : ℕ)
    → get_elem? ts k ≡ some t
    → fill ts n f (n + k) ≡ 0x8000000 + t % 2 ^ 16
unfolding fill
fill-inside [] n f k t e = cc
fill-inside (s ∷ ts) n f zero t e =
    fill-outside ts (n + 1) _ (n + 0) (inl (omega arith)) ∙ ground (arith, some_inj.0 e)
fill-inside (s ∷ ts) n f (suc k) t e =
    ap (fill ts (n + 1) _) (omega arith) ∙ fill-inside ts (n + 1) _ k t e

known-unknown : (n : List ℕ) (ns : List (List ℕ)) → str2type n ≡ none → known (n ∷ ns) ≡ known ns
unfolding known
known-unknown n ns miss = rw (known, miss) refl

known-known :
    (n : List ℕ) (ns : List (List ℕ)) (t : ℕ) → str2type n ≡ some t → known (n ∷ ns) ≡ t ∷ known ns
unfolding known
known-known n ns t hit = rw (known, hit) refl

abbrev filled : ℕ → Registers → ℕ → List ℕ → ℕ × Registers
filled n r s ts = (n + length ts, record r { types = fill ts n r.types; selected = s })

program-fill :
    (ns : List (List ℕ)) (pmc c left n : ℕ) (r : Registers)
    → c ≡ pmc + left
    → (s : ℕ) × (program ns pmc c (n, r) ≡ filled n r s (known (take left ns)))
unfolding program fill known
program-fill [] pmc c zero n r e = (r.selected, ap (λ m. (m, r)) (omega arith))
program-fill [] pmc c (suc left) n r e = (r.selected, ap (λ m. (m, r)) (omega arith))
program-fill (x ∷ ns) pmc c zero n r e =
    let stop : ltb pmc c ≡ false = ground arith in
    (r.selected, if_else _ stop ∙ ap (λ m. (m, r)) (omega arith))
program-fill (x ∷ ns) pmc c (suc left) n r e =
    let go : ltb pmc c ≡ true = ground arith in
    let ks = known (take left ns) in
    elim (Option-cases (str2type x)) [
      | inl miss ↦
          let (s, g) = program-fill ns (pmc + 1) c left n r (omega arith) in
          (
            s,
            if_then _ go
                ∙ ap (λ o. program ns (pmc + 1) c (program_one o (n, r))) miss
                ∙ g
                ∙ ap (filled n r s) (sym (known-unknown x (take left ns) miss)),
          )
      | inr (t, hit) ↦
          let r' = record r { selected = n; types = set_at r.types n (0x8000000 + t % 2 ^ 16) } in
          let (s, g) = program-fill ns (pmc + 1) c left (n + 1) r' (omega arith) in
          (
            s,
            if_then _ go
                ∙ ap (λ o. program ns (pmc + 1) c (program_one o (n, r))) hit
                ∙ g
                ∙ ap (λ m. (m, record r { types = fill (t ∷ ks) n r.types; selected = s }))
                    (omega arith)
                ∙ ap (filled n r s) (sym (known-known x (take left ns) t hit)),
          )
    ]

enable_all-lt :
    (n k : ℕ) (r : Registers) → (enable_all n r).enabled k ≡ (if ltb k n then true else r.enabled k)
unfolding enable_all
enable_all-lt zero k r = ground arith
enable_all-lt (suc n) k r = enable_all-lt n k _ ∙ ground arith

enable_all-types :
    (n : ℕ) (r : Registers)
    → ((enable_all n r).types ≡ r.types) × ((enable_all n r).counts ≡ r.counts)
unfolding enable_all
enable_all-types zero r = (refl, refl)
enable_all-types (suc n) r = enable_all-types n _

-- The counters are set up for the event types `ts`: as many are in use, each has its type and counts,
-- and the other counters are as they were.
pub record Ready (ts : List ℕ) (r r' : Registers) : Type 0 where
  pub typed : (k t : ℕ) → get_elem? ts k ≡ some t → r'.types k ≡ 0x8000000 + t % 2 ^ 16
  pub untyped : (k : ℕ) → length ts ≤ k → r'.types k ≡ r.types k
  pub running : (k : ℕ) → r'.enabled k ≡ (if ltb k (length ts) then true else r.enabled k)
  pub kept : r'.counts ≡ r.counts

-- With the counters switched on, `arch_pmu_init` returns: it uses as many counters as it finds known
-- events among the names that there are counters for, at most as many as it was asked for and as the
-- machine has, and sets them up for these events in the order of the names.
pub arch_pmu_init-Ready :
    (pmcs : List (List ℕ)) (r : Registers)
    → r.pmcr % 2 ≡ 1
    → let ts = chosen pmcs (num_counters r) in
      (r' : Registers) × (arch_pmu_init pmcs r ≡ returned (length ts, r'))
      × Ready ts r r'
      × (length ts ≤ length pmcs)
      × (length ts ≤ num_counters r)
unfolding arch_pmu_init chosen
arch_pmu_init-Ready pmcs r on =
    let c = num_counters r in
    let ts = known (take c pmcs) in
    let (s, g) = program-fill pmcs 0 c c 0 r (omega arith) in
    let r' = record r { types = fill ts 0 r.types; selected = s } in
    let start : program pmcs 0 c (0, r) ≡ (length ts, r') = g ∙ ap (λ m. (m, r')) (omega arith) in
    let switched : (r.pmcr % 2 == 0) ≡ false = ground arith in
    let (types, counts) = enable_all-types (length ts) r' in
    let (few, fewer) = length-take c pmcs in
    (
      enable_all (length ts) r',
      if_else _ switched ∙ ap (λ p. returned (p.0, enable_all p.0 p.1)) start,
      record {
        typed = λ k t e.
            ap (λ f. f k) types
            ∙ ap (fill ts 0 r.types) (omega arith)
            ∙ fill-inside ts 0 r.types k t e;
        untyped = λ k h. ap (λ f. f k) types ∙ fill-outside ts 0 r.types k (inr (omega arith));
        running = λ k. enable_all-lt (length ts) k r';
        kept = counts;
      },
      omega (arith, length-known (take c pmcs)),
      omega (arith, length-known (take c pmcs)),
    )
