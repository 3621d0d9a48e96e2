-- ===== src/Binding/Reported.antt =====
-- What the report of `bind_thread` is worth.
use hwvar.Base.{
  ℕ, zero, suc, ◌+◌, ◌<◌, Bool, leb, true, false, ◌&&◌, ◌||◌, if◌then◌else◌, ◌==◌, ltb, ◌≡◌, refl,
  ap, sym, ◌∙◌, arith, some, Bool-cases, ==_iff, if_then, ◌⊎◌, inl, inr,
}
use hwvar.Mailbox
use hwvar.Mailbox.{Arg}
use hwvar.Binding.{
  Bitmaps, Request, Report, hwloc_set_cpubind, sched_setaffinity, thread_bound, target_differs,
  Host, or_else, current_cpuset_hwloc, current_cpu_hwloc, cpuset_of, add_set,
  current_cpuset_getaffinity, current_cpu_getaffinity, is_bound, bind_thread,
}

-- What the manual of hwloc says of its bitmaps, where `has` tells the members.
pub record Laws (hwloc : Bitmaps) (has : hwloc.Bitmap → ℕ → Bool) : Type 0 where
  pub has-empty : (k : ℕ) → has hwloc.empty k ≡ false
  pub has-add : (b : hwloc.Bitmap) (n k : ℕ) → has (hwloc.add b n) k ≡ ((n == k) || has b k)
  pub has-is_equal : (a b : hwloc.Bitmap) (k : ℕ) → hwloc.is_equal a b ≡ true → has a k ≡ has b k

and_true : (b : Bool) → (b && true) ≡ b
and_true true = refl
and_true false = refl

and_false : (b : Bool) → (b && false) ≡ false
and_false true = refl
and_false false = refl

or_false : (b : Bool) → (b || false) ≡ b
or_false true = refl
or_false false = refl

all_four :
    (a b c d : Bool) → (a && b && c && d) ≡ true → (a ≡ true) × (b ≡ true) × (c ≡ true) × (d ≡ true)
all_four true true true true e = (refl, refl, refl, refl)
all_four true true true false e = cc
all_four true true false d e = cc
all_four true false c d e = cc
all_four false b c d e = cc

module _ (hwloc : Bitmaps) (has : hwloc.Bitmap → ℕ → Bool) (laws : Laws hwloc has) where
  open hwloc use {Bitmap}

  add_if :
      (b : Bool) (ret : Bitmap) (n k : ℕ)
      → has (if b then hwloc.add ret n else ret) k ≡ ((b && n == k) || has ret k)
  add_if true ret n k = laws.has-add ret n k
  add_if false ret n k = refl

  -- The loop adds those of the processors that it visits which the kernel allows.
  has-add_set :
      (cpuset : ℕ → Bool) (left cpu : ℕ) (ret : Bitmap) (k : ℕ)
      → has (add_set hwloc cpuset left cpu ret) k
        ≡ ((leb cpu k && ltb k (cpu + left) && cpuset k) || has ret k)
  unfolding add_set
  has-add_set cpuset zero cpu ret k = elim (Bool-cases (leb cpu k)) [
    | inl from ↦ let past : ltb k (cpu + 0) ≡ false = ground arith in rw (from, past) refl
    | inr before ↦ rw before refl
  ]
  has-add_set cpuset (suc left) cpu ret k =
      let rest =
        has-add_set cpuset left (cpu + 1) (if cpuset cpu then hwloc.add ret cpu else ret) k in
      let here = add_if (cpuset cpu) ret cpu k in
      rest
      ∙ ap (λ b. (leb (cpu + 1) k && ltb k (cpu + 1 + left) && cpuset k) || b) here
      ∙ visit k cpu left (cpuset) (has ret k)
    where
      visit :
          (k cpu left : ℕ) (set : ℕ → Bool) (b : Bool)
          → ((leb (cpu + 1) k && ltb k (cpu + 1 + left) && set k) || ((set cpu && cpu == k) || b))
            ≡ ((leb cpu k && ltb k (cpu + suc left) && set k) || b)
      visit k cpu left set b = elim (Bool-cases (cpu == k)) [
        | inl e ↦
            let later : leb (cpu + 1) k ≡ false = ground arith in
            let now : leb cpu k ≡ true = ground arith in
            let within : ltb k (cpu + suc left) ≡ true = ground arith in
            let same : cpu ≡ k = ground arith in
            rw (later, now, within, e, ap set same) (ap (λ c. c || b) (and_true (set k)))
        | inr ne ↦
            let later : leb (cpu + 1) k ≡ leb cpu k = ground arith in
            let within : ltb k (cpu + 1 + left) ≡ ltb k (cpu + suc left) = ground arith in
            rw (later, within, ne)
              (ap (λ c. (leb cpu k && ltb k (cpu + suc left) && set k) || (c || b))
                (and_false (set cpu)))
      ]

  current_cpuset_getaffinity-has :
      (h : Host hwloc) (k : ℕ)
      → has (current_cpuset_getaffinity hwloc h) k ≡ (ltb k h.setsize && cpuset_of hwloc h k)
  unfolding current_cpuset_getaffinity
  current_cpuset_getaffinity-has h k =
      let from : leb 0 k ≡ true = ground arith in
      let size : 0 + h.setsize ≡ h.setsize = omega arith in
      has-add_set (cpuset_of hwloc h) h.setsize 0 hwloc.empty k
      ∙ rw (from, size, laws.has-empty k) (or_false (ltb k h.setsize && cpuset_of hwloc h k))

  -- What a thread that is bound knows, where the kernel says that it may run on `on`.
  pub record BoundTo (h : Host hwloc) (on : ℕ → Bool) (cpu : ℕ) : Type 0 where
    pub allowed : (k : ℕ) → k < h.setsize → on k ≡ (cpu == k)
    pub runs_on : current_cpu_getaffinity hwloc h ≡ cpu
    pub seen_on : (h.is_mckernel ≡ true) ⊎ (current_cpu_hwloc hwloc h ≡ cpu)

  is_bound-BoundTo :
      (h : Host hwloc) (on : ℕ → Bool) (cpuset : Bitmap) (cpu : ℕ)
      → h.sched_getaffinity ≡ some on
      → ((k : ℕ) → has cpuset k ≡ (cpu == k))
      → is_bound hwloc h cpuset cpu ≡ true
      → BoundTo h on cpu
  unfolding is_bound
  is_bound-BoundTo h on cpuset cpu known single e =
      let (seen, at, same, here) =
        all_four (hwloc.is_equal cpuset (current_cpuset_hwloc hwloc h))
          (h.is_mckernel || (cpu == current_cpu_hwloc hwloc h))
          (hwloc.is_equal cpuset (current_cpuset_getaffinity hwloc h))
          (cpu == current_cpu_getaffinity hwloc h) e in
      record {
        allowed = λ k l.
            let inside : ltb k h.setsize ≡ true = ground arith in
            sym (ap (λ o. or_else hwloc h.unset o k) known)
            ∙ ap (λ b. b && cpuset_of hwloc h k) (sym inside)
            ∙ sym (current_cpuset_getaffinity-has h k)
            ∙ sym (laws.has-is_equal cpuset (current_cpuset_getaffinity hwloc h) k same)
            ∙ single k;
        runs_on = sym ((==_iff cpu (current_cpu_getaffinity hwloc h)).0 here);
        seen_on = elim (Bool-cases h.is_mckernel) [
          | inl e ↦ inl e
          | inr linux ↦
              let seen_at = ap (λ b. b || (cpu == current_cpu_hwloc hwloc h)) (sym linux) ∙ at in
              inr (sym ((==_iff cpu (current_cpu_hwloc hwloc h)).0 seen_at))
        ];
      }

  reported-is_bound :
      (b : Bool) → (if b then thread_bound else target_differs) ≡ thread_bound → b ≡ true
  reported-is_bound true e = refl
  reported-is_bound false e = cc

  -- For a thread with binding on whose set is one processor, as `spawn_workers` makes it, and bitmaps
  -- that do what the manual of hwloc says: where `sched_getaffinity` succeeds and `bind_thread` reports
  -- that the thread is bound, the kernel lets it run on this processor and on no other below
  -- CPU_SETSIZE, it runs there, and hwloc
  -- sees it there unless this is McKernel. The request went to hwloc on this system, else to the
  -- kernel for this processor, and the argument is not changed.
  pub bind_thread-BoundTo :
      (h : Host hwloc) (on : ℕ → Bool) (cpuset : Bitmap) (a : Arg)
      → h.sched_getaffinity ≡ some on
      → ((k : ℕ) → has cpuset k ≡ (a.cpu == k))
      → a.do_binding ≡ true
      → (bind_thread hwloc h cpuset a).1 ≡ thread_bound
      → BoundTo h on a.cpu
        × ((bind_thread hwloc h cpuset a).0
            ≡ (if h.is_thissystem then hwloc_set_cpubind else sched_setaffinity a.cpu))
        × ((bind_thread hwloc h cpuset a).2 ≡ a)
  unfolding bind_thread
  bind_thread-BoundTo h on cpuset a known single binding reported =
      let report = sym (ap (λ (o : Request × Report × Arg). o.1) (if_then _ binding)) ∙ reported in
      (
        is_bound-BoundTo h on cpuset a.cpu known single
            (reported-is_bound (is_bound hwloc h cpuset a.cpu) report),
        ap (λ (o : Request × Report × Arg). o.0) (if_then _ binding),
        ap (λ (o : Request × Report × Arg). o.2) (if_then _ binding),
      )

  -- The argument after `bind_thread` is that of the mailbox's model, which knows only the processor
  -- that the thread runs on.
  bind_thread-arg :
      (h : Host hwloc) (cpuset : Bitmap) (a : Arg)
      → (bind_thread hwloc h cpuset a).2 ≡ Mailbox.bind_thread a (current_cpu_getaffinity hwloc h)
  unfolding bind_thread Mailbox.bind_thread
  bind_thread-arg h cpuset a = elim (Bool-cases a.do_binding) [
    | inl on ↦ rw on refl
    | inr off ↦ rw off refl
  ]
