-- ===== src/Spawn/Workers.antt =====
-- The workers that `spawn_workers` makes.
use mathlib.Core.Path.{subst}
use hwvar.Base.{
  ℕ, zero, suc, ◌+◌, ◌-◌, ◌≤◌, ◌<◌, Bool, true, false, some, not, ◌&&◌, Option, List, [], ◌∷◌, ◌≡◌,
  refl, arith, length, ltb, ◌==◌, Option-cases, Bool-cases, inl, inr, ==_iff,
}
use hwvar.Mailbox.{Arg}
use hwvar.Spawn.{
  Bitmaps, Spawned, spawned, put_first, worker_arg, check_weight, spawn_loop, spawn_workers,
}
use hwvar.Runner.Each.{Idle, All, Ready}

-- The mailboxes are numbered from `i` on, at rest, and number 0 alone is the dirigent's.
abbrev pub Numbered : ℕ → List Arg → Type 0
Numbered i [] = Unit
Numbered i (a ∷ as') = (a.thread ≡ i) × Idle (i == 0) a × Numbered (i + 1) as'

module _ (hwloc : Bitmaps) (obj : ℕ → Option (hwloc.Bitmap)) (created memory : ℕ → Bool)
    (do_binding : Bool) (cpuset : hwloc.Bitmap) where
  -- The processor of a worker is that of the set of an object, cut to one processor, which is part of
  -- the set asked for.
  abbrev pub Picked : Arg → Type 0
  Picked a =
      (c : hwloc.Bitmap) × (hwloc.is_included (hwloc.singlify c) cpuset ≡ true)
      × (hwloc.first (hwloc.singlify c) ≡ some a.cpu)

  -- The set with the processors of the workers added.
  abbrev pub added : List Arg → hwloc.Bitmap → hwloc.Bitmap
  added [] b = b
  added (a ∷ as') b = added as' (hwloc.add b a.cpu)

  -- Whatever workers there are, they are numbered from `i` on, and at most `left`; each has a processor
  -- of the set asked for, which is in the set that began as `b`.
  abbrev pub Sound : ℕ → ℕ → hwloc.Bitmap → Spawned (hwloc.Bitmap) → Type 0
  Sound i left b (spawned as' c) =
      Numbered i as' × (length as' ≤ left) × All Picked as' × (c ≡ added as' b)
  Sound i left b s = Unit

  Sound-suc :
      (i left : ℕ) (b : hwloc.Bitmap) (s : Spawned (hwloc.Bitmap))
      → Sound i left b s
      → Sound i (suc left) b s
  Sound-suc i left b (spawned as' c) h = (h.0, omega (arith, h.1), h.2, h.3)
  Sound-suc i left b s h = tt

  Sound-put_first :
      (i left cpunum : ℕ) (b c : hwloc.Bitmap) (s : Spawned (hwloc.Bitmap))
      → hwloc.is_included (hwloc.singlify c) cpuset ≡ true
      → hwloc.first (hwloc.singlify c) ≡ some cpunum
      → Sound (i + 1) left (hwloc.add b cpunum) s
      → Sound i
          (suc left)
          b
          (put_first hwloc (worker_arg hwloc obj created memory do_binding cpuset i cpunum) s)
  Sound-put_first i left cpunum b c (spawned as' d) inside here h =
      ((refl, ground arith, h.0), omega (arith, h.1), ((c, inside, here), h.2), h.3)
  Sound-put_first i left cpunum b c s inside here h = tt

  spawn_loop-Sound :
      (left pu i : ℕ) (b : hwloc.Bitmap)
      → Sound i left b (spawn_loop hwloc obj created memory do_binding cpuset left pu i b)
  unfolding spawn_loop
  spawn_loop-Sound zero pu i b = (tt, omega arith, tt, refl)
  spawn_loop-Sound (suc left) pu i b = elim (Option-cases (obj pu)) [
    | inl e ↦ rw (e, Sound) tt
    | inr (c, e) ↦
        rw (e, Sound)
          (elim (Bool-cases (hwloc.is_included (hwloc.singlify c) cpuset)) [
            | inr f ↦
                rw (f, Sound)
                  (Sound-suc i left b
                    (spawn_loop hwloc obj created memory do_binding cpuset left (pu + 1) i b)
                    (spawn_loop-Sound left (pu + 1) i b))
            | inl f ↦
                rw (f, Sound)
                  (elim (Option-cases (hwloc.first (hwloc.singlify c))) [
                    | inl g ↦ rw (g, Sound) tt
                    | inr (n, g) ↦
                        rw (g, Sound)
                          (elim (Bool-cases (ltb 0 i && not (created i))) [
                            | inl h ↦ rw (h, Sound) tt
                            | inr h ↦
                                rw (h, Sound)
                                  (Sound-put_first i left n b c
                                    (spawn_loop hwloc obj created memory do_binding cpuset left
                                      (pu + 1) (i + 1) (hwloc.add b n))
                                    f g (spawn_loop-Sound left (pu + 1) (i + 1) (hwloc.add b n)))
                          ])
                  ])
          ])
  ]

Numbered-All : (i : ℕ) (as' : List Arg) → 0 < i → Numbered i as' → All (Idle false) as'
Numbered-All i [] pos h = tt
Numbered-All i (a ∷ as') pos h =
    let e : (i == 0) ≡ false = ground arith in
    (subst (λ d. Idle d a) e h.1, Numbered-All (i + 1) as' (omega arith) h.2)

Numbered-Ready : (as' : List Arg) → 0 < length as' → Numbered 0 as' → Ready (length as' - 1) as'
Numbered-Ready [] pos h = absurd (omega arith)
Numbered-Ready (a ∷ as') pos h = (h.1, Numbered-All 1 as' (omega arith) h.2, omega arith)

module _ (hwloc : Bitmaps) (obj : ℕ → Option (hwloc.Bitmap)) (created memory : ℕ → Bool)
    (do_binding : Bool) (cpuset : hwloc.Bitmap) where
  -- What `spawn_workers` hands over: the workers are numbered in order, at rest, and the first alone
  -- is the dirigent; they fit the array that was allocated for them; each has a processor of the set
  -- asked for; and the set made of their processors is as large as the set asked for. If there is a
  -- worker at all, they are ready for a run.
  pub record Workers (num_threads : ℕ) (as' : List Arg) (allocated : hwloc.Bitmap) : Type 0 where
    pub numbered : Numbered 0 as'
    pub in_array : length as' ≤ num_threads
    pub picked : All (Picked hwloc obj created memory do_binding cpuset) as'
    pub made : allocated ≡ added hwloc obj created memory do_binding cpuset as' hwloc.empty
    pub as_large : hwloc.weight allocated ≡ hwloc.weight cpuset
    pub ready : 0 < length as' → Ready (length as' - 1) as'

  abbrev Handed : ℕ → Spawned (hwloc.Bitmap) → Type 0
  Handed num_threads (spawned as' b) = Workers num_threads as' b
  Handed num_threads s = Unit

  check_weight-Handed :
      (n : ℕ) (s : Spawned (hwloc.Bitmap))
      → Sound hwloc obj created memory do_binding cpuset 0 n hwloc.empty s
      → Handed n (check_weight hwloc obj created memory do_binding cpuset s)
  check_weight-Handed n (spawned as' b) h =
      elim (Bool-cases (hwloc.weight b == hwloc.weight cpuset)) [
        | inl e ↦
            rw (e, Handed)
              (record {
                numbered = h.0;
                in_array = h.1;
                picked = h.2;
                made = h.3;
                as_large = (==_iff _ _).0 e;
                ready = λ pos. Numbered-Ready as' pos h.0;
              })
        | inr e ↦ rw (e, Handed) tt
      ]
  check_weight-Handed n s h = tt

  -- Whatever hwloc and pthreads do: the workers that `spawn_workers` returns are numbered in
  -- order and at rest, the first alone is the dirigent, they fit the array that was allocated,
  -- each has a processor of the set asked for, the set made of these processors is as large as the
  -- set asked for, and if there are any workers they are ready.
  pub spawn_workers-Workers :
      (num_threads : ℕ) (as' : List Arg) (b : hwloc.Bitmap)
      → spawn_workers hwloc obj created memory do_binding cpuset num_threads ≡ spawned as' b
      → Workers num_threads as' b
  unfolding spawn_workers
  spawn_workers-Workers num_threads as' b e = subst (Handed num_threads) e (
      check_weight-Handed num_threads
        (spawn_loop hwloc obj created memory do_binding cpuset num_threads 0 0 hwloc.empty)
        (spawn_loop-Sound hwloc obj created memory do_binding cpuset num_threads 0 0 hwloc.empty))
