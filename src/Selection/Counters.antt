-- ===== src/Selection/Counters.antt =====
-- The loop over the argument of `--pmcs`, against the names in it.
use native.Mathlib.Nat.{mod-eq_of_lt}
use mathlib.Core.Path.{subst}
use mathlib.Core.List.{map-append, append-nil, append_assoc}
use hwvar.Base.{
  ℕ, zero, suc, ◌+◌, ◌^◌, ◌≤◌, ◌<◌, Option, none, some, List, [], ◌∷◌, ◌++◌, ◌≡◌, refl, ap, sym,
  ◌∙◌, arith, length, map, take, set, replicate, u32, if_then, lt→ltb, take-set_next, get_elem?,
  get_elem?-set_ne, get_elem?-replicate, length-set, length-append, length-replicate,
}
use hwvar.Selection.{Token, strtok, pmcs_loop, num_pmcs, parse_pmcs, count_chars, count_loop}
use hwvar.Selection.Names.{names, Taken, over, token, strtok-Taken, length-names, commas-le}

-- An array of `num` entries that holds `done` from its start on, and is not written behind it.
pub record Written (done : List (List ℕ)) (num : ℕ) (slots : List (Option (List ℕ))) : Type 0 where
  pub size : length slots ≡ num
  pub entries : take (length done) slots ≡ map some done
  pub others : (k : ℕ) → length done ≤ k → k < num → get_elem? slots k ≡ some none

write-Written :
    (done : List (List ℕ)) (num : ℕ) (slots : List (Option (List ℕ))) (t : List ℕ)
    → length done < num
    → Written done num slots
    → Written (done ++ t ∷ []) num (set slots (length done) (some t))
write-Written done num slots t room h =
    let i = length done in
    let more : length (done ++ t ∷ []) ≡ suc i = grind (arith, length-append done (t ∷ [])) in
    record {
      size = length-set slots i (some t) ∙ h.size;
      entries =
          ap (λ n. take n (set slots i (some t))) more
          ∙ take-set_next slots i (some t) (grind (arith, h.size))
          ∙ ap (λ l. l ++ some t ∷ []) h.entries
          ∙ sym (map-append some done (t ∷ []));
      others = λ k l m.
          get_elem?-set_ne slots i k (some t) (λ e. absurd (grind arith))
          ∙ h.others k (grind arith) m;
    }

pmcs_loop-Written :
    (fuel : ℕ) (s : List ℕ) (num : ℕ) (slots : List (Option (List ℕ))) (done : List (List ℕ))
    → length s < fuel
    → num < 2 ^ 32
    → length done + length (names s) ≤ num
    → Written done num slots
    → (o : Option Token) → Taken s o
    → (r : List (Option (List ℕ))) × (pmcs_loop fuel o (length done) num slots ≡ some r)
      × Written (done ++ names s) num r
unfolding pmcs_loop
pmcs_loop-Written zero s num slots done fueled small room h o taken = absurd (omega arith)
pmcs_loop-Written (suc fuel) s num slots done fueled small room h none (over e) =
    (slots, refl, rw (e, append-nil done) h)
pmcs_loop-Written (suc fuel) s num slots done fueled small room h (some t) (token _ e shorter) =
    let count : length (names s) ≡ suc (length (names t.rest)) = ap length e in
    let within : length done < num = grind arith in
    let more : u32 (length done + 1) ≡ length (done ++ t.text ∷ []) =
      mod-eq_of_lt (omega arith) ∙ grind (arith, length-append done (t.text ∷ [])) in
    let (r, run, q) =
      pmcs_loop-Written fuel t.rest num (set slots (length done) (some t.text))
        (done ++ t.text ∷ []) (omega arith) small (grind (arith, length-append done (t.text ∷ [])))
        (write-Written done num slots t.text within h) (strtok t.rest) (strtok-Taken t.rest) in
    (
      r,
      if_then _ (lt→ltb (length done) num within)
          ∙ ap (λ i. pmcs_loop fuel (strtok t.rest) i num (set slots (length done) (some t.text)))
              more
          ∙ run,
      subst (λ ns. Written ns num r)
          (append_assoc done (t.text ∷ []) (names t.rest) ∙ ap (λ ns. done ++ ns) (sym e)) q,
    )

fresh-Written : (num : ℕ) → Written [] num (replicate num none)
fresh-Written num = record {
  size = length-replicate num none;
  entries = refl;
  others = λ k l m. get_elem?-replicate num k none m;
}

loop-Written :
    (s : List ℕ) (num : ℕ)
    → length s + 1 < 2 ^ 32
    → num ≡ count_loop s b',' 0 + 1
    → (r : List (Option (List ℕ))) × (pmcs_loop
          (suc (length s))
          (strtok s)
          0
          num
          (replicate num none)
        ≡ some r)
      × Written (names s) num r
loop-Written s num small e =
    let few = commas-le s (omega arith) in
    let room = length-names s (omega arith) in
    pmcs_loop-Written (suc (length s)) s num (replicate num none) [] (omega arith) (omega arith)
      (omega arith) (fresh-Written num) (strtok s) (strtok-Taken s)

-- For an argument that is not empty, of less than 2 ^ 32 - 1 characters, the array has an entry more
-- than the argument has commas; its first entries are the names in it that are not empty, in order,
-- and the others are never written.
pub parse_pmcs-names :
    (c : ℕ) (cs : List ℕ)
    → length (c ∷ cs) + 1 < 2 ^ 32
    → (r : List (Option (List ℕ))) × (parse_pmcs (some (c ∷ cs)) ≡ some r)
      × Written (names (c ∷ cs)) (count_chars (some (c ∷ cs)) b',' + 1) r
unfolding parse_pmcs count_chars
parse_pmcs-names c cs small =
    let few = commas-le (c ∷ cs) (omega arith) in
    let wrap : num_pmcs (some (c ∷ cs)) ≡ count_loop (c ∷ cs) b',' 0 + 1 =
      mod-eq_of_lt (omega arith) ∙ omega arith in
    let (r, run, q) = loop-Written (c ∷ cs) (num_pmcs (some (c ∷ cs))) small wrap in
    (r, run, subst (λ n. Written (names (c ∷ cs)) n r) wrap q)
