-- ===== src/Configure/Same.antt =====
-- libmultipath/configure.c: `pgcmp` finds no difference to the same groups.
use multipath_tools.Base.{
  ◌==◌, ==_refl, length, All, All-mono, ℕ, suc, ◌≡◌, refl, sym, ap, ◌∙◌, subst, Bool, true, false,
  ◌&&◌, some, List, [], ◌∷◌, ◌++◌, map, append_assoc, arith,
}
use multipath_tools.Structs.{PathGroup}
use multipath_tools.Dmparser.Groups.{bare_group}
use multipath_tools.Configure.Pgcmp.{
  mem, count_found, pathcmp, find_empty, find_same, find_from, pg_loop, zero_bits, pgcmp,
}

-- The first path of a group is in no later group.
abbrev first_in : List ℕ → PathGroup → Bool
first_in [] c = false
first_in (a ∷ paths) c = mem a c.paths

abbrev pub FirstsApart : List PathGroup → Type 0
FirstsApart [] = Unit
FirstsApart (g ∷ pg) = All (λ c. first_in g.paths c ≡ false) pg × FirstsApart pg

ones : List PathGroup → List Bool
ones [] = []
ones (g ∷ pg) = true ∷ ones pg

count_self :
    (paths cpaths : List ℕ)
    → All (λ a. mem a cpaths ≡ true) paths
    → count_found paths cpaths ≡ length paths
count_self [] cpaths h = refl
count_self (a ∷ paths) cpaths (e, h) = rw (count_found, e) (ap suc (count_self paths cpaths h))

mem_self : (paths : List ℕ) → All (λ a. mem a paths ≡ true) paths
mem_self [] = tt
mem_self (a ∷ paths) = (
  ground arith,
  All-mono (λ b. mem b paths ≡ true) (λ b. mem b (a ∷ paths) ≡ true) (λ b e. ground arith) paths
      (mem_self paths),
)

pathcmp_self : (g : PathGroup) → (pathcmp g (bare_group g) == 0) ≡ true
unfolding pathcmp
pathcmp_self g = let e = count_self g.paths g.paths (mem_self g.paths) in ground arith

find_same-later :
    (g : PathGroup) (pp : ℕ) (cpg : List PathGroup)
    → All (λ c. mem pp c.paths ≡ false) cpg
    → find_same g pp cpg (zero_bits cpg) ≡ some (false, zero_bits cpg)
unfolding find_same
find_same-later g pp [] h = refl
find_same-later g pp (c ∷ cpg) (e, h) =
    let n : ((length c.paths == length g.paths) && mem pp c.paths) ≡ false = ground arith in
    rw (find_same, n, find_same-later g pp cpg h) refl

find_same-past :
    (g : PathGroup) (pp : ℕ) (before cpg : List PathGroup) (bf more : List Bool)
    → find_same g pp cpg bf ≡ some (true, more)
    → find_same g pp (before ++ cpg) (ones before ++ bf) ≡ some (true, ones before ++ more)
unfolding find_same ones
find_same-past g pp [] cpg bf more h = h
find_same-past g pp (c ∷ before) cpg bf more h =
    rw (find_same, find_same-past g pp before cpg bf more h) refl

find_empty-past :
    (before cpg : List PathGroup) (bf more : List Bool)
    → find_empty cpg bf ≡ (true, more)
    → find_empty (before ++ cpg) (ones before ++ bf) ≡ (true, ones before ++ more)
unfolding find_empty ones
find_empty-past [] cpg bf more h = h
find_empty-past (c ∷ before) cpg bf more h =
    rw (find_empty, find_empty-past before cpg bf more h) refl

own_empty :
    (g : PathGroup) (pg : List PathGroup)
    → g.paths ≡ []
    → find_empty (bare_group g ∷ map bare_group pg) (false ∷ zero_bits (map bare_group pg))
      ≡ (true, true ∷ zero_bits (map bare_group pg))
unfolding find_empty
own_empty g pg e = let z : (length g.paths == 0) ≡ true = rw e refl in rw (find_empty, z) refl

later_bare :
    (a : ℕ) (pg : List PathGroup)
    → All (λ c. mem a c.paths ≡ false) pg
    → All (λ c. mem a c.paths ≡ false) (map bare_group pg)
later_bare a [] h = tt
later_bare a (c ∷ pg) (e, h) = (e, later_bare a pg h)

own_same :
    (g : PathGroup) (pg : List PathGroup) (a : ℕ) (paths : List ℕ)
    → g.paths ≡ a ∷ paths
    → All (λ c. mem a c.paths ≡ false) pg
    → find_same g a (bare_group g ∷ map bare_group pg) (false ∷ zero_bits (map bare_group pg))
      ≡ some (true, true ∷ zero_bits (map bare_group pg))
unfolding find_same
own_same g pg a paths e h =
    let n : (length g.paths == length g.paths) ≡ true = ==_refl (length g.paths) in
    let m : mem a g.paths ≡ true = subst (λ l. mem a l ≡ true) (sym e) (ground arith) in
    rw
      (find_same, n, m, pathcmp_self g, find_same-later g a (map bare_group pg) (later_bare a pg h))
      refl

-- The group itself is found behind groups that were found before.
find_own :
    (g : PathGroup) (before pg : List PathGroup) (paths : List ℕ)
    → g.paths ≡ paths
    → All (λ c. first_in paths c ≡ false) pg
    → find_from paths g
        (before ++ bare_group g ∷ map bare_group pg)
        (ones before ++ false ∷ zero_bits (map bare_group pg))
      ≡ some (true, ones before ++ true ∷ zero_bits (map bare_group pg))
find_own g before pg [] e h = ap some (
    find_empty-past before (bare_group g ∷ map bare_group pg)
      (false ∷ zero_bits (map bare_group pg)) (true ∷ zero_bits (map bare_group pg))
      (own_empty g pg e))
find_own g before pg (a ∷ paths) e h =
    find_same-past g a before (bare_group g ∷ map bare_group pg)
      (false ∷ zero_bits (map bare_group pg)) (true ∷ zero_bits (map bare_group pg))
      (own_same g pg a paths e h)

ones-append :
    (before : List PathGroup) (g : PathGroup) → ones (before ++ g ∷ []) ≡ ones before ++ true ∷ []
unfolding ones
ones-append [] g = refl
ones-append (c ∷ before) g = ap (λ l. true ∷ l) (ones-append before g)

pg_loop-own :
    (before pg : List PathGroup)
    → FirstsApart pg
    → pg_loop pg (before ++ map bare_group pg) (ones before ++ zero_bits (map bare_group pg))
      ≡ false
unfolding pg_loop
pg_loop-own before [] h = refl
pg_loop-own before (g ∷ pg) (e, h) =
    let b : PathGroup = bare_group g in
    let ih = pg_loop-own (before ++ b ∷ []) pg h in
    let l = append_assoc before (b ∷ []) (map bare_group pg) in
    let o : ones (before ++ b ∷ []) ++ zero_bits (map bare_group pg)
        ≡ ones before ++ true ∷ zero_bits (map bare_group pg) =
      ap (λ x. x ++ zero_bits (map bare_group pg)) (ones-append before b)
      ∙ append_assoc (ones before) (true ∷ []) (zero_bits (map bare_group pg)) in
    rw (pg_loop, find_own g before pg g.paths refl e)
      (ap (λ x. pg_loop pg x (ones before ++ true ∷ zero_bits (map bare_group pg))) (sym l)
        ∙ ap (pg_loop pg ((before ++ b ∷ []) ++ map bare_group pg)) (sym o)
        ∙ ih)

length-bare : (pg : List PathGroup) → length pg ≡ length (map bare_group pg)
length-bare [] = refl
length-bare (g ∷ pg) = ap suc (length-bare pg)

-- `pgcmp` finds no difference to groups with the same paths in the same order, if the first path of a
-- group is in no later one.
pub pgcmp_same : (pg : List PathGroup) → FirstsApart pg → pgcmp pg (map bare_group pg) ≡ false
unfolding pgcmp ones
pgcmp_same pg h =
    let e : (length pg == length (map bare_group pg)) ≡ true =
      rw (sym (length-bare pg)) (==_refl (length pg)) in
    rw (pgcmp, e) (pg_loop-own [] pg h)
