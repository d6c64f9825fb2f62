-- ===== src/Configure/Topology.antt =====
-- libmultipath/configure.c: what the groups have in common where `pgcmp` finds no difference.
use multipath_tools.Base.{
  ◌==◌, if◌then◌else◌, ==→eq, Bool-cases, length, All, ℕ, ◌≤◌, ◌≡◌, refl, ap, ◌⊎◌, inl, inr, Bool,
  true, false, not, ◌&&◌, Option, none, some, List, [], ◌∷◌, arith,
}
use multipath_tools.Structs.{PathGroup}
use multipath_tools.Configure.Pgcmp.{
  mem, count_found, pathcmp, find_empty, mark_hit, find_same, find_from, find_group, pg_loop,
  zero_bits, pgcmp,
}

-- The second vector has this group, perhaps in another order and with other states.
abbrev pub IsFoundIn : List PathGroup → PathGroup → Type 0
IsFoundIn [] g = ⊥
IsFoundIn (c ∷ cpg) g =
    ((length c.paths ≡ length g.paths) × All (λ a. mem a c.paths ≡ true) g.paths) ⊎ IsFoundIn cpg g

count_found-le : (paths cpaths : List ℕ) → count_found paths cpaths ≤ length paths
count_found-le [] cpaths = omega arith
count_found-le (a ∷ paths) cpaths = elim (Bool-cases (mem a cpaths)) [
  | inl e ↦ rw (count_found, e) (omega (arith, count_found-le paths cpaths))
  | inr e ↦ rw (count_found, e) (omega (arith, count_found-le paths cpaths))
]

count_found-All :
    (paths cpaths : List ℕ)
    → length paths ≤ count_found paths cpaths
    → All (λ a. mem a cpaths ≡ true) paths
count_found-All [] cpaths h = tt
count_found-All (a ∷ paths) cpaths h = elim (Bool-cases (mem a cpaths)) [
  | inl e ↦ (e, count_found-All paths cpaths (ground arith))
  | inr e ↦ absurd (ground (arith, count_found-le paths cpaths))
]

pathcmp-found :
    (g c : PathGroup) → (pathcmp g c == 0) ≡ true → All (λ a. mem a c.paths ≡ true) g.paths
unfolding pathcmp
pathcmp-found g c h = count_found-All g.paths c.paths (ground arith)

same_cases :
    (hit equal b : Bool) (rest : Option (Bool × List Bool)) (more : List Bool)
    → (if hit && not equal then none else mark_hit hit b rest) ≡ some (true, more)
    → ((hit ≡ true) × (equal ≡ true)) ⊎ ((bf : List Bool) × (rest ≡ some (true, bf)))
same_cases true true b rest more h = inl (refl, refl)
same_cases true false b rest more h = cc
same_cases false equal b none more h = cc
same_cases false equal b (some (true, bf)) more h = inr (bf, refl)
same_cases false equal b (some (false, bf)) more h = cc

hit_length : (b : Bool) (m n : ℕ) (t : Bool) → (not b && (m == n) && t) ≡ true → m ≡ n
hit_length false m n true h = ground arith
hit_length b m n t h = ground arith

find_same-found :
    (g : PathGroup) (pp : ℕ) (cpg : List PathGroup) (bf more : List Bool)
    → find_same g pp cpg bf ≡ some (true, more)
    → IsFoundIn cpg g
unfolding find_same
find_same-found g pp [] bf more h = cc
find_same-found g pp (c ∷ cpg) [] more h = cc
find_same-found g pp (c ∷ cpg) (b ∷ bf) more h =
    let hit = not b && (length c.paths == length g.paths) && mem pp c.paths in
    elim (same_cases hit (pathcmp g c == 0) b (find_same g pp cpg bf) more h) [
      | inl (e, z) ↦
          inl
            (hit_length b (length c.paths) (length g.paths) (mem pp c.paths) e, pathcmp-found g c z)
      | inr (bf', e) ↦ inr (find_same-found g pp cpg bf bf' e)
    ]

empty_cases :
    (hit : Bool) (rest : Bool × List Bool) (x y more : List Bool)
    → ◌≡◌ {A = Bool × List Bool}
        (if◌then◌else◌ {A = Bool × List Bool} hit (true, x) (rest.0, y))
        (true, more)
    → (hit ≡ true) ⊎ (rest.0 ≡ true)
empty_cases true rest x y more h = inl refl
empty_cases false rest x y more h = inr (ap (λ (p : Bool × List Bool). p.0) h)

no_paths :
    (b : Bool) (c g : PathGroup)
    → g.paths ≡ []
    → (not b && (length c.paths == 0)) ≡ true
    → length c.paths ≡ length g.paths
no_paths false c g e h = rw e (ground arith)
no_paths true c g e h = cc

find_empty-found :
    (g : PathGroup) (cpg : List PathGroup) (bf more : List Bool)
    → g.paths ≡ []
    → find_empty cpg bf ≡ (true, more)
    → IsFoundIn cpg g
unfolding find_empty
find_empty-found g [] bf more e h = cc
find_empty-found g (c ∷ cpg) [] more e h = cc
find_empty-found g (c ∷ cpg) (b ∷ bf) more e h =
    let hit = not b && (length c.paths == 0) in
    elim (empty_cases hit (find_empty cpg bf) (true ∷ bf) (b ∷ (find_empty cpg bf).1) more h) [
      | inl k ↦ inl (no_paths b c g e k, rw e tt)
      | inr k ↦ inr (
          find_empty-found g cpg bf (find_empty cpg bf).1 e
            (ap (λ f. (f, (find_empty cpg bf).1)) k))
    ]

find_from-found :
    (paths : List ℕ) (g : PathGroup) (cpg : List PathGroup) (bf more : List Bool)
    → g.paths ≡ paths
    → find_from paths g cpg bf ≡ some (true, more)
    → IsFoundIn cpg g
find_from-found [] g cpg bf more e h = find_empty-found g cpg bf more e (some_eq h)
  where
    some_eq : {x y : Bool × List Bool} → some x ≡ some y → x ≡ y
    some_eq h = cc
find_from-found (pp ∷ paths) g cpg bf more e h = find_same-found g pp cpg bf more h

loop_step :
    (g : PathGroup) (pg cpg : List PathGroup) (o : Option (Bool × List Bool))
    → ((more : List Bool) → pg_loop pg cpg more ≡ false → All (IsFoundIn cpg) pg)
    → ((more : List Bool) → o ≡ some (true, more) → IsFoundIn cpg g)
    → (elim o [ none ↦ true | some (found, more) ↦ if found then pg_loop pg cpg more else true ])
      ≡ false
    → IsFoundIn cpg g × All (IsFoundIn cpg) pg
loop_step g pg cpg none ih f h = cc
loop_step g pg cpg (some (true, more)) ih f h = (f more refl, ih more h)
loop_step g pg cpg (some (false, more)) ih f h = cc

pg_loop-found :
    (pg cpg : List PathGroup) (bf : List Bool) → pg_loop pg cpg bf ≡ false → All (IsFoundIn cpg) pg
unfolding pg_loop
pg_loop-found [] cpg bf h = tt
pg_loop-found (g ∷ pg) cpg bf h =
    loop_step g pg cpg (find_group g cpg bf) (pg_loop-found pg cpg)
      (λ more. find_from-found g.paths g cpg bf more refl) h

both_tests : (b c : Bool) → (if not b then true else c) ≡ false → (b ≡ true) × (c ≡ false)
both_tests true c h = (refl, h)
both_tests false c h = cc

-- Where `pgcmp` finds no difference, there are as many groups on both sides, and for every group there is
-- one of as many paths that has all its paths.
pub pgcmp-found :
    (pg cpg : List PathGroup)
    → pgcmp pg cpg ≡ false
    → (length pg ≡ length cpg) × All (IsFoundIn cpg) pg
unfolding pgcmp
pgcmp-found pg cpg h =
    let (e, f) = both_tests (length pg == length cpg) (pg_loop pg cpg (zero_bits cpg)) h in
    (==→eq (length pg) (length cpg) e, pg_loop-found pg cpg (zero_bits cpg) f)
