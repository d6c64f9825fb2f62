-- ===== src/Configure/Pgcmp.antt =====
-- libmultipath/configure.c, `pgcmp`: do two maps have the same groups of paths?
use multipath_tools.Base.{
  ◌==◌, if◌then◌else◌, length, ℕ, suc, ◌-◌, Bool, true, false, not, ◌&&◌, ◌||◌, Option, none, some,
  List, [], ◌∷◌,
}
use multipath_tools.Structs.{PathGroup}

abbrev pub mem : ℕ → List ℕ → Bool
mem a [] = false
mem a (b ∷ paths) = (a == b) || mem a paths

abbrev pub count_found : List ℕ → List ℕ → ℕ
count_found [] cpaths = 0
count_found (a ∷ paths) cpaths =
    if mem a cpaths then suc (count_found paths cpaths) else count_found paths cpaths

-- How many paths of the first group are not in the second.
unfoldable pub pathcmp : PathGroup → PathGroup → ℕ
pathcmp pgp cpgp = length pgp.paths - count_found pgp.paths cpgp.paths

-- The search of `pgcmp` for another group without paths; the bits say which groups were found before.
unfoldable pub find_empty : List PathGroup → List Bool → Bool × List Bool
find_empty (c ∷ cpg) (b ∷ bf) =
    let (found, more) = find_empty cpg bf in
    if not b && (length c.paths == 0) then (true, true ∷ bf) else (found, b ∷ more)
find_empty _ bf = (false, bf)

-- A group that is a hit gets its bit.
abbrev pub mark_hit : Bool → Bool → Option (Bool × List Bool) → Option (Bool × List Bool)
mark_hit hit b none = none
mark_hit hit b (some (found, bf)) = some (hit || found, (hit || b) ∷ bf)

-- The search for the group that has the first path of `pgp`; `none` is the return value 1.
unfoldable pub find_same : PathGroup → ℕ → List PathGroup → List Bool → Option (Bool × List Bool)
unfolding pathcmp
find_same pgp pp (c ∷ cpg) (b ∷ bf) =
    let hit = not b && (length c.paths == length pgp.paths) && mem pp c.paths in
    let rest = find_same pgp pp cpg bf in
    if hit && not (pathcmp pgp c == 0) then none else mark_hit hit b rest
find_same pgp pp _ bf = some (false, bf)

abbrev pub find_from : List ℕ → PathGroup → List PathGroup → List Bool → Option (Bool × List Bool)
find_from [] pgp cpg bf = some (find_empty cpg bf)
find_from (pp ∷ paths) pgp cpg bf = find_same pgp pp cpg bf

abbrev pub find_group : PathGroup → List PathGroup → List Bool → Option (Bool × List Bool)
find_group pgp cpg bf = find_from pgp.paths pgp cpg bf

-- The loop over the groups of the map: is there one without its match?
unfoldable pub pg_loop : List PathGroup → List PathGroup → List Bool → Bool
pg_loop [] cpg bf = false
pg_loop (pgp ∷ pg) cpg bf = elim (find_group pgp cpg bf) [
  | none ↦ true
  | some (found, more) ↦ if found then pg_loop pg cpg more else true
]

abbrev pub zero_bits : List PathGroup → List Bool
zero_bits [] = []
zero_bits (g ∷ pg) = false ∷ zero_bits pg

-- True if the groups differ.
unfoldable pub pgcmp : List PathGroup → List PathGroup → Bool
unfolding pg_loop
pgcmp pg cpg = if not (length pg == length cpg) then true else pg_loop pg cpg (zero_bits cpg)
