-- ===== src/Pgpolicy/Groups.antt =====
-- The grouping loops. The loops index the path vector and a bitmap together, so the model walks the
-- rest of both: the bits of paths that the index has passed are not read again.
use multipath_tools.Base.{
  if◌then◌else◌, ℕ, Bool, true, false, not, ◌&&◌, ◌||◌, Option, none, some, List, [], ◌∷◌, ◌++◌,
}
use multipath_tools.Base.Try.{Outcomes, Try, and_then, ◌>>=◌, return, fail, alloc}
use multipath_tools.Structs.{PathInfo, Heap, write, PathGroup, new_pathgroup}
use multipath_tools.Pgpolicy.{
  sort_pathgroups, store_path, add_pathgroup, PgPolicyId, iopolicy_undef, failover, multibus,
  group_by_serial, group_by_prio, group_by_node_name, group_by_tpg, node_names_match, serials_match,
  prios_match, tpg_match,
}

abbrev pub Match : Type 0
Match = PathInfo → PathInfo → Bool

-- The inner loop of `group_by_match`, over the paths behind `pp`: the paths of the group, and the bits.
unfoldable pub collect : Heap → Match → ℕ → List ℕ → List Bool → List ℕ → Try (List ℕ × List Bool)
collect h f pp [] bits g = return (g, bits)
collect h f pp (a ∷ paths) [] g = return (g, [])
collect h f pp (a ∷ paths) (b ∷ bits) g =
    let skip = collect h f pp paths bits g in
    let take_it = store_path h g a >>= λ g'. collect h f pp paths bits g' in
    if b || not (f (h pp) (h a))
    then skip >>= (λ r. return (r.0, b ∷ r.1))
    else take_it >>= (λ r. return (r.0, true ∷ r.1))

-- The outer loop.
unfoldable pub match_loop :
    Heap → Match → List ℕ → List Bool → List PathGroup → Try (List PathGroup)
unfolding collect
match_loop h f [] bits pg = return pg
match_loop h f (pp ∷ paths) [] pg = return pg
match_loop h f (pp ∷ paths) (true ∷ bits) pg = match_loop h f paths bits pg
match_loop h f (pp ∷ paths) (false ∷ bits) pg = do
  g0 ← alloc new_pathgroup
  pg0 ← add_pathgroup pg g0
  first ← store_path h [] pp
  r ← collect h f pp paths bits first
  match_loop h f paths r.1 (pg ++ record g0 { paths = r.0 } ∷ [])

abbrev pub zeros : List ℕ → List Bool
zeros [] = []
zeros (a ∷ paths) = false ∷ zeros paths

-- `alloc_bitfield` gives no bitmap of length 0.
unfoldable pub group_by_match : Heap → Match → List ℕ → List PathGroup → Try (List PathGroup)
unfolding match_loop
group_by_match h f [] pg = fail
group_by_match h f (a ∷ paths) pg = do
  bitmap ← alloc (zeros (a ∷ paths))
  match_loop h f (a ∷ paths) bitmap pg

unfoldable pub one_path_per_group : Heap → List ℕ → List PathGroup → Try (List PathGroup)
one_path_per_group h [] pg = return pg
one_path_per_group h (pp ∷ paths) pg = do
  g0 ← alloc new_pathgroup
  pg0 ← add_pathgroup pg g0
  ps ← store_path h [] pp
  one_path_per_group h paths (pg ++ record g0 { paths = ps } ∷ [])

unfoldable pub store_all : Heap → List ℕ → List ℕ → Try (List ℕ)
store_all h g [] = return g
store_all h g (pp ∷ paths) = do g' ← store_path h g pp; store_all h g' paths

unfoldable pub one_group : Heap → List ℕ → List PathGroup → Try (List PathGroup)
unfolding store_all
one_group h paths pg = do
  g0 ← alloc new_pathgroup
  pg0 ← add_pathgroup pg g0
  ps ← store_all h [] paths
  return (pg ++ record g0 { paths = ps } ∷ [])

abbrev pub PgPolicy : Type 0
PgPolicy = Heap → List ℕ → List PathGroup → Try (List PathGroup)

-- The policy functions by their configuration value.
unfoldable pub policy_fn : PgPolicyId → Option PgPolicy
unfolding group_by_match one_path_per_group one_group
policy_fn iopolicy_undef = none
policy_fn failover = some one_path_per_group
policy_fn multibus = some one_group
policy_fn group_by_serial = some (λ h. group_by_match h serials_match)
policy_fn group_by_prio = some (λ h. group_by_match h prios_match)
policy_fn group_by_node_name = some (λ h. group_by_match h node_names_match)
policy_fn group_by_tpg = some (λ h. group_by_match h tpg_match)

abbrev pub any_path : Heap → (PathInfo → Bool) → List ℕ → Bool
any_path h f [] = false
any_path h f (a ∷ paths) = f (h a) || any_path h f paths

unfoldable pub split_loop : Heap → List ℕ → List ℕ → List ℕ → Try (List ℕ × List ℕ)
split_loop h [] normal marginal = return (normal, marginal)
split_loop h (pp ∷ paths) normal marginal =
    let to_marginal = store_path h marginal pp >>= λ m. split_loop h paths normal m in
    let to_normal = store_path h normal pp >>= λ n. split_loop h paths n marginal in
    if (h pp).marginal then to_marginal else to_normal

-- Fails, as well as without memory, if the paths are not of both kinds.
unfoldable pub split_marginal_paths : Heap → List ℕ → Try (List ℕ × List ℕ)
unfolding split_loop
split_marginal_paths h paths =
    if any_path h (λ p. p.marginal) paths && any_path h (λ p. not p.marginal) paths
    then (do n ← alloc []; m ← alloc []; split_loop h paths n m)
    else fail

-- The policy on the normal and then on the marginal paths; on all of them, if they were not split.
abbrev pub by_kind :
    PgPolicy
    → Heap
    → List ℕ
    → List PathGroup
    → Option (List ℕ × List ℕ) × Outcomes
    → Option (List PathGroup) × Outcomes
by_kind policy h paths pg (none, o) = policy h paths pg o
by_kind policy h paths pg (some s, o) = and_then (policy h s.0 pg o) (policy h s.1)

-- The groups of `group_paths` before they are sorted, where marginal paths have groups of their own.
unfoldable pub group_split : PgPolicy → Heap → List ℕ → List PathGroup → Try (List PathGroup)
group_split policy h paths pg o = by_kind policy h paths pg (split_marginal_paths h paths o)

-- `pp->pgindex = 0` for every path of the map.
unfoldable pub reset_pgindex : Heap → List ℕ → Heap
reset_pgindex h [] = h
reset_pgindex h (a ∷ paths) = reset_pgindex (write h a (record (h a) { pgindex = 0 })) paths

unfoldable pub regroup :
    Option PgPolicy → Bool → Heap → List ℕ → List PathGroup → Try (Heap × List PathGroup)
unfolding group_split
regroup none marginal_pathgroups h paths pg = fail
regroup (some policy) marginal_pathgroups h paths pg = do
  let h' = reset_pgindex h paths
  groups ← (if marginal_pathgroups then group_split policy h' paths pg else policy h' paths pg)
  return (h', sort_pathgroups h' groups)

abbrev pub or_new : Option (List PathGroup) → Try (List PathGroup)
or_new none = alloc []
or_new (some pg) = return pg

abbrev pub when_paths :
    List ℕ → Try (Heap × List PathGroup) → Try (Heap × List PathGroup) → Try (Heap × List PathGroup)
when_paths [] a b = a
when_paths (_ ∷ _) a b = b

-- The heap and the group vector after the call; a failure is the return value 1, with the vector NULL.
unfoldable pub group_paths :
    Option PgPolicy → Bool → Heap → List ℕ → Option (List PathGroup) → Try (Heap × List PathGroup)
unfolding regroup
group_paths policyfn marginal_pathgroups h paths old = do
  pg ← or_new old
  when_paths paths (return (h, pg)) (regroup policyfn marginal_pathgroups h paths pg)
