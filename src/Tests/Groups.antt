-- ===== src/Tests/Groups.antt =====
-- Path groups, and the theorems at work on them.
use mathlib.Core.List.{Perm}
use multipath_tools.Tests.Paths.{three_paths, group_of, three_groups}
use multipath_tools.Switchgroup.{path_group_prio_update, select_path_group}
use multipath_tools.Switchgroup.Best.{is_normal, Bounded, select_path_group_best}
use multipath_tools.Pgpolicy.Groups.{
  group_by_match, one_group, policy_fn, reset_pgindex, group_paths,
}
use multipath_tools.Pgpolicy.Partition.{flat, IsGrouping, group_by_match_partition}
use multipath_tools.Pgpolicy.Sort.{IsSorted, sort_pathgroups_sorts}
use multipath_tools.Pgpolicy.Policies.{group_paths_keeps}
use multipath_tools.Base.Text.{strn_eq}
use multipath_tools.Vector.{vector_move_up}
use multipath_tools.Structs.{pgstate_undef, Heap, PathGroup}
use multipath_tools.Pgpolicy.{
  find_place, sort_round, sort_rounds, sort_pathgroups, store_path, add_pathgroup, multibus,
  serials_match,
}
use multipath_tools.Failback.{path_groups_in_order}
use multipath_tools.Failback.Order.{path_groups_in_order-sort_pathgroups}
use multipath_tools.Base.{
  get_elem?, All, pos, ◌≤ℤ◌, ℕ, suc, ◌≡◌, refl, true, false, none, some, List, [], ◌∷◌, ◌++◌, map,
  arith,
}
use multipath_tools.Pgpolicy.Success.{group_paths_succeeds}

abbrev refreshed : List PathGroup
refreshed = map (path_group_prio_update three_paths) three_groups

select_path_group_best_example :
    (i : ℕ) × (g : PathGroup) × ((select_path_group three_paths (some three_groups)).0 ≡ suc i)
    × (get_elem? refreshed i ≡ some g)
    × (is_normal g ≡ true)
    × All (Bounded g) refreshed
unfolding path_group_prio_update
select_path_group_best_example = select_path_group_best three_paths three_groups refl

sort_pathgroups_sorts_example :
    IsSorted (sort_pathgroups three_paths three_groups)
    × Perm (sort_pathgroups three_paths three_groups) refreshed
sort_pathgroups_sorts_example = sort_pathgroups_sorts three_paths three_groups

abbrev by_serial : List PathGroup
by_serial = group_of (1 ∷ 3 ∷ []) ∷ group_of (2 ∷ []) ∷ []

group_by_serial_runs :
    group_by_match three_paths serials_match (1 ∷ 2 ∷ 3 ∷ []) [] [] ≡ (some by_serial, [])
unfolding group_by_match serials_match add_pathgroup store_path strn_eq
group_by_serial_runs = refl

group_by_match_partition_example :
    (news : List PathGroup) × (by_serial ≡ [] ++ news)
    × Perm (flat news) (1 ∷ 2 ∷ 3 ∷ [])
    × IsGrouping three_paths serials_match news
group_by_match_partition_example =
    group_by_match_partition three_paths serials_match (1 ∷ 2 ∷ 3 ∷ []) [] [] group_by_serial_runs

abbrev one_map : List PathGroup
one_map =
    record {
      status = pgstate_undef;
      priority = pos 30;
      enabled_paths = 2;
      marginal = false;
      paths = 1 ∷ 2 ∷ 3 ∷ [];
    }
    ∷ []

group_paths_runs :
    group_paths (some one_group) false three_paths (1 ∷ 2 ∷ 3 ∷ []) (some []) []
    ≡ (some (reset_pgindex three_paths (1 ∷ 2 ∷ 3 ∷ []), one_map), [])
unfolding group_paths one_group store_path add_pathgroup sort_pathgroups path_group_prio_update
    reset_pgindex sort_rounds sort_round vector_move_up find_place
group_paths_runs = refl

policy_fn-multibus : policy_fn multibus ≡ some one_group
unfolding policy_fn
policy_fn-multibus = refl

group_paths_keeps_example :
    Perm (flat one_map) (flat [] ++ 1 ∷ 2 ∷ 3 ∷ [])
    × IsSorted one_map
    × (reset_pgindex three_paths (1 ∷ 2 ∷ 3 ∷ []) ≡ reset_pgindex three_paths (1 ∷ 2 ∷ 3 ∷ []))
group_paths_keeps_example =
    group_paths_keeps multibus one_group false three_paths 1 (2 ∷ 3 ∷ []) (some []) []
      policy_fn-multibus group_paths_runs

sorted_bound : All (λ g. g.priority ≤ℤ pos 2147483647) (sort_pathgroups three_paths three_groups)
unfolding sort_pathgroups sort_rounds sort_round vector_move_up find_place path_group_prio_update
sorted_bound = (omega arith, (omega arith, (omega arith, tt)))

path_groups_in_order-sort_pathgroups_example :
    path_groups_in_order (sort_pathgroups three_paths three_groups) ≡ true
path_groups_in_order-sort_pathgroups_example =
    path_groups_in_order-sort_pathgroups three_paths three_groups sorted_bound

group_paths_succeeds_example :
    (r : Heap × List PathGroup) × (group_paths
        (some one_group)
        true
        three_paths
        (1 ∷ 2 ∷ 3 ∷ [])
        none
        []
      ≡ (some r, []))
group_paths_succeeds_example =
    group_paths_succeeds multibus one_group true three_paths 1 (2 ∷ 3 ∷ []) none policy_fn-multibus
      (refl, (refl, (refl, tt)))
