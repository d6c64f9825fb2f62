-- ===== src/Tests/Members.antt =====
-- The paths of a map and of its groups, and the theorems at work on them.
use multipath_tools.Members.Known.{known, is_wanted, IsDistinct}
use multipath_tools.Members.Agreement.{obey_all, is_agreed, is_told}
use multipath_tools.Base.{
  ◌==◌, if◌then◌else◌, All, ℕ, ◌≡◌, refl, ◌⊎◌, true, false, some, List, [], ◌∷◌, ◌++◌,
}
use multipath_tools.Base.Text.{str_eq}
use multipath_tools.Structs.{
  pstate_failed, pstate_active, init_ok, init_removed, Heap, PathGroup, fail_device,
  reinstate_device, Multipath, dm_message,
}
use multipath_tools.Pgpolicy.Partition.{flat}
use multipath_tools.Members.{
  find_path_by_devt, join_path, join_paths, join_groups, update_mpp_paths, sync_path, sync_paths,
  sync_groups, sync_map_state,
}
use multipath_tools.Members.Joined.{update_mpp_paths_joins}
use multipath_tools.Members.Synced.{sync_map_state_agrees}
use multipath_tools.Tests.Paths.{three_paths, group_of, a_map}

-- Each path with its own number; path 1 has failed in the kernel, path 3 is down and active, path 4 is
-- removed.
abbrev numbered_paths : Heap
numbered_paths a = record (three_paths a) {
  dev_t = a ∷ [];
  dmstate = if a == 1 then pstate_failed else pstate_active;
  initialized = if a == 4 then init_removed else init_ok;
}

abbrev grown_groups : List PathGroup
grown_groups = group_of (1 ∷ 2 ∷ []) ∷ group_of (3 ∷ 4 ∷ []) ∷ []

abbrev grown_map : Multipath
grown_map = record a_map { paths = 2 ∷ []; pg = some grown_groups }

joined_paths :
    (update_mpp_paths numbered_paths (1 ∷ 2 ∷ 3 ∷ 4 ∷ []) grown_map []).1.paths ≡ 2 ∷ 1 ∷ 3 ∷ []
unfolding update_mpp_paths join_groups join_paths join_path find_path_by_devt str_eq
    multipath_tools.Pgpolicy.store_path
joined_paths = refl

update_mpp_paths_joins_example :
    let (failed, mpp', o') = update_mpp_paths numbered_paths (1 ∷ 2 ∷ 3 ∷ 4 ∷ []) grown_map [] in
    ((picks : List ℕ) × (mpp'.paths ≡ grown_map.paths ++ picks)
      × All (λ a. is_wanted numbered_paths (1 ∷ 2 ∷ 3 ∷ 4 ∷ []) a ≡ true) picks)
    × (IsDistinct numbered_paths grown_map.paths → IsDistinct numbered_paths mpp'.paths)
    × (failed ≡ false
        → All
            (λ a.
              is_wanted numbered_paths (1 ∷ 2 ∷ 3 ∷ 4 ∷ []) a ≡ true
              → known numbered_paths mpp'.paths (numbered_paths a).dev_t ≡ true)
            (flat grown_groups))
update_mpp_paths_joins_example =
    update_mpp_paths_joins numbered_paths (1 ∷ 2 ∷ 3 ∷ 4 ∷ []) grown_map grown_groups [] refl

synced_messages :
    (sync_map_state numbered_paths false grown_map).sent ≡ fail_device 3 ∷ reinstate_device 1 ∷ []
unfolding sync_map_state sync_groups sync_paths sync_path dm_message
synced_messages = refl

sync_map_state_agrees_example :
    let after =
      obey_all
        (λ a. (numbered_paths a).dmstate)
        (sync_map_state numbered_paths false grown_map).sent in
    All
      (λ a. is_told numbered_paths a ≡ true → is_agreed (numbered_paths a).state (after a) ≡ true)
      (flat grown_groups)
    × ((b : ℕ)
        → (after b ≡ (numbered_paths b).dmstate)
          ⊎ (is_agreed (numbered_paths b).state (after b) ≡ true))
sync_map_state_agrees_example =
    sync_map_state_agrees numbered_paths grown_map grown_groups refl refl refl
