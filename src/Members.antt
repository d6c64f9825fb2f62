-- ===== src/Members.antt =====
-- libmultipath/structs_vec.c and structs.c: the paths of a map, and the state of each in the kernel.
pub mod Joined
pub mod Known
pub mod Synced
pub mod Agreement
use multipath_tools.Base.{
  if◌then◌else◌, pos, ltb_ℤ, ℕ, ◌-◌, ◌/◌, Bool, true, false, not, ◌&&◌, ◌||◌, Option, none, some,
  List, [], ◌∷◌, map,
}
use multipath_tools.Base.Text.{Text, str_eq}
use multipath_tools.Base.Try.{Outcomes}
use multipath_tools.Structs.{
  PathState, path_wild, path_unchecked, path_down, path_shaky, path_delayed, DmState, pstate_failed,
  pstate_active, Initialized, init_removed, Heap, PathGroup, is_usable, fail_device,
  reinstate_device, Multipath, dm_message,
}
use multipath_tools.Pgpolicy.{store_path}

unfoldable pub find_path_by_devt : Heap → List ℕ → Text → Option ℕ
unfolding str_eq
find_path_by_devt h [] dev_t = none
find_path_by_devt h (a ∷ pathvec) dev_t =
    if str_eq (h a).dev_t dev_t then some a else find_path_by_devt h pathvec dev_t

abbrev pub is_found : Option ℕ → Bool
is_found none = false
is_found (some a) = true

abbrev pub is_removed : Initialized → Bool
is_removed init_removed = true
is_removed _ = false

-- What the loop has so far: has a path not been stored, and the paths of the map.
abbrev pub Joining : Type 0
Joining = Bool × List ℕ

-- A path that is to join the map.
abbrev pub try_join : Heap → ℕ → Joining → Outcomes → Joining × Outcomes
try_join h a (failed, paths) o =
    let (r, o') = store_path h paths a o in
    elim r [ none ↦ ((true, paths), o') | some paths' ↦ ((failed, paths'), o') ]

-- One path of a group.
unfoldable pub join_path : Heap → List ℕ → ℕ → Joining → Outcomes → Joining × Outcomes
unfolding find_path_by_devt
join_path h pathvec a (failed, paths) o =
    if is_found (find_path_by_devt h paths (h a).dev_t)
    then ((failed, paths), o)
    else if is_found (find_path_by_devt h pathvec (h a).dev_t) && not (is_removed (h a).initialized)
    then try_join h a (failed, paths) o
    else ((failed, paths), o)

unfoldable pub join_paths : Heap → List ℕ → List ℕ → Joining → Outcomes → Joining × Outcomes
join_paths h pathvec [] j o = (j, o)
join_paths h pathvec (a ∷ rest) j o =
    let r = join_path h pathvec a j o in join_paths h pathvec rest r.0 r.1

unfoldable pub join_groups :
    Heap → List ℕ → List PathGroup → Joining → Outcomes → Joining × Outcomes
unfolding join_paths
join_groups h pathvec [] j o = (j, o)
join_groups h pathvec (g ∷ gs) j o =
    let r = join_paths h pathvec g.paths j o in join_groups h pathvec gs r.0 r.1

-- The path list of a map is never NULL here. The flag is true for a failure.
unfoldable pub update_mpp_paths : Heap → List ℕ → Multipath → Outcomes → Bool × Multipath × Outcomes
unfolding join_groups
update_mpp_paths h pathvec mpp o = elim mpp.pg [
  | none ↦ (false, mpp, o)
  | some gs ↦
      let ((failed, paths), o') = join_groups h pathvec gs (false, mpp.paths) o in
      (failed, record mpp { paths = paths }, o')
]

-- The states about which the kernel is not told.
abbrev pub is_passing : PathState → Bool
is_passing path_unchecked = true
is_passing path_wild = true
is_passing path_delayed = true
is_passing _ = false

abbrev pub is_failing : PathState → Bool
is_failing path_down = true
is_failing path_shaky = true
is_failing _ = false

abbrev pub may_be_failed : DmState → Bool
may_be_failed pstate_active = false
may_be_failed _ = true

abbrev pub may_be_active : DmState → Bool
may_be_active pstate_failed = false
may_be_active _ = true

unfoldable pub sync_path : Heap → Bool → ℕ → Multipath → Multipath
sync_path h reinstate_only a mpp =
    if is_removed (h a).initialized || is_passing (h a).state
    then mpp
    else if ltb_ℤ (pos 0) mpp.ghost_delay_tick
    then mpp
    else if may_be_failed (h a).dmstate && is_usable (h a).state
    then (dm_message mpp (reinstate_device a)).1
    else if not reinstate_only && may_be_active (h a).dmstate && is_failing (h a).state
    then (dm_message mpp (fail_device a)).1
    else mpp

unfoldable pub sync_paths : Heap → Bool → List ℕ → Multipath → Multipath
unfolding sync_path
sync_paths h reinstate_only [] mpp = mpp
sync_paths h reinstate_only (a ∷ rest) mpp =
    sync_paths h reinstate_only rest (sync_path h reinstate_only a mpp)

unfoldable pub sync_groups : Heap → Bool → List PathGroup → Multipath → Multipath
unfolding sync_paths
sync_groups h reinstate_only [] mpp = mpp
sync_groups h reinstate_only (g ∷ gs) mpp =
    sync_groups h reinstate_only gs (sync_paths h reinstate_only g.paths mpp)

unfoldable pub sync_map_state : Heap → Bool → Multipath → Multipath
unfolding sync_groups
sync_map_state h reinstate_only mpp = elim mpp.pg [
  | none ↦ mpp
  | some gs ↦ sync_groups h reinstate_only gs mpp
]
