-- ===== src/Configure.antt =====
-- libmultipath/configure.c: what is to be done with a map, given the maps that the kernel has. Memory
-- suffices, and a map that was set up has features, a hardware handler and a selector.
pub mod Pgcmp
pub mod Topology
pub mod Same
pub mod Unchanged
pub mod Nothing
use multipath_tools.Configure.Pgcmp.{pgcmp}
use multipath_tools.Base.{
  ltb, leb, ◌==◌, if◌then◌else◌, tests, length, set, take, pos, eqb_ℤ, ℕ, suc, ◌-◌, ◌/◌, Bool, true,
  false, not, ◌&&◌, ◌||◌, Option, none, some, List, [], ◌∷◌, map,
}
use multipath_tools.Base.Text.{Text, codes, str_eq, strn_eq, contains}
use multipath_tools.Structs.{Heap, queue_if_no_path, count_active_paths}
use multipath_tools.Features.{remove_feature}
use multipath_tools.Dmparser.Assemble.{
  RetainHwhandler, retain_hwhandler_undef, is_retain_on, MapTable, groups_of,
}

-- configure.h, `enum actions`.
pub data Action : Type 0 where
  act_undef act_nothing act_reject act_reload act_switchpg act_rename act_create : Action
  act_resize act_reload_rename act_dry_run act_impossible act_resize_rename : Action
  act_switchpg_rename : Action

-- A map with the fields that only this decision uses.
pub record MapConf : Type 0 where
  pub table : MapTable
  pub wwid : Text
  pub alias : Text
  pub alias_old : Text
  pub size : ℕ
  pub action : Action

abbrev wwid_size : ℕ
wwid_size = 128

-- structs.c. The result is the place in the vector, with the map; a place stands for a pointer.
abbrev find_loop : (MapConf → Bool) → ℕ → List MapConf → Option (ℕ × MapConf)
find_loop test i [] = none
find_loop test i (m ∷ mpvec) =
    let rest = find_loop test (suc i) mpvec in if test m then some (i, m) else rest

unfoldable pub find_mp_by_wwid : List MapConf → Text → Option (ℕ × MapConf)
unfolding strn_eq
find_mp_by_wwid mpvec wwid =
    if leb wwid_size (length wwid)
    then none
    else find_loop (λ m. strn_eq wwid_size m.wwid wwid) 0 mpvec

unfoldable pub find_mp_by_alias : List MapConf → Text → Option (ℕ × MapConf)
unfolding strn_eq
find_mp_by_alias mpvec alias =
    if length alias == 0
    then none
    else find_loop (λ m. (length m.alias == length alias) && strn_eq (length alias) m.alias alias) 0
        mpvec

abbrev pub is_rename : Action → Bool
is_rename act_rename = true
is_rename _ = false

abbrev pub same_bool : Bool → Bool → Bool
same_bool true b = b
same_bool false b = not b

-- Is MPATH_DEVICE_READY "1"? The argument is the udev device of the map with the value of its property.
unfoldable pub is_udev_ready : Option (Option Text) → Bool
unfolding str_eq
is_udev_ready none = true
is_udev_ready (some none) = false
is_udev_ready (some (some env)) = str_eq env (codes "1")

unfoldable pub select_reload_action : MapConf → MapConf
select_reload_action m = record m {
  action = if is_rename m.action then act_reload_rename else act_reload;
}

abbrev pub text_of : Option Text → Text
text_of none = []
text_of (some s) = s

abbrev pub force_udev : MapConf → MapConf
force_udev m = record m {
  table = record (m.table) { mpp = record (m.table.mpp) { force_udev_reload = true } };
}

-- Does the feature string of one map only have this feature?
unfoldable pub feature_differs : Text → MapTable → MapTable → Bool
unfolding contains
feature_differs feature m c = not (
    same_bool (contains (text_of m.mpp.features) feature)
      (contains (text_of c.mpp.features) feature))

unfoldable pub hwhandler_differs : MapTable → MapTable → Bool
unfolding str_eq strn_eq
hwhandler_differs m c =
    let mh = text_of m.hwhandler in
    let ch = text_of c.hwhandler in
    (not (is_retain_on m.retain_hwhandler) || str_eq ch (codes "0"))
    && (not (length ch == length mh) || not (strn_eq (length mh) ch mh))

abbrev pub is_retain_undef : RetainHwhandler → Bool
is_retain_undef retain_hwhandler_undef = true
is_retain_undef _ = false

-- The string after a call of `remove_feature` whose return value is ignored.
abbrev pub without_feature : Text → Option Text → Option Text
without_feature feature features = elim (remove_feature features feature) [
  | none ↦ features
  | some f ↦ f
]

unfoldable pub other_features : Option Text → Text
unfolding remove_feature
other_features features = text_of (
    without_feature (codes "retain_attached_hw_handler")
      (without_feature (codes "queue_if_no_path") features))

abbrev pub differs_from : Text → Option Text → Bool
differs_from selector none = true
differs_from selector (some s) = not (strn_eq (length selector) s selector)

unfoldable pub selector_differs : MapTable → MapTable → Bool
unfolding strn_eq
selector_differs m c = differs_from (text_of m.selector) c.selector

-- The tests from `no_path_retry change` to `path group topology change`.
unfoldable pub needs_reload : Bool → MapTable → MapTable → Bool
needs_reload old_kernel m c =
    if not (eqb_ℤ m.mpp.no_path_retry (pos 0)) && feature_differs (codes "queue_if_no_path") m c
    then true
    else if hwhandler_differs m c
    then true
    else if not (is_retain_undef m.retain_hwhandler)
        && feature_differs (codes "retain_attached_hw_handler") m c
        && old_kernel
    then true
    else if not (str_eq (other_features m.mpp.features) (other_features c.mpp.features))
    then true
    else if selector_differs m c
    then true
    else if not (eqb_ℤ c.minio m.minio)
    then true
    else pgcmp (groups_of m.mpp.pg) (groups_of c.mpp.pg)

-- The part of `select_action` behind the tests of the names: the map `m`, and the map `c` that the kernel
-- has for it.
unfoldable pub select_for : Bool → Option (Option Text) → Heap → Bool → MapConf → MapConf → MapConf
select_for old_kernel udev h force_reload m c =
    if not (c.size == m.size)
    then record (force_udev m) {
      action = if is_rename m.action then act_resize_rename else act_resize;
    }
    else if force_reload
    then select_reload_action (force_udev m)
    else if not (is_udev_ready udev) && ltb 0 (count_active_paths h m.table.mpp)
    then select_reload_action (force_udev m)
    else if needs_reload old_kernel m.table c.table
    then select_reload_action m
    else if not (c.table.mpp.nextpg == m.table.mpp.bestpg)
    then record m { action = if is_rename m.action then act_switchpg_rename else act_switchpg }
    else m

-- The tests of the names: the maps with the WWID and with the alias, with their places.
abbrev pub select_named : MapConf → ℕ × MapConf → Option (ℕ × MapConf) → MapConf
select_named m (i, c) none = record m { alias_old = take 127 c.alias; action = act_rename }
select_named m (i, c) (some (j, d)) =
    if i == j then m else record m { alias = c.alias; action = act_impossible }

abbrev pub is_some : Option (ℕ × MapConf) → Bool
is_some none = false
is_some (some x) = true

-- The action for the maps that were found by WWID and by alias.
abbrev pub select_found :
    Bool
    → (MapConf → Option (Option Text))
    → Heap
    → Bool
    → MapConf
    → Option (ℕ × MapConf)
    → Option (ℕ × MapConf)
    → MapConf
select_found old_kernel udev h force_reload m none by_name = record m {
  alias = if is_some by_name then m.wwid else m.alias;
  action = act_create;
}
select_found old_kernel udev h force_reload m (some (i, c)) by_name =
    select_for old_kernel (udev c) h force_reload (select_named m (i, c) by_name) c

-- `udev` gives the udev device of a map, and its MPATH_DEVICE_READY.
unfoldable pub select_action :
    Bool → (MapConf → Option (Option Text)) → Heap → List MapConf → Bool → MapConf → MapConf
select_action old_kernel udev h curmp force_reload mpp =
    let m : MapConf = record mpp { action = act_nothing } in
    select_found old_kernel udev h force_reload m (find_mp_by_wwid curmp m.wwid)
      (find_mp_by_alias curmp m.alias)
