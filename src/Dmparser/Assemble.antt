-- ===== src/Dmparser/Assemble.antt =====
-- libmultipath/dmparser.c, `assemble_map`: the table of a map for the device mapper, as text. Memory
-- suffices.
use multipath_tools.Base.{
  ◌==◌, if◌then◌else◌, length, ℤ, pos, negsuc, eqb_ℤ, ℕ, suc, Bool, true, false, not, ◌&&◌, ◌||◌,
  Option, none, some, List, [], ◌∷◌, ◌++◌,
}
use multipath_tools.Base.Text.{Text, codes}
use multipath_tools.Structs.{Heap, PathGroup, Multipath, count_active_paths}
use multipath_tools.Features.{show_nat, add_feature}

-- structs.h, `enum retain_hwhandler_states`.
pub data RetainHwhandler : Type 0 where
  retain_hwhandler_undef retain_hwhandler_off retain_hwhandler_on : RetainHwhandler

abbrev pub is_retain_on : RetainHwhandler → Bool
is_retain_on retain_hwhandler_on = true
is_retain_on _ = false

-- A map with the fields that only its table uses.
pub record MapTable : Type 0 where
  pub mpp : Multipath
  pub hwhandler : Option Text
  pub selector : Option Text
  pub minio : ℤ
  pub retain_hwhandler : RetainHwhandler
  pub queue_mode_bio : Bool

-- `%i`.
unfoldable pub show_int : ℤ → Text
unfolding show_nat
show_int (pos n) = show_nat n
show_int (negsuc n) = 45 ∷ show_nat (suc n)

-- `%s`.
abbrev pub show_str : Option Text → Text
show_str none = codes "(null)"
show_str (some s) = s

-- The string after a call of `add_feature` whose return value is ignored.
abbrev pub with_feature : Text → Option Text → Option Text
with_feature feature features = elim (add_feature features feature) [ none ↦ features | some f ↦ f ]

-- Whether the map is to queue: it is not if its retries have run out.
unfoldable pub wants_queueing : Heap → Multipath → Bool
unfolding count_active_paths
wants_queueing h mpp =
    if eqb_ℤ mpp.no_path_retry (pos 0) || eqb_ℤ mpp.no_path_retry (negsuc 0)
    then false
    else if eqb_ℤ mpp.no_path_retry (negsuc 1)
    then true
    else not (mpp.in_recovery && (mpp.retry_tick == 0) && (count_active_paths h mpp == 0))

-- The features that `assemble_map` leaves in the map; `old_kernel` says whether the kernel is older than
-- 4.3.
unfoldable pub table_features : Bool → Heap → MapTable → Option Text
unfolding wants_queueing add_feature
table_features old_kernel h m =
    let queueing =
      if wants_queueing h m.mpp
      then with_feature (codes "queue_if_no_path") m.mpp.features
      else m.mpp.features in
    if is_retain_on m.retain_hwhandler && old_kernel
    then with_feature (codes "retain_attached_hw_handler") queueing
    else queueing

-- The paths of a group; `none` if one has no device number.
unfoldable pub print_paths : Heap → ℤ → List ℕ → Option Text
unfolding show_int
print_paths h minio [] = some []
print_paths h minio (a ∷ paths) =
    let dev_t = (h a).dev_t in
    if length dev_t == 0 then none else elim (print_paths h minio paths) [
      | none ↦ none
      | some t ↦ some (32 ∷ dev_t ++ 32 ∷ show_int minio ++ t)
    ]

unfoldable pub print_groups : Heap → MapTable → List PathGroup → Option Text
unfolding print_paths show_nat
print_groups h m [] = some []
print_groups h m (g ∷ groups) = elim (print_paths h m.minio g.paths) [
  | none ↦ none
  | some paths ↦ elim (print_groups h m groups) [
    | none ↦ none
    | some t ↦
        some (32 ∷ show_str m.selector ++ 32 ∷ show_nat (length g.paths) ++ 32 ∷ 49 ∷ paths ++ t)
  ]
]

abbrev pub groups_of : Option (List PathGroup) → List PathGroup
groups_of none = []
groups_of (some groups) = groups

abbrev pub initial_pg : List PathGroup → ℕ → ℕ
initial_pg [] bestpg = 0
initial_pg (g ∷ groups) bestpg = bestpg

-- The map with its features, and the table; `none` is the return value 1.
unfoldable pub assemble_map : Bool → Heap → MapTable → MapTable × Option Text
unfolding table_features print_groups show_nat
assemble_map old_kernel h m =
    let features = table_features old_kernel h m in
    let groups = groups_of m.mpp.pg in
    let head =
      show_str features
      ++ 32 ∷ show_str m.hwhandler
      ++ 32 ∷ show_nat (length groups)
      ++ 32 ∷ show_nat (initial_pg groups m.mpp.bestpg) in
    (
      record m { mpp = record (m.mpp) { features = features } },
      elim (print_groups h m groups) [ none ↦ none | some t ↦ some (head ++ t) ],
    )
