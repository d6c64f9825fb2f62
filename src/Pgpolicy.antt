-- ===== src/Pgpolicy.antt =====
-- libmultipath/pgpolicies.c: how the paths of a map are put into path groups, and the order of the
-- groups. A policy that fails leaves the map without a group vector, which is `none`.
pub mod Groups
pub mod Policies
pub mod Success
pub mod Sort
pub mod Partition
use multipath_tools.Base.{
  leb, ◌==◌, if◌then◌else◌, length, get_elem?, set, ltb_ℤ, eqb_ℤ, ℕ, zero, suc, ◌+◌, ◌-◌, ◌/◌, Bool,
  not, ◌&&◌, ◌||◌, Option, none, some, List, [], ◌∷◌, ◌++◌, map,
}
use multipath_tools.Base.Text.{Text, codes, strn_eq}
use multipath_tools.Base.Try.{Try, fail, alloc}
use multipath_tools.Structs.{PathInfo, Heap, PathGroup}
use multipath_tools.Switchgroup.{path_group_prio_update}
use multipath_tools.Vector.{vector_move_up}

-- `pgp2`, which stands earlier, may stay before `pgp1`.
abbrev pub stays_before : PathGroup → PathGroup → Bool
stays_before pgp2 pgp1 =
    (not pgp2.marginal && pgp1.marginal)
    || (((pgp2.marginal && pgp1.marginal) || (not pgp2.marginal && not pgp1.marginal))
        && (ltb_ℤ pgp1.priority pgp2.priority
            || (eqb_ℤ pgp2.priority pgp1.priority && leb pgp1.enabled_paths pgp2.enabled_paths)))

-- The inner loop, `for (j = k - 1; j >= 0; j--)`: one past the last group that may stay before `pgp1`.
unfoldable pub find_place : List PathGroup → PathGroup → ℕ → ℕ
find_place pg pgp1 zero = 0
find_place pg pgp1 (suc j) =
    let further = find_place pg pgp1 j in
    elim (get_elem? pg j) [
      | none ↦ further
      | some pgp2 ↦ if stays_before pgp2 pgp1 then suc j else further
    ]

abbrev pub or_same {ℓ} : {A : Type ℓ} → Option A → A → A
or_same none a = a
or_same (some b) a = b

-- One round of the outer loop: group `i` is refreshed in place and moved up.
unfoldable pub sort_round : Heap → List PathGroup → ℕ → List PathGroup
sort_round h pg i = elim (get_elem? pg i) [
  | none ↦ pg
  | some g ↦
      let pgp1 = path_group_prio_update h g in
      let pg' = set pg i pgp1 in or_same (vector_move_up pg' i (find_place pg' pgp1 i)) pg'
]

-- The outer loop, with the number of rounds left.
unfoldable pub sort_rounds : Heap → List PathGroup → ℕ → ℕ → List PathGroup
sort_rounds h pg i zero = pg
sort_rounds h pg i (suc n) = sort_rounds h (sort_round h pg i) (suc i) n

unfoldable pub sort_pathgroups : Heap → List PathGroup → List PathGroup
sort_pathgroups h pg = sort_rounds h pg 0 (length pg)

-- structs.c: a path with neither a device number nor a name is refused.
unfoldable pub store_path : Heap → List ℕ → ℕ → Try (List ℕ)
store_path h v a =
    if (length (h a).dev_t == 0) && (length (h a).dev == 0) then fail else alloc (v ++ a ∷ [])

-- structs.c.
unfoldable pub add_pathgroup : List PathGroup → PathGroup → Try (List PathGroup)
add_pathgroup pg g = alloc (pg ++ g ∷ [])

-- `get_pgpolicy_id` compares only as many bytes as the name has: `strncmp(str, "failover", 8)`.
pub data PgPolicyId : Type 0 where
  iopolicy_undef failover multibus group_by_serial group_by_prio group_by_node_name group_by_tpg :
      PgPolicyId

unfoldable pub get_pgpolicy_id : Text → PgPolicyId
get_pgpolicy_id str =
    if strn_eq 8 str (codes "failover")
    then failover
    else if strn_eq 8 str (codes "multibus")
    then multibus
    else if strn_eq 15 str (codes "group_by_serial")
    then group_by_serial
    else if strn_eq 13 str (codes "group_by_prio")
    then group_by_prio
    else if strn_eq 18 str (codes "group_by_node_name")
    then group_by_node_name
    else if strn_eq 12 str (codes "group_by_tpg")
    then group_by_tpg
    else iopolicy_undef

unfoldable pub get_pgpolicy_name : PgPolicyId → Text
get_pgpolicy_name failover = codes "failover"
get_pgpolicy_name multibus = codes "multibus"
get_pgpolicy_name group_by_serial = codes "group_by_serial"
get_pgpolicy_name group_by_prio = codes "group_by_prio"
get_pgpolicy_name group_by_node_name = codes "group_by_node_name"
get_pgpolicy_name group_by_tpg = codes "group_by_tpg"
get_pgpolicy_name iopolicy_undef = codes "undefined"

unfoldable pub node_names_match : PathInfo → PathInfo → Bool
node_names_match pp1 pp2 = strn_eq 224 pp1.tgt_node_name pp2.tgt_node_name

unfoldable pub serials_match : PathInfo → PathInfo → Bool
serials_match pp1 pp2 = strn_eq 128 pp1.serial pp2.serial

unfoldable pub prios_match : PathInfo → PathInfo → Bool
prios_match pp1 pp2 = eqb_ℤ pp1.priority pp2.priority

unfoldable pub tpg_match : PathInfo → PathInfo → Bool
tpg_match pp1 pp2 = eqb_ℤ pp1.tpg_id pp2.tpg_id
