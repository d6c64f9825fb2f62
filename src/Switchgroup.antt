-- ===== src/Switchgroup.antt =====
-- libmultipath/switchgroup.c: the summary of a path group, and the choice of the best group.
-- Sums of priorities are integers without bound.
pub mod Best
use multipath_tools.Base.{
  ltb, ◌==◌, if◌then◌else◌, set, ℤ, pos, ◌+ℤ◌, ltb_ℤ, eqb_ℤ, quot_ℤ, ℕ, suc, ◌+◌, ◌-◌, ◌/◌, Bool,
  true, false, not, ◌&&◌, Option, none, some, List, [], ◌∷◌, map,
}
use multipath_tools.Structs.{prio_undef, PathInfo, Heap, PathGroup, is_usable}

-- The local variables of the loop of `path_group_prio_update`; `seen` is its index.
pub record Tally : Type 0 where
  pub priority : ℤ
  pub marginal : ℕ
  pub defined_prios : ℕ
  pub enabled_paths : ℕ
  pub seen : ℕ

abbrev pub no_tally : Tally
no_tally = record { priority = pos 0; marginal = 0; defined_prios = 0; enabled_paths = 0; seen = 0 }

unfoldable pub tally_path : PathInfo → Tally → Tally
tally_path pp t =
    let t1 = if pp.marginal then record t { marginal = suc t.marginal } else t in
    let t2 =
      if is_usable pp.state
      then (if eqb_ℤ pp.priority prio_undef then t1 else record t1 {
        defined_prios = suc t1.defined_prios;
        priority = t1.priority +ℤ pp.priority;
      })
      else t1 in
    let t3 =
      if is_usable pp.state then record t2 { enabled_paths = suc t2.enabled_paths } else t2 in
    record t3 { seen = suc t3.seen }

unfoldable pub tally_paths : Heap → List ℕ → Tally → Tally
tally_paths h [] t = t
tally_paths h (a ∷ rest) t = tally_paths h rest (tally_path (h a) t)

-- The priority that the totals give. A group with usable paths but no defined priority has none
-- itself; a group without usable paths has 0.
unfoldable pub group_priority : Tally → ℤ
group_priority t =
    if ltb 0 t.defined_prios
    then quot_ℤ t.priority t.defined_prios
    else if ltb 0 t.enabled_paths
    then prio_undef
    else pos 0

-- `marginal` is only ever set here, never cleared.
unfoldable pub path_group_prio_update : Heap → PathGroup → PathGroup
unfolding tally_paths tally_path group_priority
path_group_prio_update h pgp =
    let t = tally_paths h pgp.paths no_tally in
    record pgp {
      enabled_paths = t.enabled_paths;
      priority = group_priority t;
      marginal = if ltb 0 t.marginal && (t.marginal == t.seen) then true else pgp.marginal;
    }

-- The local variables of `select_path_group`.
pub record Choice : Type 0 where
  pub normal_pgp : Bool
  pub max_priority : ℤ
  pub max_enabled_paths : ℕ
  pub bestpg : ℕ

abbrev pub no_choice : Choice
no_choice = record { normal_pgp = false; max_priority = pos 0; max_enabled_paths = 1; bestpg = 1 }

abbrev pub take_group : ℕ → PathGroup → Choice → Choice
take_group i pgp c = record c {
  max_priority = pgp.priority;
  max_enabled_paths = pgp.enabled_paths;
  bestpg = suc i;
}

-- The body of the loop, after the group's summary has been refreshed.
unfoldable pub select_step : ℕ → PathGroup → Choice → Choice
select_step i pgp c =
    if pgp.marginal && c.normal_pgp
    then c
    else if ltb 0 pgp.enabled_paths
    then (if not pgp.marginal && not c.normal_pgp
        then record (take_group i pgp c) { normal_pgp = true }
        else if ltb_ℤ c.max_priority pgp.priority
        then take_group i pgp c
        else if eqb_ℤ pgp.priority c.max_priority
        then (if ltb c.max_enabled_paths pgp.enabled_paths
            then record c { max_enabled_paths = pgp.enabled_paths; bestpg = suc i }
            else c)
        else c)
    else c

-- The loop over the refreshed groups.
unfoldable pub select_groups : ℕ → List PathGroup → Choice → Choice
unfolding select_step
select_groups i [] c = c
select_groups i (g ∷ gs) c = select_groups (suc i) gs (select_step i g c)

-- The result, and the groups with their summaries refreshed. `none` is a map without a group vector.
unfoldable pub select_path_group : Heap → Option (List PathGroup) → ℕ × Option (List PathGroup)
unfolding select_groups path_group_prio_update
select_path_group h none = (1, none)
select_path_group h (some gs) =
    let gs' = map (path_group_prio_update h) gs in
    ((select_groups 0 gs' no_choice).bestpg, some gs')
