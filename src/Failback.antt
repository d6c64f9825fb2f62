-- ===== src/Failback.antt =====
-- multipathd/main.c: when the daemon switches to another path group or reloads the map, and the
-- counters that it runs once a second for every map.
pub mod Order
pub mod Deferred
use multipath_tools.Base.{
  ltb, ◌==◌, if◌then◌else◌, length, ℤ, pos, negsuc, pos_part, ◌-ℤ◌, ltb_ℤ, leb_ℤ, eqb_ℤ, ◌+◌, ◌-◌,
  ◌/◌, Bool, true, false, not, ◌&&◌, ◌||◌, Option, none, some, List, [], ◌∷◌, map,
}
use multipath_tools.Structs.{
  prio_undef, Heap, PathGroup, UdevWait, udev_wait_done, udev_wait_reload, PrioUpdate,
  prio_update_none, prio_update_new_path, prio_update_marginal, switch_group, Multipath, incr32,
  dm_message,
}
use multipath_tools.Switchgroup.{select_path_group}
use multipath_tools.Recovery.{is_positive}

-- The loop of `path_groups_in_order`, from the two local variables.
unfoldable pub in_order : Bool → ℤ → List PathGroup → Bool
in_order seen_marginal_pg last_prio [] = true
in_order seen_marginal_pg last_prio (pgp ∷ pgs) =
    let skipped = in_order seen_marginal_pg last_prio pgs in
    let first_marginal = in_order true pgp.priority pgs in
    let further = in_order seen_marginal_pg pgp.priority pgs in
    if seen_marginal_pg && not pgp.marginal
    then false
    else if eqb_ℤ pgp.priority prio_undef
    then skipped
    else if pgp.marginal && not seen_marginal_pg
    then first_marginal
    else if ltb_ℤ last_prio pgp.priority
    then false
    else further

-- `INT_MAX`.
abbrev pub int_max : ℤ
int_max = pos 2147483647

unfoldable pub path_groups_in_order : List PathGroup → Bool
unfolding in_order
path_groups_in_order pg = if ltb (length pg) 2 then true else in_order false int_max pg

abbrev pub failback_manual : ℤ
failback_manual = negsuc 0

abbrev pub failback_immediate : ℤ
failback_immediate = negsuc 1

abbrev pub group_list : Option (List PathGroup) → List PathGroup
group_list none = []
group_list (some gs) = gs

-- The first flag says whether to switch, the second whether that takes a reload.
unfoldable pub need_switch_pathgroup : Heap → Multipath → (Bool × Bool) × Multipath
unfolding path_groups_in_order select_path_group
need_switch_pathgroup h mpp =
    let (bestpg, pg') = select_path_group h mpp.pg in
    let groups = group_list pg' in
    let need_reload = not (path_groups_in_order groups) in
    let mpp1 = record mpp { pg = pg' } in
    let mpp2 = record mpp { pg = pg'; bestpg = bestpg } in
    if ltb (length (group_list mpp.pg)) 2
    then ((false, false), mpp)
    else if eqb_ℤ mpp.pgfailback failback_manual
    then ((false, false), mpp1)
    else ((need_reload || not (bestpg == mpp.nextpg), need_reload), mpp2)

unfoldable pub switch_pathgroup : Multipath → Multipath
unfolding dm_message
switch_pathgroup mpp =
    (dm_message (record mpp { stat_switchgroup = incr32 mpp.stat_switchgroup })
      (switch_group mpp.bestpg)).1

-- `--n` of a signed counter.
abbrev pub decr : ℤ → ℤ
decr n = n -ℤ pos 1

abbrev is_done : UdevWait → Bool
is_done udev_wait_done = true
is_done _ = false

abbrev is_reload : UdevWait → Bool
is_reload udev_wait_reload = true
is_reload _ = false

-- The first flag says whether the map must be updated, the second is `timed_out`.
unfoldable pub missing_uev_wait_tick : Multipath → (Bool × Bool) × Multipath
missing_uev_wait_tick mpp =
    let mpp' = record mpp { uev_wait_tick = decr mpp.uev_wait_tick } in
    if is_done mpp.wait_for_udev
    then ((false, false), mpp)
    else if leb_ℤ mpp'.uev_wait_tick (pos 0)
    then ((is_reload mpp.wait_for_udev, true), record mpp' { wait_for_udev = udev_wait_done })
    else ((false, false), mpp')

unfoldable pub ghost_delay_tick : Multipath → Bool × Multipath
ghost_delay_tick mpp =
    let mpp' = record mpp { ghost_delay_tick = decr mpp.ghost_delay_tick } in
    if leb_ℤ mpp.ghost_delay_tick (pos 0)
    then (false, mpp)
    else if leb_ℤ mpp'.ghost_delay_tick (pos 0)
    then (true, record mpp' { force_udev_reload = true })
    else (false, mpp')

-- The flag is true if the map must be reloaded.
unfoldable pub deferred_failback_tick : Heap → Multipath → Bool × Multipath
deferred_failback_tick h mpp =
    let mpp' = record mpp { failback_tick = mpp.failback_tick - 1 } in
    let r = need_switch_pathgroup h mpp' in
    if not (is_positive mpp.pgfailback) || (mpp.failback_tick == 0)
    then (false, mpp)
    else if not (mpp'.failback_tick == 0)
    then (false, mpp')
    else if not r.0.0
    then (false, r.1)
    else if r.0.1
    then (true, r.1)
    else (false, switch_pathgroup r.1)

abbrev is_none : PrioUpdate → Bool
is_none prio_update_none = true
is_none _ = false

abbrev is_marginal : PrioUpdate → Bool
is_marginal prio_update_marginal = true
is_marginal _ = false

abbrev is_new_path : PrioUpdate → Bool
is_new_path prio_update_new_path = true
is_new_path _ = false

-- The end of `update_mpp_prio`, after `need_switch_pathgroup` has answered.
unfoldable pub schedule_failback : Bool → Bool × Bool → PrioUpdate → Multipath → Bool × Multipath
unfolding switch_pathgroup
schedule_failback followover (need_switch, need_reload) prio_update mpp =
    if not need_switch
    then (false, mpp)
    else if is_positive mpp.pgfailback && (is_new_path prio_update || (mpp.failback_tick == 0))
    then (false, record mpp { failback_tick = pos_part mpp.pgfailback + 1 })
    else if eqb_ℤ mpp.pgfailback failback_immediate || (is_new_path prio_update && followover)
    then (if need_reload then (true, mpp) else (false, switch_pathgroup mpp))
    else (false, mpp)

-- `changed` and `h` are what `update_prio` returns and leaves, `by_prio` says whether the policy is
-- `group_by_prio`, and `followover` is the answer of `followover_should_failback` on the map after
-- `need_switch_pathgroup`. The flag is true if the map must be reloaded.
unfoldable pub update_mpp_prio :
    Bool → Bool → (Multipath → Bool) → Heap → Multipath → Bool × Multipath
unfolding need_switch_pathgroup schedule_failback
update_mpp_prio changed by_prio followover h mpp =
    let mpp' = record mpp { prio_update = prio_update_none } in
    let r = need_switch_pathgroup h mpp' in
    if not (is_done mpp.wait_for_udev) || is_none mpp.prio_update
    then (false, mpp')
    else if is_marginal mpp.prio_update
    then (true, mpp')
    else if changed && by_prio && eqb_ℤ mpp.pgfailback failback_immediate
    then (true, mpp')
    else schedule_failback (followover r.1) r.0 mpp.prio_update r.1
