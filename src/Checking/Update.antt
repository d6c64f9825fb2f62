-- ===== src/Checking/Update.antt =====
-- multipathd/main.c, `update_path_state`: one result of the checker of the path at an address.
pub mod Stored
pub mod Sent
use multipath_tools.Base.{
  ltb, ◌==◌, if◌then◌else◌, tests, length, ℕ, ◌-◌, ◌*◌, ◌/◌, Bool, true, false, not, ◌&&◌, ◌||◌,
  Option, none, some, map,
}
use multipath_tools.Base.Text.{Text, strn_eq}
use multipath_tools.Structs.{
  PathState, path_ghost, path_pending, path_delayed, PathState-discrete, DmState, pstate_undef,
  pstate_failed, pstate_active, Initialized, init_new, init_ok, PathInfo, Heap, write, is_usable,
  PrioUpdate, prio_update_none, prio_update_normal, prio_update_new_path, prio_update_marginal,
  PrValue, pr_unset, pr_set, check_registration, register_active_paths, Multipath, incr32,
  count_active_paths, dm_message,
}
use multipath_tools.Checking.{
  Conf, Probe, fail_path, reinstate_path, enable_group_of, marginal_path_check_enabled,
  san_path_check_enabled, is_delayed, should_skip_path, is_up, is_unusable, get_new_state,
}

pub data CheckResult : Type 0 where
  check_path_unchecked check_path_started check_path_checked check_path_new_up check_path_skipped
        check_path_removed :
      CheckResult

abbrev pub is_dm_failed : DmState → Bool
is_dm_failed pstate_failed = true
is_dm_failed _ = false

abbrev pub is_dm_active : DmState → Bool
is_dm_active pstate_active = true
is_dm_active _ = false

abbrev pub is_dm_undef : DmState → Bool
is_dm_undef pstate_undef = true
is_dm_undef _ = false

abbrev pub is_pending : PathState → Bool
is_pending path_pending = true
is_pending _ = false

abbrev pub eq_state : PathState → PathState → Bool
eq_state s t = elim (PathState-discrete s t) [ yes _ ↦ true | no _ ↦ false ]

-- The path keeps its old WWID where the new one differs.
unfoldable pub new_path_wwid_changed : Option Text → PathInfo → Bool × PathInfo
unfolding strn_eq
new_path_wwid_changed none pp = (false, pp)
new_path_wwid_changed (some uid) pp =
    if not (length pp.wwid == 0) && not (strn_eq 128 pp.wwid uid)
    then (true, pp)
    else (false, record pp { wwid = uid })

abbrev pub is_init_new : Initialized → Bool
is_init_new init_new = true
is_init_new _ = false

-- The flag is true if the path has another WWID now.
unfoldable pub check_wwid : Probe → PathState → PathInfo → Bool × PathInfo
unfolding new_path_wwid_changed
check_wwid probe newstate pp =
    let back = is_usable newstate && (not (is_usable pp.state) || is_dm_failed pp.dmstate) in
    if not back
    then (false, pp)
    else if is_init_new pp.initialized
    then new_path_wwid_changed probe.uid (record pp { initialized = init_ok })
    else (pp.recheck_wwid && probe.wwid_change, pp)

-- The tests for unreliable paths; the flag is true if the path is delayed.
unfoldable pub marginal_step :
    Conf → Probe → Heap → Multipath → PathInfo → Bool × PathInfo × Multipath
unfolding should_skip_path
marginal_step conf probe h mpp pp =
    let (skip, pp') = should_skip_path probe h mpp pp in
    let marked = record mpp { prio_update = prio_update_marginal } in
    if skip
    then if not conf.marginal_pathgroups
      then (
        true,
        record pp' {
          tick = if marginal_path_check_enabled mpp then 1 else pp'.tick;
          state = path_delayed;
        },
        mpp,
      )
      else if not pp'.marginal
      then (false, record pp' { marginal = true }, marked)
      else (false, pp', mpp)
    else if conf.marginal_pathgroups && pp'.marginal
    then (false, record pp' { marginal = false }, marked)
    else (false, pp', mpp)

-- A path that was usable before stops counting as active in the map.
unfoldable pub went_down : Conf → Heap → Multipath → ℕ → PathState → Multipath
went_down conf h mpp a oldstate =
    let mpp' = fail_path conf.checkint h mpp a (is_usable oldstate) in
    record mpp' { failback_tick = 0; stat_path_failures = incr32 mpp'.stat_path_failures }

abbrev pub is_pr_unset : PrValue → Bool
is_pr_unset pr_unset = true
is_pr_unset _ = false

abbrev pub is_pr_set : PrValue → Bool
is_pr_set pr_set = true
is_pr_set _ = false

-- The check of the persistent reservation.
unfoldable pub check_reservation : Probe → Multipath → ℕ → Multipath
check_reservation probe mpp a =
    let mpp1 = record (dm_message mpp (check_registration a)).1 { prflag = probe.registration } in
    let mpp2 = (dm_message mpp1 register_active_paths).1 in
    if is_pr_unset mpp.prflag && not mpp.ever_registered_pr
    then mpp
    else if is_pr_set mpp1.prflag && not (is_pr_set mpp.prflag)
    then mpp2
    else mpp1

abbrev pub new_path_update : PrioUpdate → PrioUpdate
new_path_update prio_update_marginal = prio_update_marginal
new_path_update _ = prio_update_new_path

unfoldable pub went_up : Probe → Heap → Multipath → ℕ → Bool → Multipath
went_up probe h mpp a disable_reinstate =
    let mpp1 = check_reservation probe mpp a in
    let mpp2 = if disable_reinstate then mpp1 else reinstate_path h mpp1 a in
    let mpp3 = record mpp2 { prio_update = new_path_update mpp2.prio_update } in
    if is_up (h a).state then enable_group_of mpp3 (h a).pgindex else mpp3

-- The interval doubles up to its limit.
unfoldable pub delay_next_check : Conf → ℕ → ℕ
delay_next_check conf checkint =
    if checkint == conf.max_checkint
    then checkint
    else if ltb checkint (conf.max_checkint / 2)
    then 2 * checkint
    else conf.max_checkint

unfoldable pub stays_up : Conf → Heap → Multipath → ℕ → Bool → Heap × Multipath
stays_up conf h mpp a disable_reinstate =
    if (is_dm_failed (h a).dmstate || is_dm_undef (h a).dmstate) && not disable_reinstate
    then (h, reinstate_path h mpp a)
    else (write h a (record (h a) { checkint = delay_next_check conf (h a).checkint }), mpp)

unfoldable pub stays_down : Conf → Heap → Multipath → ℕ → Heap × Multipath
stays_down conf h mpp a =
    let mpp' =
      if is_dm_active (h a).dmstate || is_dm_undef (h a).dmstate
      then fail_path conf.checkint h mpp a false
      else mpp in
    (write h a (record (h a) { checkint = conf.checkint }), mpp')

abbrev normal_update : PrioUpdate → PrioUpdate
normal_update prio_update_none = prio_update_normal
normal_update u = u

-- The end of `update_path_state`.
unfoldable pub finish : CheckResult → PathState → Heap × Multipath → CheckResult × Heap × Multipath
finish r newstate (h, mpp) = (
  r,
  h,
  if is_usable newstate then record mpp { prio_update = normal_update mpp.prio_update } else mpp,
)

-- From the assignment of `chkrstate` on; `pp` is the path so far.
unfoldable pub apply_state :
    Conf → Probe → Heap → Multipath → ℕ → PathInfo → PathState → CheckResult × Heap × Multipath
apply_state conf probe h mpp a pp newstate =
    let disable_reinstate =
      eq_state newstate path_ghost
      && (count_active_paths (write h a pp) mpp == 0)
      && probe.implicit in
    let same_h = write h a (record pp { chkrstate = newstate }) in
    let new_h =
      write h a (record pp { chkrstate = newstate; state = newstate; checkint = conf.checkint }) in
    let was_up = is_usable pp.chkrstate in
    if not (eq_state newstate pp.state)
    then if is_usable newstate
      then finish (if was_up then check_path_checked else check_path_new_up) newstate
          (new_h, went_up probe new_h mpp a disable_reinstate)
      else (check_path_checked, new_h, went_down conf new_h mpp a pp.state)
    else if is_usable newstate
    then finish check_path_checked newstate (stays_up conf same_h mpp a disable_reinstate)
    else finish check_path_checked newstate (stays_down conf same_h mpp a)

-- From the test for a delayed path on.
unfoldable pub settle_path :
    Conf → Probe → Heap → Multipath → ℕ → PathInfo → PathState → CheckResult × Heap × Multipath
settle_path conf probe h mpp a pp newstate =
    let (stop, pp', mpp') = marginal_step conf probe (write h a pp) mpp pp in
    if not (is_usable newstate) && is_delayed pp.state
    then (
      check_path_checked,
      write h a (record pp { state = newstate; checkint = conf.checkint }),
      mpp,
    )
    else if is_usable newstate && (san_path_check_enabled mpp || marginal_path_check_enabled mpp)
    then if stop
      then (check_path_checked, write h a pp', mpp')
      else apply_state conf probe h mpp' a pp' newstate
    else apply_state conf probe h mpp a pp newstate

-- Where the WWID has changed, the rest is `handle_path_wwid_change`, which may remove the path.
unfoldable pub update_path_state :
    Conf → Probe → Heap → Multipath → ℕ → CheckResult × Heap × Multipath
update_path_state conf probe h mpp a =
    let (newstate, pp) = get_new_state probe mpp (h a) in
    let (changed, pp') = check_wwid probe newstate pp in
    if is_unusable newstate
    then (check_path_skipped, write h a pp, mpp)
    else if is_pending newstate
    then (check_path_skipped, write h a (record pp { tick = 1 }), mpp)
    else if changed
    then (if probe.removed then check_path_removed else check_path_skipped, write h a pp', mpp)
    else settle_path conf probe h mpp a pp' newstate
