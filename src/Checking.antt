-- ===== src/Checking.antt =====
-- multipathd/main.c: what the daemon makes of one result of a path checker.
use multipath_tools.Base.{
  ltb, ◌==◌, if◌then◌else◌, get_elem?, ℤ, pos, pos_part, ltb_ℤ, leb_ℤ, ℕ, zero, suc, ◌-◌, ◌/◌, Bool,
  true, false, not, ◌&&◌, ◌||◌, Option, none, some, List, [],
}
use multipath_tools.Base.Text.{Text}
use multipath_tools.Structs.{
  PathState, path_wild, path_unchecked, path_down, path_up, path_shaky, path_timeout, path_removed,
  path_delayed, path_disconnected, PgState, pgstate_disabled, Disconnected, not_disconnected,
  disconnected_ready_for_purge, PathInfo, Heap, PathGroup, is_usable, PrValue, fail_device,
  reinstate_device, enable_group, Multipath, incr32, count_active_paths, dm_message,
}
use multipath_tools.Recovery.{update_queue_mode_del_path, update_queue_mode_add_path}
pub mod Fields
pub mod Messages
pub mod Update
pub mod Intervals
pub mod Schedule

-- The configuration's values that are read here.
pub record Conf : Type 0 where
  pub checkint : ℕ
  pub max_checkint : ℕ
  pub adjust_int : ℕ
  pub retrigger_tries : ℤ
  pub marginal_pathgroups : Bool

-- What the code that is not modelled answers during one check of a path: the checker's state
-- (`get_state`), the path as `pathinfo` reads it again, the WWID of `get_uid` if it succeeds,
-- `check_path_wwid_change`, `handle_path_wwid_change`, the io_err_stat test (`io_err_disable_reinstate`
-- and `need_io_err_check`), the monotonic clock in seconds, whether the target supports only implicit
-- ALUA (`path_get_tpgs`), and the registration flag that `mpath_pr_event_handle` leaves.
pub record Probe : Type 0 where
  pub checker : PathState
  pub reread : PathInfo → PathInfo
  pub uid : Option Text
  pub wwid_change : Bool
  pub removed : Bool
  pub io_err : Bool
  pub now : ℕ
  pub implicit : Bool
  pub registration : PrValue

unfoldable pub fail_path : ℕ → Heap → Multipath → ℕ → Bool → Multipath
fail_path checkint h mpp a del_active =
    let mpp' = (dm_message mpp (fail_device a)).1 in
    if del_active then update_queue_mode_del_path checkint h mpp' else mpp'

unfoldable pub reinstate_path : Heap → Multipath → ℕ → Multipath
reinstate_path h mpp a =
    let (ok, mpp') = dm_message mpp (reinstate_device a) in
    if ok then update_queue_mode_add_path h mpp' else mpp'

abbrev pub is_disabled : PgState → Bool
is_disabled pgstate_disabled = true
is_disabled _ = false

-- The group with the number `pgindex`, if it is disabled.
abbrev pub disabled_group : Option PathGroup → Bool
disabled_group none = false
disabled_group (some g) = is_disabled g.status

abbrev pub groups_of : Multipath → List PathGroup
groups_of mpp = elim mpp.pg [ none ↦ [] | some gs ↦ gs ]

unfoldable pub enable_group_of : Multipath → ℕ → Multipath
enable_group_of mpp zero = mpp
enable_group_of mpp (suc i) =
    let mpp' = (dm_message mpp (enable_group (suc i))).1 in
    if disabled_group (get_elem? (groups_of mpp) i) then mpp' else mpp

unfoldable pub marginal_path_check_enabled : Multipath → Bool
marginal_path_check_enabled mpp =
    ltb_ℤ (pos 0) mpp.marginal_path_double_failed_time
    && ltb_ℤ (pos 0) mpp.marginal_path_err_sample_time
    && ltb_ℤ (pos 0) mpp.marginal_path_err_recheck_gap_time
    && leb_ℤ (pos 0) mpp.marginal_path_err_rate_threshold

unfoldable pub san_path_check_enabled : Multipath → Bool
san_path_check_enabled mpp =
    ltb_ℤ (pos 0) mpp.san_path_err_threshold
    && ltb_ℤ (pos 0) mpp.san_path_err_forget_rate
    && ltb_ℤ (pos 0) mpp.san_path_err_recovery_time

-- PATH_DOWN, PATH_SHAKY or PATH_TIMEOUT.
abbrev pub is_failed : PathState → Bool
is_failed path_down = true
is_failed path_shaky = true
is_failed path_timeout = true
is_failed _ = false

abbrev pub is_delayed : PathState → Bool
is_delayed path_delayed = true
is_delayed _ = false

-- Label `reinstate_path`.
abbrev pub forgive : PathInfo → Bool × PathInfo
forgive pp = (
  false,
  record pp { path_failures = 0; disable_reinstate = false; san_path_err_forget_rate = 0 },
)

-- The branch for a path whose reinstatement is disabled, `active` paths being usable.
unfoldable pub held_back : ℕ → ℕ → Multipath → PathInfo → Bool × PathInfo
held_back now active mpp pp =
    let pp' = if is_usable pp.state || is_delayed pp.state then pp else record pp {
      san_path_err_forget_rate = pos_part mpp.san_path_err_forget_rate;
      dis_reinstate_time = now;
    } in
    if active == 0
    then forgive pp
    else if ltb (pos_part mpp.san_path_err_recovery_time) (now - pp'.dis_reinstate_time)
    then forgive pp'
    else (true, pp')

-- A usable path with failures on record forgets one every so many checks.
unfoldable pub forget_error : Multipath → PathInfo → PathInfo
forget_error mpp pp =
    if ltb 0 pp.san_path_err_forget_rate
    then record pp { san_path_err_forget_rate = pp.san_path_err_forget_rate - 1 }
    else record pp {
      path_failures = pp.path_failures - 1;
      san_path_err_forget_rate = pos_part mpp.san_path_err_forget_rate;
    }

-- A path that comes back from a failure, which is counted.
unfoldable pub count_failure : ℕ → Multipath → PathInfo → Bool × PathInfo
count_failure now mpp pp =
    let pp' = record pp {
      path_failures = incr32 pp.path_failures;
      san_path_err_forget_rate =
          if pp.path_failures == 0
          then pos_part mpp.san_path_err_forget_rate
          else pp.san_path_err_forget_rate;
    } in
    if ltb (pos_part mpp.san_path_err_threshold) pp'.path_failures
    then (true, record pp' { dis_reinstate_time = now; disable_reinstate = true })
    else (false, pp')

-- The flag is true if the path must not be reinstated yet. The clock never goes back.
unfoldable pub check_path_reinstate_state : ℕ → Heap → Multipath → PathInfo → Bool × PathInfo
unfolding held_back forget_error count_failure san_path_check_enabled
check_path_reinstate_state now h mpp pp =
    if not (san_path_check_enabled mpp)
    then (false, pp)
    else if pp.disable_reinstate
    then held_back now (count_active_paths h mpp) mpp pp
    else if is_usable pp.state && ltb 0 pp.path_failures
    then (false, forget_error mpp pp)
    else if not (is_failed pp.state)
    then (false, pp)
    else count_failure now mpp pp

unfoldable pub should_skip_path : Probe → Heap → Multipath → PathInfo → Bool × PathInfo
unfolding marginal_path_check_enabled san_path_check_enabled check_path_reinstate_state
should_skip_path probe h mpp pp =
    if marginal_path_check_enabled mpp
    then (probe.io_err, pp)
    else if san_path_check_enabled mpp
    then check_path_reinstate_state probe.now h mpp pp
    else (false, pp)

abbrev pub is_up : PathState → Bool
is_up path_up = true
is_up _ = false

-- PATH_WILD or PATH_UNCHECKED.
abbrev pub is_unusable : PathState → Bool
is_unusable path_wild = true
is_unusable path_unchecked = true
is_unusable _ = false

-- Removed and timed out paths count as down, and so do disconnected ones.
unfoldable pub settle : PathState → PathState
settle path_removed = path_down
settle path_timeout = path_down
settle path_disconnected = path_down
settle s = s

abbrev pub is_disconnected : PathState → Bool
is_disconnected path_disconnected = true
is_disconnected _ = false

abbrev pub is_connected : Disconnected → Bool
is_connected not_disconnected = true
is_connected _ = false

unfoldable pub get_new_state : Probe → Multipath → PathInfo → PathState × PathInfo
unfolding settle
get_new_state probe mpp pp =
    let seen = if is_up pp.sysfs_state then probe.checker else pp.sysfs_state in
    let pp' =
      if is_disconnected seen && mpp.purge_disconnected && is_connected pp.disconnected
      then record pp { disconnected = disconnected_ready_for_purge }
      else pp in
    let newstate = settle seen in (newstate, if is_unusable newstate then probe.reread pp' else pp')
