-- ===== src/Checking/Schedule.antt =====
-- multipathd/main.c: when a path is checked. `ticks` are the seconds since the last round of the loop,
-- `sysfs` is the state that `path_sysfs_state` stores when a check starts.
pub mod Alignment
pub mod Goal
use multipath_tools.Base.{
  ltb, leb, ◌==◌, if◌then◌else◌, pos, pos_part, neg_part, ◌+ℤ◌, ◌-ℤ◌, ltb_ℤ, ℕ, ◌+◌, ◌-◌, ◌*◌, ◌/◌,
  ◌%◌, ◌^◌, Bool, true, false, not, ◌||◌,
}
use multipath_tools.Structs.{
  PathState, path_delayed, Initialized, init_new, init_failed, init_missing_udev,
  init_requested_udev, init_ok, init_removed, PathInfo, Heap, write, Multipath,
}
use multipath_tools.Checking.{Conf, Probe}
use multipath_tools.Checking.Update.{
  CheckResult, check_path_started, check_path_skipped, check_path_removed, update_path_state,
}
use multipath_tools.Checking.Intervals.{checkint_undef}

abbrev start_path_check : PathState → PathInfo → PathInfo
start_path_check sysfs pp = record pp { sysfs_state = sysfs }

-- `if (pp->tick) pp->tick -= (pp->tick > ticks) ? ticks : pp->tick`.
abbrev pub count_down : ℕ → PathInfo → PathInfo
count_down ticks pp =
    if pp.tick == 0
    then pp
    else record pp { tick = pp.tick - (if ltb ticks pp.tick then ticks else pp.tick) }

abbrev pub is_init_removed : Initialized → Bool
is_init_removed init_removed = true
is_init_removed _ = false

unfoldable pub check_path : Conf → PathState → ℕ → PathInfo → CheckResult × PathInfo
check_path conf sysfs ticks pp =
    let pp' = count_down ticks pp in
    let ready =
      if pp'.checkint == checkint_undef then record pp' { checkint = conf.checkint } else pp' in
    if is_init_removed pp.initialized
    then (check_path_skipped, pp)
    else if not (pp'.tick == 0)
    then (check_path_skipped, pp')
    else (check_path_started, start_path_check sysfs ready)

-- The slot of the map among `maps`, spread over the longest interval; `unsigned int`.
unfoldable pub goal_index : Conf → ℕ → ℕ → ℕ
goal_index conf slot maps = slot * conf.max_checkint % 2 ^ 32 / maps

-- `(goal_idx - next_idx) % pp->checkint != 0`, where the difference may be negative: the remainder has
-- its sign.
abbrev pub is_off : ℕ → ℕ → ℕ → Bool
is_off goal next checkint =
    let d = pos goal -ℤ pos next in not ((pos_part d + neg_part d) % checkint == 0)

abbrev is_delayed : PathState → Bool
is_delayed path_delayed = true
is_delayed _ = false

-- `update_path` from the test of `pp->tick` on, in a round of the loop that began at `start_secs`.
unfoldable pub schedule_next : Conf → ℕ → ℕ → PathInfo → PathInfo
schedule_next conf goal_idx start_secs pp =
    let tick = if leb pp.checkint pp.pending_ticks then 1 else pp.checkint - pp.pending_ticks in
    let next_idx = (start_secs + tick) % conf.adjust_int in
    if not (pp.tick == 0)
    then record pp { pending_ticks = if is_delayed pp.state then 0 else pp.pending_ticks + 1 }
    else if tick == 1
    then record pp { tick = 1; pending_ticks = 0 }
    else if is_off goal_idx next_idx pp.checkint
    then record pp { tick = tick - 1; pending_ticks = 0 }
    else record pp { tick = tick; pending_ticks = 0 }

abbrev is_gone : CheckResult → Bool
is_gone check_path_removed = true
is_gone _ = false

-- `orphaned`: has `update_path_state` taken the path out of its map?
unfoldable pub update_path :
    Conf → Probe → Bool → ℕ → ℕ → Heap → Multipath → ℕ → CheckResult × Heap × Multipath
unfolding schedule_next
update_path conf probe orphaned goal_idx start_secs h mpp a =
    let (r, h', mpp') = update_path_state conf probe h mpp a in
    if is_gone r || orphaned
    then (r, h', mpp')
    else (r, write h' a (schedule_next conf goal_idx start_secs (h' a)), mpp')

-- Paths without a map that are checked all the same.
abbrev pub wants_check : PathInfo → Bool
wants_check pp = elim pp.initialized [
  | init_new ↦ true
  | init_failed ↦ true
  | init_missing_udev ↦ true
  | init_ok ↦ pp.add_when_online
  | _ ↦ false
]

abbrev is_init_missing : Initialized → Bool
is_init_missing init_missing_udev = true
is_init_missing _ = false

-- The flag says whether a change event was triggered.
unfoldable pub check_uninitialized_path :
    Conf → PathState → ℕ → PathInfo → CheckResult × PathInfo × Bool
check_uninitialized_path conf sysfs ticks pp =
    let pp' = count_down ticks pp in
    let ready = record pp' { tick = conf.max_checkint; checkint = conf.checkint } in
    if not (wants_check pp)
    then (check_path_skipped, pp, false)
    else if not (pp'.tick == 0)
    then (check_path_skipped, pp', false)
    else if is_init_missing pp.initialized
    then (if ltb_ℤ pp.retriggers conf.retrigger_tries
        then (
          check_path_skipped,
          record ready { initialized = init_requested_udev; retriggers = pp.retriggers +ℤ pos 1 },
          true,
        )
        else (
          check_path_started,
          start_path_check sysfs (record ready { initialized = init_failed }),
          false,
        ))
    else (check_path_started, start_path_check sysfs ready, false)
