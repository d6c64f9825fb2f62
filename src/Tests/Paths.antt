-- ===== src/Tests/Paths.antt =====
-- Paths and a map for the tests.
use multipath_tools.Base.{◌==◌, if◌then◌else◌, ℤ, pos, negsuc, ℕ, true, false, some, List, [], ◌∷◌}
use multipath_tools.Base.Text.{Text, codes}
use multipath_tools.Structs.{
  PathState, path_down, path_up, path_ghost, pstate_active, not_disconnected, init_ok, PathInfo,
  Heap, PathGroup, new_pathgroup, udev_wait_done, prio_update_none, pr_unset, Multipath,
}

-- A path in a state, with a priority and a serial number.
abbrev pub path_with : PathState → ℤ → Text → PathInfo
path_with s prio number = record {
  dev = codes "sda";
  dev_t = codes "8:0";
  wwid = codes "3600";
  vendor_id = codes "HP";
  product_id = codes "MSA";
  serial = number;
  tgt_node_name = [];
  bus = pos 1;
  proto_id = pos 0;
  checkint = 5;
  tick = 1;
  pending_ticks = 0;
  retriggers = pos 0;
  add_when_online = false;
  sysfs_state = path_up;
  state = s;
  dmstate = pstate_active;
  chkrstate = s;
  disconnected = not_disconnected;
  failcount = pos 0;
  priority = prio;
  pgindex = 1;
  initialized = init_ok;
  path_failures = 0;
  dis_reinstate_time = 0;
  disable_reinstate = false;
  san_path_err_forget_rate = 0;
  marginal = false;
  recheck_wwid = false;
  tpg_id = pos 0;
}

-- Path 1 is up, path 2 is a ghost of higher priority, path 3 is down.
abbrev pub three_paths : Heap
three_paths a =
    if a == 1
    then path_with path_up (pos 10) (codes "a")
    else if a == 2
    then path_with path_ghost (pos 50) (codes "b")
    else path_with path_down (pos 90) (codes "a")

abbrev pub group_of : List ℕ → PathGroup
group_of ps = record new_pathgroup { paths = ps }

abbrev pub three_groups : List PathGroup
three_groups = group_of (1 ∷ []) ∷ group_of (2 ∷ []) ∷ group_of (3 ∷ []) ∷ []

-- A map with three retries, outside recovery mode.
abbrev pub a_map : Multipath
a_map = record {
  paths = 1 ∷ 2 ∷ 3 ∷ [];
  pg = some three_groups;
  nextpg = 1;
  bestpg = 1;
  wait_for_udev = udev_wait_done;
  uev_wait_tick = pos 0;
  pgfailback = negsuc 0;
  failback_tick = 0;
  no_path_retry = pos 3;
  retry_tick = 0;
  in_recovery = false;
  features = some (codes "0");
  ghost_delay_tick = pos 0;
  force_udev_reload = false;
  purge_disconnected = true;
  prio_update = prio_update_none;
  san_path_err_threshold = pos 0;
  san_path_err_forget_rate = pos 0;
  san_path_err_recovery_time = pos 0;
  marginal_path_err_sample_time = pos 0;
  marginal_path_err_rate_threshold = pos 0;
  marginal_path_err_recheck_gap_time = pos 0;
  marginal_path_double_failed_time = pos 0;
  prflag = pr_unset;
  ever_registered_pr = false;
  stat_switchgroup = 0;
  stat_path_failures = 0;
  stat_total_queueing_time = 0;
  stat_queueing_timeouts = 0;
  stat_map_failures = 0;
  sent = [];
  replies = [];
}
