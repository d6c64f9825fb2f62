-- ===== src/Structs.antt =====
-- libmultipath/structs.h: the data that the components share. Paths are shared by pointer between the
-- path vector, a map's path list and its path groups, so a path is a cell of a heap and the vectors
-- hold its address. Of each struct these are the fields that the modelled code reads or writes.
use multipath_tools.Base.{
  ◌==◌, if◌then◌else◌, ℤ, pos, negsuc, ℕ, suc, ◌+◌, ◌%◌, ◌^◌, Bool, true, false, Option, none, some,
  List, [], ◌∷◌,
}
use multipath_tools.Base.Text.{Text}

-- libmultipath/checkers.h, `enum path_check_state`.
pub data PathState : Type 0 where
  path_wild path_unchecked path_down path_up path_shaky path_ghost : PathState
  path_pending path_timeout path_removed path_delayed path_disconnected : PathState

pub PathState-discrete : Discrete PathState
PathState-discrete = hlevel

pub data DmState : Type 0 where
  pstate_undef pstate_failed pstate_active : DmState

pub data PgState : Type 0 where
  pgstate_undef pgstate_enabled pgstate_disabled pgstate_active : PgState

pub data Disconnected : Type 0 where
  not_disconnected disconnected_ready_for_purge disconnected_queued_for_purge : Disconnected

pub data Initialized : Type 0 where
  init_new init_failed init_missing_udev init_requested_udev init_ok init_removed init_partial :
      Initialized

abbrev pub prio_undef : ℤ
prio_undef = negsuc 0

pub record PathInfo : Type 0 where
  pub dev : Text
  pub dev_t : Text
  pub wwid : Text
  pub vendor_id : Text
  pub product_id : Text
  pub serial : Text
  pub tgt_node_name : Text
  pub bus : ℤ
  pub proto_id : ℤ
  pub checkint : ℕ
  pub tick : ℕ
  pub pending_ticks : ℕ
  pub retriggers : ℤ
  pub add_when_online : Bool
  pub sysfs_state : PathState
  pub state : PathState
  pub dmstate : DmState
  pub chkrstate : PathState
  pub disconnected : Disconnected
  pub failcount : ℤ
  pub priority : ℤ
  pub pgindex : ℕ
  pub initialized : Initialized
  pub path_failures : ℕ
  pub dis_reinstate_time : ℕ
  pub disable_reinstate : Bool
  pub san_path_err_forget_rate : ℕ
  pub marginal : Bool
  pub recheck_wwid : Bool
  pub tpg_id : ℤ

-- The path cells, by address.
abbrev pub Heap : Type 0
Heap = ℕ → PathInfo

-- A write through the pointer `a`.
abbrev pub write : Heap → ℕ → PathInfo → Heap
write h a p b = if b == a then p else h b

-- `paths` is never NULL: `alloc_pathgroup` gives no group without its vector.
pub record PathGroup : Type 0 where
  pub status : PgState
  pub priority : ℤ
  pub enabled_paths : ℕ
  pub marginal : Bool
  pub paths : List ℕ

-- `alloc_pathgroup`: all fields zero and an empty vector.
abbrev pub new_pathgroup : PathGroup
new_pathgroup = record {
  status = pgstate_undef;
  priority = pos 0;
  enabled_paths = 0;
  marginal = false;
  paths = [];
}

-- A path that can take I/O.
abbrev pub is_usable : PathState → Bool
is_usable path_up = true
is_usable path_ghost = true
is_usable _ = false

pub data UdevWait : Type 0 where
  udev_wait_done udev_wait_started udev_wait_reload : UdevWait

pub data PrioUpdate : Type 0 where
  prio_update_none prio_update_normal prio_update_new_path prio_update_marginal : PrioUpdate

pub data PrValue : Type 0 where
  pr_unknown pr_unset pr_set : PrValue

-- What is sent to the device mapper, and the two calls that leave the modelled code. Devices are named
-- by the address of the path.
pub data Message : Type 0 where
  queue_if_no_path fail_if_no_path : Message
  fail_device reinstate_device : ℕ → Message
  switch_group enable_group : ℕ → Message
  check_registration : ℕ → Message
  register_active_paths : Message

-- `sent` are the messages so far, newest first. `replies` are the outcomes of the coming ones, true for
-- success; past its end all succeed.
pub record Multipath : Type 0 where
  pub paths : List ℕ
  pub pg : Option (List PathGroup)
  pub nextpg : ℕ
  pub bestpg : ℕ
  pub wait_for_udev : UdevWait
  pub uev_wait_tick : ℤ
  pub pgfailback : ℤ
  pub failback_tick : ℕ
  pub no_path_retry : ℤ
  pub retry_tick : ℕ  -- the 32 bits of the `int`
  pub in_recovery : Bool
  pub features : Option Text
  pub ghost_delay_tick : ℤ
  pub force_udev_reload : Bool
  pub purge_disconnected : Bool
  pub prio_update : PrioUpdate
  pub san_path_err_threshold : ℤ
  pub san_path_err_forget_rate : ℤ
  pub san_path_err_recovery_time : ℤ
  pub marginal_path_err_sample_time : ℤ
  pub marginal_path_err_rate_threshold : ℤ
  pub marginal_path_err_recheck_gap_time : ℤ
  pub marginal_path_double_failed_time : ℤ
  pub prflag : PrValue
  pub ever_registered_pr : Bool
  pub stat_switchgroup : ℕ
  pub stat_path_failures : ℕ
  pub stat_total_queueing_time : ℕ
  pub stat_queueing_timeouts : ℕ
  pub stat_map_failures : ℕ
  pub sent : List Message
  pub replies : List Bool

-- `++` of an `unsigned int`.
abbrev pub incr32 : ℕ → ℕ
incr32 n = (n + 1) % 2 ^ 32

abbrev pub count_group : Heap → (PathState → Bool) → List ℕ → ℕ
count_group h f [] = 0
count_group h f (a ∷ paths) =
    if f (h a).state then suc (count_group h f paths) else count_group h f paths

abbrev pub count_groups : Heap → (PathState → Bool) → List PathGroup → ℕ
count_groups h f [] = 0
count_groups h f (g ∷ gs) = count_group h f g.paths + count_groups h f gs

abbrev pub count_map : Heap → (PathState → Bool) → Option (List PathGroup) → ℕ
count_map h f none = 0
count_map h f (some gs) = count_groups h f gs

-- structs.c: `count_active_paths`.
unfoldable pub count_active_paths : Heap → Multipath → ℕ
count_active_paths h mpp = count_map h is_usable mpp.pg

abbrev pub is_pending : PathState → Bool
is_pending path_pending = true
is_pending _ = false

-- structs.c: `pathcount(mpp, PATH_PENDING)`.
unfoldable pub pathcount_pending : Heap → Multipath → ℕ
pathcount_pending h mpp = count_map h is_pending mpp.pg

-- Sends a message; the flag is true if it succeeded.
unfoldable pub dm_message : Multipath → Message → Bool × Multipath
dm_message mpp m = elim mpp.replies [
  | [] ↦ (true, record mpp { sent = m ∷ mpp.sent })
  | r ∷ rest ↦ (r, record mpp { sent = m ∷ mpp.sent; replies = rest })
]
