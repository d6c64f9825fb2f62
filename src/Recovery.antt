-- ===== src/Recovery.antt =====
-- Queueing without usable paths: libmultipath/structs_vec.c (recovery mode), `dm_queue_if_no_path` of
-- libmultipath/devmapper.c, and the tick of multipathd/main.c that ends the retries. `checkint` is the
-- configured shortest check interval. Of the `int` `retry_tick` the model has the 32 bits: from 2 ^ 31 on
-- it is negative.
pub mod Period
pub mod States
pub mod Changes
use multipath_tools.Base.{
  ltb, ◌==◌, if◌then◌else◌, ℤ, pos, negsuc, pos_part, ltb_ℤ, eqb_ℤ, ℕ, zero, suc, ◌+◌, ◌-◌, ◌*◌,
  ◌/◌, ◌%◌, ◌^◌, Bool, true, false, not, ◌&&◌, ◌||◌, Option, none, some, map,
}
use multipath_tools.Base.Text.{Text, codes, contains}
use multipath_tools.Structs.{
  Heap, queue_if_no_path, fail_if_no_path, Multipath, incr32, count_active_paths, pathcount_pending,
  dm_message,
}
use multipath_tools.Features.{add_feature, remove_feature}

abbrev pub no_path_retry_fail : ℤ
no_path_retry_fail = negsuc 0

abbrev pub no_path_retry_queue : ℤ
no_path_retry_queue = negsuc 1

abbrev pub queue_feature : Text
queue_feature = codes "queue_if_no_path"

-- A change of the feature string that fails leaves it alone.
abbrev pub or_features : Option (Option Text) → Option Text → Option Text
or_features none old = old
or_features (some new) old = new

-- The feature string follows the kernel where the message succeeded.
unfoldable pub dm_queue_if_no_path : Bool → Multipath → Multipath
unfolding dm_message
dm_queue_if_no_path enable mpp =
    let (ok, mpp') = dm_message mpp (if enable then queue_if_no_path else fail_if_no_path) in
    if ok
    then record mpp' {
      features =
          or_features
            (if enable
              then add_feature mpp'.features queue_feature
              else remove_feature mpp'.features queue_feature)
            mpp'.features;
    }
    else mpp'

abbrev pub is_positive : ℤ → Bool
is_positive n = ltb_ℤ (pos 0) n

unfoldable pub enter_recovery_mode : ℕ → Multipath → Multipath
enter_recovery_mode checkint mpp =
    if mpp.in_recovery || not (is_positive mpp.no_path_retry) then mpp else record mpp {
      in_recovery = true;
      stat_queueing_timeouts = incr32 mpp.stat_queueing_timeouts;
      retry_tick = (pos_part mpp.no_path_retry * checkint + 1) % 2 ^ 32;
    }

unfoldable pub leave_recovery_mode : Multipath → Multipath
leave_recovery_mode mpp =
    let mpp' = record mpp { in_recovery = false; retry_tick = 0 } in
    if mpp.in_recovery
      && (eqb_ℤ mpp.no_path_retry no_path_retry_queue || is_positive mpp.no_path_retry)
    then dm_queue_if_no_path true mpp'
    else mpp'

abbrev pub is_queueing : Option Text → Bool
is_queueing none = false
is_queueing (some f) = contains f queue_feature

abbrev pub has_features : Option Text → Bool
has_features none = false
has_features (some f) = true

-- The `default` case of `set_no_path_retry`, without and with usable paths.
unfoldable pub retry_without_paths : ℕ → Heap → Multipath → Multipath
retry_without_paths checkint h mpp =
    let mpp' =
      if (not (has_features mpp.features) || is_queueing mpp.features)
        && mpp.in_recovery
        && (mpp.retry_tick == 0)
      then dm_queue_if_no_path false mpp
      else mpp in
    if pathcount_pending h mpp' == 0 then enter_recovery_mode checkint mpp' else mpp'

unfoldable pub retry_with_paths : Multipath → Multipath
retry_with_paths mpp = leave_recovery_mode (
    if (not (has_features mpp.features) || not (is_queueing mpp.features)) && not mpp.in_recovery
    then dm_queue_if_no_path true mpp
    else mpp)

unfoldable pub set_no_path_retry : ℕ → Heap → Multipath → Multipath
set_no_path_retry checkint h mpp =
    if eqb_ℤ mpp.no_path_retry (pos 0)
    then mpp
    else if eqb_ℤ mpp.no_path_retry no_path_retry_fail
    then (if not (has_features mpp.features) || is_queueing mpp.features
        then dm_queue_if_no_path false mpp
        else mpp)
    else if eqb_ℤ mpp.no_path_retry no_path_retry_queue
    then (if not (has_features mpp.features) || not (is_queueing mpp.features)
        then dm_queue_if_no_path true mpp
        else mpp)
    else if ltb 0 (count_active_paths h mpp)
    then retry_with_paths mpp
    else retry_without_paths checkint h mpp

unfoldable pub update_queue_mode_del_path : ℕ → Heap → Multipath → Multipath
update_queue_mode_del_path checkint h mpp =
    if count_active_paths h mpp == 0
    then (let mpp' = enter_recovery_mode checkint mpp in
        if eqb_ℤ mpp'.no_path_retry no_path_retry_fail
          || (eqb_ℤ mpp'.no_path_retry (pos 0) && not (is_queueing mpp.features))
        then record mpp' { stat_map_failures = incr32 mpp'.stat_map_failures }
        else mpp')
    else mpp

unfoldable pub update_queue_mode_add_path : Heap → Multipath → Multipath
update_queue_mode_add_path h mpp =
    if ltb 0 (count_active_paths h mpp) then leave_recovery_mode mpp else mpp

-- The 32 bits of an `int` above 0.
unfoldable pub is_counting : ℕ → Bool
is_counting bits = not (bits == 0) && ltb bits (2 ^ 31)

-- multipathd/main.c, once a second for every map.
unfoldable pub retry_count_tick : Multipath → Multipath
retry_count_tick mpp =
    if not (is_counting mpp.retry_tick)
    then mpp
    else (let mpp' = record mpp {
      stat_total_queueing_time = incr32 mpp.stat_total_queueing_time;
      retry_tick = mpp.retry_tick - 1;
    } in
        if mpp'.retry_tick == 0
        then dm_queue_if_no_path false
            (record mpp' { stat_map_failures = incr32 mpp'.stat_map_failures })
        else mpp')

-- So many seconds.
unfoldable pub ticks : ℕ → Multipath → Multipath
ticks zero mpp = mpp
ticks (suc n) mpp = ticks n (retry_count_tick mpp)
