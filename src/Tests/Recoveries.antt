-- ===== src/Tests/Recoveries.antt =====
-- A map that loses its paths, and the theorems at work on it.
use multipath_tools.Recovery.Changes.{set_no_path_retry_usable, set_no_path_retry_enters}
use multipath_tools.Tests.Paths.{path_with, three_paths, a_map}
use multipath_tools.Recovery.{set_no_path_retry, update_queue_mode_del_path, ticks}
use multipath_tools.Recovery.States.{IsConsistent, dels, apply_op, apply_op-IsConsistent}
use multipath_tools.Recovery.Period.{recovery_period, recovery_overflows}
use multipath_tools.Base.Text.{codes, contains}
use multipath_tools.Structs.{
  path_down, Heap, queue_if_no_path, fail_if_no_path, Multipath, count_active_paths,
  pathcount_pending,
}
use multipath_tools.Base.{pos, ℕ, ◌+◌, ◌≤◌, ◌<◌, ◌≡◌, refl, true, false, [], ◌∷◌, arith}

apply_op-IsConsistent_example : IsConsistent (apply_op 5 three_paths dels a_map)
apply_op-IsConsistent_example =
    apply_op-IsConsistent 5 three_paths dels a_map
      (record { idle = λ _. refl; ticking = λ h. absurd (omega arith) })

two_usable : 0 < count_active_paths three_paths a_map
unfolding count_active_paths
two_usable = omega arith

queueing_again :
    let mpp' = set_no_path_retry 5 three_paths a_map in
    (mpp'.in_recovery ≡ false) × (mpp'.retry_tick ≡ 0) × (mpp'.sent ≡ queue_if_no_path ∷ [])
unfolding contains
queueing_again = set_no_path_retry_usable 5 three_paths a_map 2 (codes "0") refl refl two_usable

abbrev all_down : Heap
all_down a = path_with path_down (pos 1) (codes "a")

none_usable : count_active_paths all_down a_map ≡ 0
unfolding count_active_paths
none_usable = refl

none_pending : pathcount_pending all_down a_map ≡ 0
unfolding pathcount_pending
none_pending = refl

retries_start :
    let mpp' = set_no_path_retry 5 all_down a_map in
    (mpp'.in_recovery ≡ true) × (mpp'.retry_tick ≡ 16) × (mpp'.sent ≡ [])
retries_start = set_no_path_retry_enters 5 all_down a_map 2 refl none_usable none_pending refl

-- A map with three retries, outside recovery mode, that loses its last path.
recovery_period_example :
    let start = update_queue_mode_del_path 5 all_down a_map in
    ((k : ℕ) → k ≤ 15 → ((ticks k start).sent ≡ []) × ((ticks k start).in_recovery ≡ true))
    × ((j : ℕ)
        → ((ticks (16 + j) start).sent ≡ fail_if_no_path ∷ [])
          × ((ticks (16 + j) start).in_recovery ≡ true))
recovery_period_example = recovery_period 5 all_down a_map 2 refl refl none_usable (omega arith)

-- With a million retries of 4000 seconds the map queues for ever.
abbrev patient_map : Multipath
patient_map = record a_map { no_path_retry = pos 1000000 }

no_end : (j : ℕ) → (ticks j (update_queue_mode_del_path 4000 all_down patient_map)).sent ≡ []
unfolding count_active_paths
no_end =
    recovery_overflows 4000 all_down patient_map 999999 refl refl refl (omega arith) (omega arith)
