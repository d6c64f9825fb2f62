-- ===== src/Recovery/Changes.antt =====
-- libmultipath/structs_vec.c, `set_no_path_retry`: what it sends, and when it enters recovery mode.
use multipath_tools.Base.{
  if◌then◌else◌, pos, ℕ, suc, ◌+◌, ◌*◌, ◌%◌, ◌^◌, ◌<◌, ◌≡◌, ◌∙◌, true, false, not, ◌||◌, some, ◌∷◌,
  arith,
}
use multipath_tools.Base.Text.{Text}
use multipath_tools.Structs.{
  Heap, queue_if_no_path, Multipath, count_active_paths, pathcount_pending,
}
use multipath_tools.Recovery.{
  dm_queue_if_no_path, enter_recovery_mode, leave_recovery_mode, is_queueing, retry_without_paths,
  retry_with_paths, set_no_path_retry,
}
use multipath_tools.Recovery.States.{dm_queue_if_no_path-Switched, leave_idle}

leave-sent :
    (mpp : Multipath) (n : ℕ)
    → mpp.no_path_retry ≡ pos (suc n)
    → (leave_recovery_mode mpp).sent
      ≡ (if mpp.in_recovery then queue_if_no_path ∷ mpp.sent else mpp.sent)
unfolding leave_recovery_mode
leave-sent mpp n r =
    ground (
      arith,
      dm_queue_if_no_path-Switched true (record mpp { in_recovery = false; retry_tick = 0 }),
    )

with_paths-sent :
    (mpp : Multipath) (n : ℕ) (f : Text)
    → mpp.no_path_retry ≡ pos (suc n)
    → mpp.features ≡ some f
    → (retry_with_paths mpp).sent ≡ (
        if not (is_queueing (some f)) || mpp.in_recovery
        then queue_if_no_path ∷ mpp.sent
        else mpp.sent)
unfolding retry_with_paths
with_paths-sent mpp n f r g =
    let on = dm_queue_if_no_path-Switched true mpp in
    ground
      (arith, on, leave-sent mpp n r, leave-sent (dm_queue_if_no_path true mpp) n (on.retry ∙ r))

with_paths_idle :
    (mpp : Multipath)
    → ((retry_with_paths mpp).in_recovery ≡ false) × ((retry_with_paths mpp).retry_tick ≡ 0)
unfolding retry_with_paths
with_paths_idle mpp = leave_idle _

set_no_path_retry-with_paths :
    (checkint : ℕ) (h : Heap) (mpp : Multipath) (n : ℕ)
    → mpp.no_path_retry ≡ pos (suc n)
    → 0 < count_active_paths h mpp
    → set_no_path_retry checkint h mpp ≡ retry_with_paths mpp
unfolding set_no_path_retry
set_no_path_retry-with_paths checkint h mpp n r a = ground arith

-- With a usable path and a number of retries, `set_no_path_retry` ends recovery mode; it sends one
-- message to queue if the map was in recovery mode or its features do not say that it queues, and
-- nothing otherwise.
pub set_no_path_retry_usable :
    (checkint : ℕ) (h : Heap) (mpp : Multipath) (n : ℕ) (f : Text)
    → mpp.no_path_retry ≡ pos (suc n)
    → mpp.features ≡ some f
    → 0 < count_active_paths h mpp
    → let mpp' = set_no_path_retry checkint h mpp in
      (mpp'.in_recovery ≡ false)
      × (mpp'.retry_tick ≡ 0)
      × (mpp'.sent ≡ (
          if not (is_queueing (some f)) || mpp.in_recovery
          then queue_if_no_path ∷ mpp.sent
          else mpp.sent))
set_no_path_retry_usable checkint h mpp n f r g a =
    rw (set_no_path_retry-with_paths checkint h mpp n r a)
      ((with_paths_idle mpp).0, (with_paths_idle mpp).1, with_paths-sent mpp n f r g)

without_paths-enter :
    (checkint : ℕ) (h : Heap) (mpp : Multipath) (n : ℕ)
    → mpp.no_path_retry ≡ pos (suc n)
    → count_active_paths h mpp ≡ 0
    → pathcount_pending h mpp ≡ 0
    → mpp.in_recovery ≡ false
    → set_no_path_retry checkint h mpp ≡ enter_recovery_mode checkint mpp
unfolding set_no_path_retry retry_without_paths
without_paths-enter checkint h mpp n r a p i = ground arith

-- With a number of retries but no path that is usable or pending, a map that is not in recovery mode
-- enters it: nothing is sent, and the retries are the number times the check interval, and one more,
-- modulo 2 ^ 32.
pub set_no_path_retry_enters :
    (checkint : ℕ) (h : Heap) (mpp : Multipath) (n : ℕ)
    → mpp.no_path_retry ≡ pos (suc n)
    → count_active_paths h mpp ≡ 0
    → pathcount_pending h mpp ≡ 0
    → mpp.in_recovery ≡ false
    → let mpp' = set_no_path_retry checkint h mpp in
      (mpp'.in_recovery ≡ true)
      × (mpp'.retry_tick ≡ (suc n * checkint + 1) % 2 ^ 32)
      × (mpp'.sent ≡ mpp.sent)
unfolding enter_recovery_mode
set_no_path_retry_enters checkint h mpp n r a p i =
    rw (without_paths-enter checkint h mpp n r a p i) (ground arith)
