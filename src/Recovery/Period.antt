-- ===== src/Recovery/Period.antt =====
-- How long a map without paths goes on queueing.
use native.Mathlib.Nat.{zero-add, suc-add}
use multipath_tools.Base.{
  tests, pos, ℕ, zero, suc, ◌+◌, ◌-◌, ◌*◌, ◌%◌, ◌^◌, ◌≤◌, ◌<◌, ◌≡◌, refl, ap, ◌∙◌, true, false, ◌∷◌,
  arith,
}
use multipath_tools.Structs.{Heap, fail_if_no_path, Multipath, count_active_paths}
use multipath_tools.Recovery.States.{tick_last, tick_early, tick_idle, is_counting-zero}
use multipath_tools.Recovery.{
  enter_recovery_mode, update_queue_mode_del_path, is_counting, retry_count_tick, ticks,
}

counts : (n : ℕ) → 0 < n → n < 2 ^ 31 → is_counting n ≡ true
unfolding is_counting
counts n p q = grind (arith, tests)

counts_not : (n : ℕ) → 2 ^ 31 ≤ n → is_counting n ≡ false
unfolding is_counting
counts_not n p = grind (arith, tests)

ticks_early :
    (k n : ℕ) (mpp : Multipath)
    → mpp.retry_tick ≡ suc (k + n)
    → suc (k + n) < 2 ^ 31
    → ((ticks k mpp).retry_tick ≡ suc n)
      × ((ticks k mpp).sent ≡ mpp.sent)
      × ((ticks k mpp).in_recovery ≡ mpp.in_recovery)
unfolding ticks
ticks_early zero n mpp e l = (omega arith, refl, refl)
ticks_early (suc k) n mpp e l =
    let c = counts mpp.retry_tick (omega arith) (omega arith) in
    let (tick, sent, recovery) = tick_early mpp (k + n) (omega arith) c in
    let (tick', sent', recovery') = ticks_early k n (retry_count_tick mpp) tick (omega arith) in
    (tick', sent' ∙ sent, recovery' ∙ recovery)

ticks_idle : (j : ℕ) (mpp : Multipath) → is_counting mpp.retry_tick ≡ false → ticks j mpp ≡ mpp
unfolding ticks
ticks_idle zero mpp e = refl
ticks_idle (suc j) mpp e = rw (tick_idle mpp e) (ticks_idle j mpp e)

enter_lem :
    (checkint : ℕ) (mpp : Multipath) (n : ℕ)
    → mpp.in_recovery ≡ false
    → mpp.no_path_retry ≡ pos (suc n)
    → ((enter_recovery_mode checkint mpp).retry_tick ≡ (suc n * checkint + 1) % 2 ^ 32)
      × ((enter_recovery_mode checkint mpp).sent ≡ mpp.sent)
      × ((enter_recovery_mode checkint mpp).in_recovery ≡ true)
unfolding enter_recovery_mode
enter_lem checkint mpp n i r = ground arith

del_path-enter :
    (checkint : ℕ) (h : Heap) (mpp : Multipath) (n : ℕ)
    → mpp.no_path_retry ≡ pos (suc n)
    → count_active_paths h mpp ≡ 0
    → update_queue_mode_del_path checkint h mpp ≡ enter_recovery_mode checkint mpp
unfolding update_queue_mode_del_path enter_recovery_mode
del_path-enter checkint h mpp n r a = ground arith

-- A map that is not in recovery mode, at the loss of its last path.
del_path_lem :
    (checkint : ℕ) (h : Heap) (mpp : Multipath) (n : ℕ)
    → mpp.in_recovery ≡ false
    → mpp.no_path_retry ≡ pos (suc n)
    → count_active_paths h mpp ≡ 0
    → let start = update_queue_mode_del_path checkint h mpp in
      (start.retry_tick ≡ (suc n * checkint + 1) % 2 ^ 32)
      × (start.sent ≡ mpp.sent)
      × (start.in_recovery ≡ true)
del_path_lem checkint h mpp n i r a =
    rw (del_path-enter checkint h mpp n r a) (enter_lem checkint mpp n i r)

-- The last of the seconds, and those behind it.
ticks_late :
    (period j : ℕ) (mpp : Multipath)
    → mpp.retry_tick ≡ suc period
    → suc period < 2 ^ 31
    → ((ticks (suc period + j) mpp).sent ≡ fail_if_no_path ∷ mpp.sent)
      × ((ticks (suc period + j) mpp).in_recovery ≡ mpp.in_recovery)
unfolding ticks
ticks_late zero j mpp e l =
    let (tick, sent, recovery) = tick_last mpp e in
    let still = is_counting-zero (retry_count_tick mpp).retry_tick tick in
    rw (suc-add, zero-add) (rw (ticks_idle j (retry_count_tick mpp) still) (sent, recovery))
ticks_late (suc period) j mpp e l =
    let c = counts mpp.retry_tick (omega arith) (omega arith) in
    let (tick, sent, recovery) = tick_early mpp period e c in
    let (sent', recovery') = ticks_late period j (retry_count_tick mpp) tick (omega arith) in
    rw suc-add (sent' ∙ ap (◌∷◌ fail_if_no_path) sent, recovery' ∙ recovery)

large : (p tick : ℕ) → tick ≡ (p + 1) % 2 ^ 32 → 2 ^ 31 ≤ p + 1 → p + 1 < 2 ^ 32 → 2 ^ 31 ≤ tick
large p tick e l u = omega arith

small_period : (p : ℕ) → p + 1 < 2 ^ 31 → (p + 1) % 2 ^ 32 ≡ suc p
small_period p l = omega arith

-- A map with `n + 1` retries, outside recovery mode, from the moment when the daemon has seen the last
-- usable path go, where the retries times the check interval, and one more, are a positive `int`: for as
-- many seconds as the retries times the check interval it sends nothing; with the next second it stops
-- queueing, by one message, and however long it then goes on without a path it sends no other. It stays
-- in recovery mode all the time.
pub recovery_period :
    (checkint : ℕ) (h : Heap) (mpp : Multipath) (n : ℕ)
    → mpp.in_recovery ≡ false
    → mpp.no_path_retry ≡ pos (suc n)
    → count_active_paths h mpp ≡ 0
    → suc n * checkint + 1 < 2 ^ 31
    → let start = update_queue_mode_del_path checkint h mpp in
      let period = suc n * checkint in
      ((k : ℕ)
        → k ≤ period
        → ((ticks k start).sent ≡ mpp.sent) × ((ticks k start).in_recovery ≡ true))
      × ((j : ℕ)
          → ((ticks (suc period + j) start).sent ≡ fail_if_no_path ∷ mpp.sent)
            × ((ticks (suc period + j) start).in_recovery ≡ true))
recovery_period checkint h mpp n i r a l =
    let start = update_queue_mode_del_path checkint h mpp in
    let period = suc n * checkint in
    let (wrapped, sent, recovery) = del_path_lem checkint h mpp n i r a in
    let tick : start.retry_tick ≡ suc period = wrapped ∙ small_period period l in
    (
      λ k b.
          let (_, sent', recovery') =
            ticks_early k (period - k) start (tick ∙ omega arith) (omega arith) in
          (sent' ∙ sent, recovery' ∙ recovery),
      λ j.
          let (sent', recovery') = ticks_late period j start tick (omega arith) in
          (sent' ∙ ap (◌∷◌ fail_if_no_path) sent, recovery' ∙ recovery),
    )

-- Where they are more than a positive `int` and no more than an `unsigned int`, the counter is negative
-- from the start: it never runs, and the map never stops queueing.
pub recovery_overflows :
    (checkint : ℕ) (h : Heap) (mpp : Multipath) (n : ℕ)
    → mpp.in_recovery ≡ false
    → mpp.no_path_retry ≡ pos (suc n)
    → count_active_paths h mpp ≡ 0
    → 2 ^ 31 ≤ suc n * checkint + 1
    → suc n * checkint + 1 < 2 ^ 32
    → (j : ℕ) → (ticks j (update_queue_mode_del_path checkint h mpp)).sent ≡ mpp.sent
recovery_overflows checkint h mpp n i r a l u j =
    let start = update_queue_mode_del_path checkint h mpp in
    let (wrapped, sent, recovery) = del_path_lem checkint h mpp n i r a in
    rw
      (ticks_idle j start
        (counts_not start.retry_tick (large (suc n * checkint) start.retry_tick wrapped l u)))
      sent
