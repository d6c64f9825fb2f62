-- ===== src/Recovery/States.antt =====
-- libmultipath/structs_vec.c: the states of recovery mode, and what each operation makes of them.
use multipath_tools.Base.{
  if◌then◌else◌, Bool-cases, ℕ, zero, suc, ◌-◌, ◌<◌, ◌≡◌, refl, inl, inr, Bool, true, false, ◌∷◌,
  arith,
}
use multipath_tools.Structs.{Heap, queue_if_no_path, fail_if_no_path, Multipath, incr32}
use multipath_tools.Recovery.{
  dm_queue_if_no_path, enter_recovery_mode, leave_recovery_mode, retry_without_paths,
  retry_with_paths, set_no_path_retry, update_queue_mode_del_path, update_queue_mode_add_path,
  is_counting, retry_count_tick,
}

-- What a change of the queueing mode leaves alone, and the message that it sends.
pub record Switched (enable : Bool) (mpp mpp' : Multipath) : Type 0 where
  pub recovery : mpp'.in_recovery ≡ mpp.in_recovery
  pub tick : mpp'.retry_tick ≡ mpp.retry_tick
  pub retry : mpp'.no_path_retry ≡ mpp.no_path_retry
  pub groups : mpp'.pg ≡ mpp.pg
  pub message : mpp'.sent ≡ (if enable then queue_if_no_path else fail_if_no_path) ∷ mpp.sent

pub dm_queue_if_no_path-Switched :
    (enable : Bool) (mpp : Multipath) → Switched enable mpp (dm_queue_if_no_path enable mpp)
unfolding dm_queue_if_no_path
dm_queue_if_no_path-Switched enable mpp = ground arith

-- Outside recovery mode no retries are left, and retries run only in recovery mode.
pub record IsConsistent (mpp : Multipath) : Type 0 where
  pub idle : mpp.in_recovery ≡ false → mpp.retry_tick ≡ 0
  pub ticking : 0 < mpp.retry_tick → mpp.in_recovery ≡ true

pub data Op : Type 0 where
  enters leaves adds dels ticks_once sets : Op

pub apply_op : ℕ → Heap → Op → Multipath → Multipath
apply_op checkint h enters = enter_recovery_mode checkint
apply_op checkint h leaves = leave_recovery_mode
apply_op checkint h adds = update_queue_mode_add_path h
apply_op checkint h dels = update_queue_mode_del_path checkint h
apply_op checkint h ticks_once = retry_count_tick
apply_op checkint h sets = set_no_path_retry checkint h

enter-IsConsistent :
    (checkint : ℕ) (mpp : Multipath)
    → IsConsistent mpp
    → IsConsistent (enter_recovery_mode checkint mpp)
unfolding enter_recovery_mode
enter-IsConsistent checkint mpp v = ground arith

pub leave_idle :
    (mpp : Multipath)
    → ((leave_recovery_mode mpp).in_recovery ≡ false) × ((leave_recovery_mode mpp).retry_tick ≡ 0)
unfolding leave_recovery_mode
leave_idle mpp =
    ground (
      arith,
      dm_queue_if_no_path-Switched true (record mpp { in_recovery = false; retry_tick = 0 }),
    )

leave-IsConsistent : (mpp : Multipath) → IsConsistent (leave_recovery_mode mpp)
leave-IsConsistent mpp = ground (arith, leave_idle mpp)

Switched-IsConsistent :
    (enable : Bool) (mpp mpp' : Multipath)
    → Switched enable mpp mpp'
    → IsConsistent mpp
    → IsConsistent mpp'
Switched-IsConsistent enable mpp mpp' s v = ground arith

-- The last tick stops queueing, and leaves recovery mode on.
pub tick_last :
    (mpp : Multipath)
    → mpp.retry_tick ≡ 1
    → ((retry_count_tick mpp).retry_tick ≡ 0)
      × ((retry_count_tick mpp).sent ≡ fail_if_no_path ∷ mpp.sent)
      × ((retry_count_tick mpp).in_recovery ≡ mpp.in_recovery)
unfolding retry_count_tick is_counting
tick_last mpp e =
    let last = dm_queue_if_no_path-Switched false (record mpp {
      stat_total_queueing_time = incr32 mpp.stat_total_queueing_time;
      retry_tick = mpp.retry_tick - 1;
      stat_map_failures = incr32 mpp.stat_map_failures;
    }) in
    ground (arith, last)

pub tick_early :
    (mpp : Multipath) (n : ℕ)
    → mpp.retry_tick ≡ suc (suc n)
    → is_counting mpp.retry_tick ≡ true
    → ((retry_count_tick mpp).retry_tick ≡ suc n)
      × ((retry_count_tick mpp).sent ≡ mpp.sent)
      × ((retry_count_tick mpp).in_recovery ≡ mpp.in_recovery)
unfolding retry_count_tick
tick_early mpp n e c = ground arith

pub tick_idle : (mpp : Multipath) → is_counting mpp.retry_tick ≡ false → retry_count_tick mpp ≡ mpp
unfolding retry_count_tick
tick_idle mpp e = rw e refl

pub is_counting-zero : (n : ℕ) → n ≡ 0 → is_counting n ≡ false
unfolding is_counting
is_counting-zero n e = rw e refl

counting-IsConsistent :
    (mpp : Multipath) (n : ℕ)
    → mpp.retry_tick ≡ n
    → is_counting mpp.retry_tick ≡ true
    → IsConsistent mpp
    → IsConsistent (retry_count_tick mpp)
counting-IsConsistent mpp zero e c v = rw (tick_idle mpp (is_counting-zero mpp.retry_tick e)) v
counting-IsConsistent mpp (suc zero) e c v = ground (arith, tick_last mpp e)
counting-IsConsistent mpp (suc (suc n)) e c v = ground (arith, tick_early mpp n e c)

tick_cases-IsConsistent :
    (mpp : Multipath) (n : ℕ)
    → mpp.retry_tick ≡ n
    → IsConsistent mpp
    → IsConsistent (retry_count_tick mpp)
tick_cases-IsConsistent mpp n e v = elim (Bool-cases (is_counting mpp.retry_tick)) [
  | inr c ↦ rw (tick_idle mpp c) v
  | inl c ↦ counting-IsConsistent mpp n e c v
]

with_paths-IsConsistent : (mpp : Multipath) → IsConsistent (retry_with_paths mpp)
unfolding retry_with_paths
with_paths-IsConsistent mpp = leave-IsConsistent _

without_paths-IsConsistent :
    (checkint : ℕ) (h : Heap) (mpp : Multipath)
    → IsConsistent mpp
    → IsConsistent (retry_without_paths checkint h mpp)
unfolding retry_without_paths
without_paths-IsConsistent checkint h mpp v =
    let off = dm_queue_if_no_path false mpp in
    let w = Switched-IsConsistent false mpp off (dm_queue_if_no_path-Switched false mpp) v in
    ground (arith, w, enter-IsConsistent checkint mpp v, enter-IsConsistent checkint off w)

set-IsConsistent :
    (checkint : ℕ) (h : Heap) (mpp : Multipath)
    → IsConsistent mpp
    → IsConsistent (set_no_path_retry checkint h mpp)
unfolding set_no_path_retry
set-IsConsistent checkint h mpp v = ground (
  arith,
  Switched-IsConsistent false mpp (dm_queue_if_no_path false mpp)
      (dm_queue_if_no_path-Switched false mpp) v,
  Switched-IsConsistent true mpp (dm_queue_if_no_path true mpp)
      (dm_queue_if_no_path-Switched true mpp) v,
  with_paths-IsConsistent mpp,
  without_paths-IsConsistent checkint h mpp v,
)

add-IsConsistent :
    (h : Heap) (mpp : Multipath)
    → IsConsistent mpp
    → IsConsistent (update_queue_mode_add_path h mpp)
unfolding update_queue_mode_add_path
add-IsConsistent h mpp v = ground (arith, leave-IsConsistent mpp)

del-IsConsistent :
    (checkint : ℕ) (h : Heap) (mpp : Multipath)
    → IsConsistent mpp
    → IsConsistent (update_queue_mode_del_path checkint h mpp)
unfolding update_queue_mode_del_path
del-IsConsistent checkint h mpp v = ground (arith, enter-IsConsistent checkint mpp v)

-- Every operation of the queueing mode, with the states of the paths as they may be at that time, keeps
-- the invariant: outside recovery mode no retries are left, and retries run only in recovery mode.
pub apply_op-IsConsistent :
    (checkint : ℕ) (h : Heap) (op : Op) (mpp : Multipath)
    → IsConsistent mpp
    → IsConsistent (apply_op checkint h op mpp)
unfolding apply_op
apply_op-IsConsistent checkint h enters mpp v = enter-IsConsistent checkint mpp v
apply_op-IsConsistent checkint h leaves mpp v = leave-IsConsistent mpp
apply_op-IsConsistent checkint h adds mpp v = add-IsConsistent h mpp v
apply_op-IsConsistent checkint h dels mpp v = del-IsConsistent checkint h mpp v
apply_op-IsConsistent checkint h ticks_once mpp v =
    tick_cases-IsConsistent mpp mpp.retry_tick refl v
apply_op-IsConsistent checkint h sets mpp v = set-IsConsistent checkint h mpp v
