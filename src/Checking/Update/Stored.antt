-- ===== src/Checking/Update/Stored.antt =====
-- multipathd/main.c, `update_path_state`: what is stored in the path.
use multipath_tools.Base.{
  ◌==◌, if◌then◌else◌, Bool-cases, length, ℕ, ◌≤◌, ◌≡◌, refl, inl, inr, Bool, not, ◌&&◌, ◌||◌,
  Option, none, some, arith,
}
use multipath_tools.Base.Text.{Text, strn_eq}
use multipath_tools.Structs.{
  PathState, path_ghost, init_ok, PathInfo, Heap, write, is_usable, Multipath, count_active_paths,
  is_pending,
}
use multipath_tools.Checking.{
  Conf, Probe, marginal_path_check_enabled, san_path_check_enabled, is_delayed, should_skip_path,
  is_unusable, get_new_state,
}
use multipath_tools.Checking.Fields.{
  IsSettled, IsStored, Agrees, Agrees-refl, Agrees-IsStored, write-same, should_skip_path-Agrees,
  get_new_state-IsSettled, get_new_state-IsStored,
}
use multipath_tools.Checking.Update.{
  CheckResult, check_path_checked, check_path_new_up, is_dm_failed, is_dm_undef, eq_state,
  new_path_wwid_changed, is_init_new, check_wwid, marginal_step, went_up, delay_next_check,
  stays_up, stays_down, finish, apply_state, settle_path, update_path_state,
}

new_path_wwid_changed-Agrees :
    (uid : Option Text) (pp : PathInfo) → Agrees (new_path_wwid_changed uid pp).1 pp
unfolding new_path_wwid_changed
new_path_wwid_changed-Agrees none pp = Agrees-refl pp
new_path_wwid_changed-Agrees (some uid) pp =
    elim (Bool-cases (not (length pp.wwid == 0) && not (strn_eq 128 pp.wwid uid))) [
      | inl e ↦ rw e (Agrees-refl pp)
      | inr e ↦ rw e (refl, refl, refl, refl)
    ]

pub check_wwid-Agrees :
    (probe : Probe) (newstate : PathState) (pp : PathInfo)
    → Agrees (check_wwid probe newstate pp).1 pp
unfolding check_wwid
check_wwid-Agrees probe newstate pp =
    let back = is_usable newstate && (not (is_usable pp.state) || is_dm_failed pp.dmstate) in
    let changed = new_path_wwid_changed-Agrees probe.uid (record pp { initialized = init_ok }) in
    elim (Bool-cases back) [
      | inr e ↦ rw e (Agrees-refl pp)
      | inl e ↦ elim (Bool-cases (is_init_new pp.initialized)) [
        | inl k ↦ rw (e, k) changed
        | inr k ↦ rw (e, k) (Agrees-refl pp)
      ]
    ]

marginal_step-IsStored :
    (conf : Conf) (probe : Probe) (h : Heap) (mpp : Multipath) (pp : PathInfo)
    → IsStored conf pp
    → IsStored conf (marginal_step conf probe h mpp pp).1
unfolding marginal_step
marginal_step-IsStored conf probe h mpp pp k =
    let skipped = should_skip_path-Agrees probe h mpp pp in
    let kept = Agrees-IsStored conf (should_skip_path probe h mpp pp).1 pp skipped k in
    let r = should_skip_path probe h mpp pp in
    elim (Bool-cases r.0) [
      | inl e ↦ elim (Bool-cases conf.marginal_pathgroups) [
        | inl m ↦ elim (Bool-cases r.1.marginal) [
          | inl t ↦ rw (e, m, t) kept
          | inr t ↦ rw (e, m, t) kept
        ]
        | inr m ↦ rw (e, m) (refl, kept.1, kept.2, kept.3)
      ]
      | inr e ↦ elim (Bool-cases (conf.marginal_pathgroups && r.1.marginal)) [
        | inl m ↦ rw (e, m) kept
        | inr m ↦ rw (e, m) kept
      ]
    ]

check_wwid-IsStored :
    (conf : Conf) (probe : Probe) (newstate : PathState) (pp : PathInfo)
    → IsStored conf pp
    → IsStored conf (check_wwid probe newstate pp).1
check_wwid-IsStored conf probe newstate pp k =
    Agrees-IsStored conf (check_wwid probe newstate pp).1 pp (check_wwid-Agrees probe newstate pp) k

delay_next_check_bounds :
    (conf : Conf) (n : ℕ)
    → conf.checkint ≤ n
    → n ≤ conf.max_checkint
    → (conf.checkint ≤ delay_next_check conf n) × (delay_next_check conf n ≤ conf.max_checkint)
unfolding delay_next_check
delay_next_check_bounds conf n h k = ground arith

stays_up-IsStored :
    (conf : Conf) (h : Heap) (mpp : Multipath) (a : ℕ) (d : Bool)
    → IsStored conf (h a)
    → IsStored conf ((stays_up conf h mpp a d).0 a)
unfolding stays_up
stays_up-IsStored conf h mpp a d (s, c, lo, hi) =
    let bounds = delay_next_check_bounds conf (h a).checkint lo hi in
    elim (Bool-cases ((is_dm_failed (h a).dmstate || is_dm_undef (h a).dmstate) && not d)) [
      | inl e ↦ rw e (s, c, lo, hi)
      | inr e ↦
          rw (e, write-same h a (record (h a) { checkint = delay_next_check conf (h a).checkint }))
            (s, c, bounds.0, bounds.1)
    ]

stays_down-IsStored :
    (conf : Conf) (h : Heap) (mpp : Multipath) (a : ℕ)
    → conf.checkint ≤ conf.max_checkint
    → IsStored conf (h a)
    → IsStored conf ((stays_down conf h mpp a).0 a)
unfolding stays_down
stays_down-IsStored conf h mpp a le (s, c, lo, hi) =
    rw (write-same h a (record (h a) { checkint = conf.checkint })) (s, c, omega arith, le)

finish-heap :
    (r : CheckResult) (newstate : PathState) (w : Heap × Multipath) → (finish r newstate w).1 ≡ w.0
unfolding finish
finish-heap r newstate (h, mpp) = refl

apply_state-IsStored :
    (conf : Conf) (probe : Probe) (h : Heap) (mpp : Multipath) (a : ℕ) (pp : PathInfo)
    (newstate : PathState)
    → conf.checkint ≤ conf.max_checkint
    → IsSettled newstate
    → IsStored conf pp
    → IsStored conf ((apply_state conf probe h mpp a pp newstate).1 a)
unfolding apply_state
apply_state-IsStored conf probe h mpp a pp newstate le n (s, c, lo, hi) =
    let same_pp = record pp { chkrstate = newstate } in
    let new_pp = record pp { chkrstate = newstate; state = newstate; checkint = conf.checkint } in
    let at_same : IsStored conf (write h a same_pp a) =
      rw (write-same h a same_pp) (s, n, lo, hi) in
    let at_new : IsStored conf (write h a new_pp a) =
      rw (write-same h a new_pp) (n, n, omega arith, le) in
    let disable =
      eq_state newstate path_ghost
      && (count_active_paths (write h a pp) mpp == 0)
      && probe.implicit in
    elim (Bool-cases (eq_state newstate pp.state)) [
      | inl e ↦ elim (Bool-cases (is_usable newstate)) [
        | inl u ↦
            rw
              (
                e,
                u,
                finish-heap check_path_checked newstate
                    (stays_up conf (write h a same_pp) mpp a disable),
              )
              (stays_up-IsStored conf (write h a same_pp) mpp a disable at_same)
        | inr u ↦
            rw
              (
                e,
                u,
                finish-heap check_path_checked newstate (stays_down conf (write h a same_pp) mpp a),
              )
              (stays_down-IsStored conf (write h a same_pp) mpp a le at_same)
      ]
      | inr e ↦ elim (Bool-cases (is_usable newstate)) [
        | inl u ↦
            rw
              (
                e,
                u,
                finish-heap
                    (if is_usable pp.chkrstate then check_path_checked else check_path_new_up)
                    newstate (write h a new_pp, went_up probe (write h a new_pp) mpp a disable),
              )
              at_new
        | inr u ↦ rw (e, u) at_new
      ]
    ]

settle_path-IsStored :
    (conf : Conf) (probe : Probe) (h : Heap) (mpp : Multipath) (a : ℕ) (pp : PathInfo)
    (newstate : PathState)
    → conf.checkint ≤ conf.max_checkint
    → IsSettled newstate
    → IsStored conf pp
    → IsStored conf ((settle_path conf probe h mpp a pp newstate).1 a)
unfolding settle_path
settle_path-IsStored conf probe h mpp a pp newstate le n k =
    let r = marginal_step conf probe (write h a pp) mpp pp in
    let kept = marginal_step-IsStored conf probe (write h a pp) mpp pp k in
    let reset = record pp { state = newstate; checkint = conf.checkint } in
    elim (Bool-cases (not (is_usable newstate) && is_delayed pp.state)) [
      | inl e ↦ rw (e, write-same h a reset) (n, k.1, omega arith, le)
      | inr e ↦
          elim (Bool-cases (
            is_usable newstate
            && (san_path_check_enabled mpp || marginal_path_check_enabled mpp))) [
              | inr m ↦ rw (e, m) (apply_state-IsStored conf probe h mpp a pp newstate le n k)
              | inl m ↦ elim (Bool-cases r.0) [
                | inl t ↦ rw (e, m, t, write-same h a r.1) kept
                | inr t ↦
                    rw (e, m, t) (apply_state-IsStored conf probe h r.2 a r.1 newstate le n kept)
              ]
            ]
    ]

-- A check of a path leaves PATH_REMOVED, PATH_TIMEOUT and PATH_DISCONNECTED neither in `state` nor in
-- `chkrstate`, and the check interval between `checkint` and `max_checkint`, if that was so before the
-- check, `checkint` is at most `max_checkint`, and reading the path again leaves it so.
pub update_path_state-IsStored :
    (conf : Conf) (probe : Probe) (h : Heap) (mpp : Multipath) (a : ℕ)
    → conf.checkint ≤ conf.max_checkint
    → ((p : PathInfo) → IsStored conf p → IsStored conf (probe.reread p))
    → IsStored conf (h a)
    → IsStored conf ((update_path_state conf probe h mpp a).1 a)
unfolding update_path_state
update_path_state-IsStored conf probe h mpp a le reread k =
    let r = get_new_state probe mpp (h a) in
    let w = check_wwid probe r.0 r.1 in
    let n = get_new_state-IsSettled probe mpp (h a) in
    let read = get_new_state-IsStored conf probe mpp (h a) reread k in
    let checked = check_wwid-IsStored conf probe r.0 r.1 read in
    elim (Bool-cases (is_unusable r.0)) [
      | inl e ↦ rw (e, write-same h a r.1) read
      | inr e ↦ elim (Bool-cases (is_pending r.0)) [
        | inl p ↦ rw (e, p, write-same h a (record r.1 { tick = 1 })) read
        | inr p ↦ elim (Bool-cases w.0) [
          | inl c ↦ rw (e, p, c, write-same h a w.1) checked
          | inr c ↦ rw (e, p, c) (settle_path-IsStored conf probe h mpp a w.1 r.0 le n checked)
        ]
      ]
    ]
