-- ===== src/Checking/Fields.antt =====
-- multipathd/main.c: which fields of a path the steps of a check leave alone.
use multipath_tools.Base.{
  if◌then◌else◌, ==_refl, Bool-cases, ℕ, ◌≤◌, ◌≡◌, refl, sym, subst, inl, inr, Bool, true, false,
  ◌&&◌, arith,
}
use multipath_tools.Structs.{
  PathState, path_wild, path_unchecked, path_down, path_up, path_shaky, path_ghost, path_pending,
  path_timeout, path_removed, path_delayed, path_disconnected, disconnected_ready_for_purge,
  PathInfo, Heap, write, Multipath, count_active_paths,
}
use multipath_tools.Checking.{
  Conf, Probe, held_back, forget_error, count_failure, check_path_reinstate_state, should_skip_path,
  is_up, is_unusable, settle, is_disconnected, is_connected, get_new_state,
}

-- PATH_REMOVED, PATH_TIMEOUT or PATH_DISCONNECTED.
abbrev pub is_transient : PathState → Bool
is_transient path_removed = true
is_transient path_timeout = true
is_transient path_disconnected = true
is_transient _ = false

abbrev pub IsSettled : PathState → Type 0
IsSettled s = is_transient s ≡ false

-- The states are settled, and the check interval is between the configured limits.
abbrev pub IsStored : Conf → PathInfo → Type 0
IsStored conf pp =
    IsSettled pp.state
    × IsSettled pp.chkrstate
    × (conf.checkint ≤ pp.checkint)
    × (pp.checkint ≤ conf.max_checkint)

-- The fields that `IsStored` is about are the same, and the number of the group.
abbrev pub Agrees : PathInfo → PathInfo → Type 0
Agrees p q =
    (p.state ≡ q.state)
    × (p.chkrstate ≡ q.chkrstate)
    × (p.checkint ≡ q.checkint)
    × (p.pgindex ≡ q.pgindex)

pub Agrees-refl : (p : PathInfo) → Agrees p p
Agrees-refl p = (refl, refl, refl, refl)

pub Agrees-IsStored :
    (conf : Conf) (p q : PathInfo) → Agrees p q → IsStored conf q → IsStored conf p
Agrees-IsStored conf p q (s, c, i, g) (hs, hc, lo, hi) =
    (subst IsSettled (sym s) hs, subst IsSettled (sym c) hc, omega arith, omega arith)

pub settle-IsSettled : (s : PathState) → IsSettled (settle s)
unfolding settle
settle-IsSettled path_wild = refl
settle-IsSettled path_unchecked = refl
settle-IsSettled path_down = refl
settle-IsSettled path_up = refl
settle-IsSettled path_shaky = refl
settle-IsSettled path_ghost = refl
settle-IsSettled path_pending = refl
settle-IsSettled path_timeout = refl
settle-IsSettled path_removed = refl
settle-IsSettled path_delayed = refl
settle-IsSettled path_disconnected = refl

pub held_back-Agrees :
    (now active : ℕ) (mpp : Multipath) (pp : PathInfo) → Agrees (held_back now active mpp pp).1 pp
unfolding held_back
held_back-Agrees now active mpp pp = ground arith

pub count_failure-Agrees :
    (now : ℕ) (mpp : Multipath) (pp : PathInfo) → Agrees (count_failure now mpp pp).1 pp
unfolding count_failure
count_failure-Agrees now mpp pp = ground arith

pub forget_error-Agrees : (mpp : Multipath) (pp : PathInfo) → Agrees (forget_error mpp pp) pp
unfolding forget_error
forget_error-Agrees mpp pp = ground arith

pub write-same : (h : Heap) (a : ℕ) (p : PathInfo) → write h a p a ≡ p
write-same h a p = rw (==_refl a) refl

pub check_path_reinstate_state-Agrees :
    (now : ℕ) (h : Heap) (mpp : Multipath) (pp : PathInfo)
    → Agrees (check_path_reinstate_state now h mpp pp).1 pp
unfolding check_path_reinstate_state
check_path_reinstate_state-Agrees now h mpp pp =
    let held = held_back-Agrees now (count_active_paths h mpp) mpp pp in
    let forgot = forget_error-Agrees mpp pp in
    let counted = count_failure-Agrees now mpp pp in ground arith

pub should_skip_path-Agrees :
    (probe : Probe) (h : Heap) (mpp : Multipath) (pp : PathInfo)
    → Agrees (should_skip_path probe h mpp pp).1 pp
unfolding should_skip_path
should_skip_path-Agrees probe h mpp pp =
    let checked = check_path_reinstate_state-Agrees probe.now h mpp pp in ground arith

pub get_new_state-IsSettled :
    (probe : Probe) (mpp : Multipath) (pp : PathInfo) → IsSettled (get_new_state probe mpp pp).0
unfolding get_new_state
get_new_state-IsSettled probe mpp pp =
    settle-IsSettled (if is_up pp.sysfs_state then probe.checker else pp.sysfs_state)

pub get_new_state-IsStored :
    (conf : Conf) (probe : Probe) (mpp : Multipath) (pp : PathInfo)
    → ((p : PathInfo) → IsStored conf p → IsStored conf (probe.reread p))
    → IsStored conf pp
    → IsStored conf (get_new_state probe mpp pp).1
unfolding get_new_state
get_new_state-IsStored conf probe mpp pp reread k =
    let seen = if is_up pp.sysfs_state then probe.checker else pp.sysfs_state in
    let purge = is_disconnected seen && mpp.purge_disconnected && is_connected pp.disconnected in
    let marked = record pp { disconnected = disconnected_ready_for_purge } in
    elim (Bool-cases purge) [
      | inl e ↦ elim (Bool-cases (is_unusable (settle seen))) [
        | inl u ↦ rw (e, u) (reread marked k)
        | inr u ↦ rw (e, u) k
      ]
      | inr e ↦ elim (Bool-cases (is_unusable (settle seen))) [
        | inl u ↦ rw (e, u) (reread pp k)
        | inr u ↦ rw (e, u) k
      ]
    ]
