-- ===== src/Checking/Schedule/Alignment.antt =====
-- multipathd/main.c: the checks of the paths of a map come together at the goal index of the map.
use Prim.Native.Nat.{◌∣◌}
use native.Mathlib.Nat.{
  dvd-sub, dvd-mul_right, mod-mod_of_dvd, add-mod_right, mod-eq-zero_of_dvd, mod-add-div,
  add-mul-mod_self_left,
}
use multipath_tools.Base.{
  ltb, leb, ◌==◌, if◌then◌else◌, leb→le, ==→eq, Bool-cases, pos, pos_part, neg_part, ◌-ℤ◌, ℕ, zero,
  suc, ◌+◌, ◌-◌, ◌*◌, ◌/◌, ◌%◌, ◌≤◌, ◌<◌, ◌≡◌, refl, sym, ap, ◌∙◌, subst, ◌≢◌, inl, inr, true,
  false, arith,
}
use multipath_tools.Structs.{PathState, PathInfo}
use multipath_tools.Checking.{Conf}
use multipath_tools.Checking.Update.{CheckResult, check_path_started, check_path_skipped}
use multipath_tools.Checking.Intervals.{checkint_undef}
use multipath_tools.Checking.Schedule.{is_init_removed, check_path, is_off, schedule_next}

abbrev distance : ℕ → ℕ → ℕ
distance a b = pos_part (pos a -ℤ pos b) + neg_part (pos a -ℤ pos b)

distance_ge : (a b : ℕ) → b ≤ a → distance a b ≡ a - b
distance_ge a b h = ground arith

distance_le : (a b : ℕ) → a ≤ b → distance a b ≡ b - a
distance_le a b h = ground arith

-- Equal remainders, and a difference without remainder.
pub sub-mod_zero : (a b c : ℕ) → b ≤ a → a % c ≡ b % c → (a - b) % c ≡ 0
sub-mod_zero a b c h e =
    let m = mod-add-div a c in
    let n = mod-add-div b c in
    let s : a - b ≡ c * (a / c) - c * (b / c) = omega arith in
    rw s (mod-eq-zero_of_dvd c (dvd-sub c (dvd-mul_right c (a / c)) (dvd-mul_right c (b / c))))

mod_of_sub : (a b c : ℕ) → b ≤ a → (a - b) % c ≡ 0 → a % c ≡ b % c
mod_of_sub a b c h e =
    let q = (a - b) / c in
    let d : c * q ≡ a - b = let m = mod-add-div (a - b) c in omega arith in
    let s : a ≡ b + c * q = omega arith in ap (λ t. t % c) s ∙ add-mul-mod_self_left b c q

-- The test of `update_path`, with the distance taken on the side of the larger number.
is_off-false : (g n c : ℕ) → g % c ≡ n % c → is_off g n c ≡ false
is_off-false g n c e = elim (Bool-cases (leb n g)) [
  | inl h ↦ rw (distance_ge g n (leb→le n g h), sub-mod_zero g n c (leb→le n g h) e) refl
  | inr h ↦ rw (distance_le g n (ground arith), sub-mod_zero n g c (ground arith) (sym e)) refl
]

is_off-true : (g n c : ℕ) → g % c ≢ n % c → is_off g n c ≡ true
is_off-true g n c q = elim (Bool-cases (distance g n % c == 0)) [
  | inl h ↦
      let z = ==→eq (distance g n % c) 0 h in
      absurd (elim (Bool-cases (leb n g)) [
        | inl k ↦
            let l = leb→le n g k in
            q (mod_of_sub g n c l (ap (λ t. t % c) (sym (distance_ge g n l)) ∙ z))
        | inr k ↦
            let l : g ≤ n = ground arith in
            q (sym (mod_of_sub n g c l (ap (λ t. t % c) (sym (distance_le g n l)) ∙ z)))
      ])
  | inr h ↦ rw h refl
]

-- Seconds and goal, compared modulo the interval.
next_mod : (conf : Conf) (s c : ℕ) → c ∣ conf.adjust_int → (s + c) % conf.adjust_int % c ≡ s % c
next_mod conf s c d = mod-mod_of_dvd c (s + c) d ∙ add-mod_right s c

-- One round of the loop for a path that has a map, and whose check, if one starts in the round, ends in
-- it and finds nothing that changes the interval or the initialisation.
abbrev pub after_check : Conf → ℕ → ℕ → CheckResult × PathInfo → PathInfo
after_check conf goal s (check_path_started, pp) = schedule_next conf goal s pp
after_check conf goal s (r, pp) = pp

abbrev pub second : Conf → PathState → ℕ → ℕ → PathInfo → PathInfo
second conf sysfs goal s pp = after_check conf goal s (check_path conf sysfs 1 pp)

-- So many rounds, a second each, the first at `s`.
abbrev pub seconds : Conf → PathState → ℕ → ℕ → ℕ → PathInfo → PathInfo
seconds conf sysfs goal zero s pp = pp
seconds conf sysfs goal (suc n) s pp =
    seconds conf sysfs goal n (s + 1) (second conf sysfs goal s pp)

two_more : (n : ℕ) → suc n + 1 ≡ n + 2
two_more n = omega arith

-- The path is checked in the next round, and its checker is not at work.
abbrev pub IsDue : ℕ → PathInfo → Type 0
IsDue c pp =
    (is_init_removed pp.initialized ≡ false)
    × (pp.checkint ≡ c)
    × (pp.pending_ticks ≡ 0)
    × (pp.tick ≡ 1)

-- A path that waits for its next check.
abbrev pub IsWaiting : ℕ → ℕ → PathInfo → Type 0
IsWaiting c n pp =
    (is_init_removed pp.initialized ≡ false)
    × (pp.checkint ≡ c)
    × (pp.pending_ticks ≡ 0)
    × (pp.tick ≡ n)

check_path-skipped :
    (conf : Conf) (sysfs : PathState) (n : ℕ) (pp : PathInfo)
    → is_init_removed pp.initialized ≡ false
    → pp.tick ≡ n + 2
    → check_path conf sysfs 1 pp ≡ (check_path_skipped, record pp { tick = n + 1 })
unfolding check_path
check_path-skipped conf sysfs n pp i t =
    let a : (pp.tick == 0) ≡ false = ground arith in
    let b : ltb 1 pp.tick ≡ true = ground arith in
    let c : pp.tick - 1 ≡ n + 1 = omega arith in
    let d : (n + 1 == 0) ≡ false = ground arith in rw (check_path, i, a, b, c, d) refl

check_path-started :
    (conf : Conf) (sysfs : PathState) (pp : PathInfo)
    → is_init_removed pp.initialized ≡ false
    → pp.tick ≡ 1
    → pp.checkint < checkint_undef
    → check_path conf sysfs 1 pp ≡ (check_path_started, record pp { tick = 0; sysfs_state = sysfs })
unfolding check_path
check_path-started conf sysfs pp i t u =
    let a : (pp.tick == 0) ≡ false = ground arith in
    let b : ltb 1 pp.tick ≡ false = ground arith in
    let c : pp.tick - pp.tick ≡ 0 = omega arith in
    let d : (pp.checkint == checkint_undef) ≡ false = ground arith in
    rw (check_path, i, a, b, c, d) refl

schedule_next_lem :
    (conf : Conf) (goal s c : ℕ) (pp : PathInfo)
    → 1 < c
    → pp.checkint ≡ c
    → pp.pending_ticks ≡ 0
    → pp.tick ≡ 0
    → schedule_next conf goal s pp ≡ (
        if is_off goal ((s + c) % conf.adjust_int) c
        then record pp { tick = c - 1; pending_ticks = 0 }
        else record pp { tick = c; pending_ticks = 0 })
unfolding schedule_next
schedule_next_lem conf goal s c pp b k p t =
    let l : leb c 0 ≡ false = ground arith in
    let m : c - 0 ≡ c = omega arith in
    let n : (c == 1) ≡ false = ground arith in rw (schedule_next, k, p, l, m, t, n) refl

second-IsWaiting :
    (conf : Conf) (sysfs : PathState) (goal s c n : ℕ) (pp : PathInfo)
    → IsWaiting c (n + 2) pp
    → IsWaiting c (n + 1) (second conf sysfs goal s pp)
second-IsWaiting conf sysfs goal s c n pp (i, k, p, t) =
    subst (IsWaiting c (n + 1))
      (sym (ap (after_check conf goal s) (check_path-skipped conf sysfs n pp i t))) (i, k, p, refl)

pub seconds-waiting :
    (conf : Conf) (sysfs : PathState) (goal c n s : ℕ) (pp : PathInfo)
    → IsWaiting c (n + 1) pp
    → IsDue c (seconds conf sysfs goal n s pp)
seconds-waiting conf sysfs goal c zero s pp h = h
seconds-waiting conf sysfs goal c (suc n) s pp h =
    seconds-waiting conf sysfs goal c n (s + 1) (second conf sysfs goal s pp)
      (second-IsWaiting conf sysfs goal s c n pp (rw (two_more n) at h))

pub second-aligned :
    (conf : Conf) (sysfs : PathState) (goal s c : ℕ) (pp : PathInfo)
    → 1 < c
    → c < checkint_undef
    → c ∣ conf.adjust_int
    → IsDue c pp
    → goal % c ≡ s % c
    → IsWaiting c c (second conf sysfs goal s pp)
second-aligned conf sysfs goal s c pp b u d (i, k, p, t) e =
    let m = is_off-false goal ((s + c) % conf.adjust_int) c (e ∙ sym (next_mod conf s c d)) in
    let pp' = record pp { tick = 0; sysfs_state = sysfs } in
    subst (IsWaiting c (c))
      (sym (
        ap (after_check conf goal s) (check_path-started conf sysfs pp i t (omega arith))
        ∙ schedule_next_lem conf goal s c pp' b k p refl))
      (rw m (i, k, refl, refl))

pub second-off :
    (conf : Conf) (sysfs : PathState) (goal s c : ℕ) (pp : PathInfo)
    → 1 < c
    → c < checkint_undef
    → c ∣ conf.adjust_int
    → IsDue c pp
    → goal % c ≢ s % c
    → IsWaiting c (c - 1) (second conf sysfs goal s pp)
second-off conf sysfs goal s c pp b u d (i, k, p, t) e =
    let m = is_off-true goal ((s + c) % conf.adjust_int) c (λ x. e (x ∙ next_mod conf s c d)) in
    let pp' = record pp { tick = 0; sysfs_state = sysfs } in
    subst (IsWaiting c (c - 1))
      (sym (
        ap (after_check conf goal s) (check_path-started conf sysfs pp i t (omega arith))
        ∙ schedule_next_lem conf goal s c pp' b k p refl))
      (rw m (i, k, refl, refl))
