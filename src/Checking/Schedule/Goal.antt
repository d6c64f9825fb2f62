-- ===== src/Checking/Schedule/Goal.antt =====
-- multipathd/main.c: the checks of a path move to the goal index of its map, and stay there.
use Prim.Native.Nat.{◌∣◌}
use native.Mathlib.Nat.{
  mod-add-mod, add-mod_right, mod-lt, dvd_of_mod-eq-zero, mod-eq_of_lt, mul-le-mul, add-mod-mod,
  suc-mul,
}
use multipath_tools.Base.{
  ℕ, zero, suc, ◌+◌, ◌-◌, ◌*◌, ◌%◌, ◌≤◌, ◌<◌, ◌≡◌, refl, sym, ap, ◌∙◌, subst, ◌≢◌, arith,
}
use multipath_tools.Structs.{PathState, PathInfo}
use multipath_tools.Checking.{Conf}
use multipath_tools.Checking.Intervals.{checkint_undef}
use multipath_tools.Checking.Schedule.Alignment.{
  sub-mod_zero, second, seconds, IsDue, IsWaiting, seconds-waiting, second-aligned, second-off,
}

module _ (conf : Conf) (sysfs : PathState) (goal c : ℕ) (b : 1 < c) (u : c < checkint_undef)
    (d : c ∣ conf.adjust_int) where
  seconds-first :
      (n s : ℕ) (pp : PathInfo)
      → 0 < n
      → seconds conf sysfs goal n s pp
        ≡ seconds conf sysfs goal (n - 1) (s + 1) (second conf sysfs goal s pp)
  seconds-first zero s pp h = absurd (omega arith)
  seconds-first (suc n) s pp h = let e : suc n - 1 ≡ n = omega arith in rw e refl

  seconds-add :
      (m n s : ℕ) (pp : PathInfo)
      → seconds conf sysfs goal (m + n) s pp
        ≡ seconds conf sysfs goal n (s + m) (seconds conf sysfs goal m s pp)
  seconds-add zero n s pp =
      let e : 0 + n ≡ n = omega arith in let f : s + 0 ≡ s = omega arith in rw (e, f) refl
  seconds-add (suc m) n s pp =
      let e : suc m + n ≡ suc (m + n) = omega arith in
      let f : s + suc m ≡ s + 1 + m = omega arith in
      rw (e, f) (seconds-add m n (s + 1) (second conf sysfs goal s pp))

  -- A wait of `n` seconds, from the second in which it was set.
  waited :
      (n s : ℕ) (pp : PathInfo)
      → 0 < n
      → IsWaiting c n (second conf sysfs goal s pp)
      → IsDue c (seconds conf sysfs goal n s pp)
  waited n s pp h w =
      let e : n ≡ (n - 1) + 1 = omega arith in
      rw (seconds-first n s pp h) (
        seconds-waiting conf sysfs goal c (n - 1) (s + 1) (second conf sysfs goal s pp)
          (subst (λ t. IsWaiting c t (second conf sysfs goal s pp)) e w))

  stays_aligned :
      (m s : ℕ) (pp : PathInfo)
      → IsDue c pp
      → goal % c ≡ s % c
      → IsDue c (seconds conf sysfs goal (m * c) s pp) × (goal % c ≡ (s + m * c) % c)
  stays_aligned zero s pp h e =
      let z : 0 * c ≡ 0 = omega arith in let y : s + 0 ≡ s = omega arith in rw (z, y) (h, e)
  stays_aligned (suc m) s pp h e =
      let z : suc m * c ≡ c + m * c = (let q = suc-mul m c in omega arith) in
      let w = waited c s pp (omega arith) (second-aligned conf sysfs goal s c pp b u d h e) in
      let (v, f) =
        stays_aligned m (s + c) (seconds conf sysfs goal c s pp) w (e ∙ sym (add-mod_right s c)) in
      let y : s + (c + m * c) ≡ s + c + m * c = omega arith in
      rw (z, seconds-add c (m * c) s pp, y) (v, f)

  -- The distance to the goal shrinks by one.
  closer : (k s : ℕ) → s % c ≡ (goal + suc k) % c → (s + (c - 1)) % c ≡ (goal + k) % c
  closer k s e =
      let f : goal + suc k + (c - 1) ≡ goal + k + c = omega arith in
      sym (mod-add-mod s c (c - 1))
      ∙ ap (λ t. (t + (c - 1)) % c) e
      ∙ mod-add-mod (goal + suc k) c (c - 1)
      ∙ ap (λ t. t % c) f
      ∙ add-mod_right (goal + k) c

  apart : (k : ℕ) → suc k < c → (goal + suc k) % c ≢ goal % c
  apart k h e =
      let z = sub-mod_zero (goal + suc k) goal c (omega arith) e in
      let f : goal + suc k - goal ≡ suc k = omega arith in
      let y : suc k ≡ 0 = sym (mod-eq_of_lt h) ∙ ap (λ t. t % c) (sym f) ∙ z in omega arith

  reaches :
      (k s : ℕ) (pp : PathInfo)
      → k < c
      → IsDue c pp
      → s % c ≡ (goal + k) % c
      → IsDue c (seconds conf sysfs goal (k * (c - 1)) s pp) × (goal % c ≡ (s + k * (c - 1)) % c)
  reaches zero s pp h w e =
      let z : 0 * (c - 1) ≡ 0 = omega arith in
      let y : s + 0 ≡ s = omega arith in
      let x : goal + 0 ≡ goal = omega arith in rw (z, y) (w, sym (e ∙ ap (λ t. t % c) x))
  reaches (suc k) s pp h w e =
      let o = second-off conf sysfs goal s c pp b u d w (λ t. apart k h (sym e ∙ sym t)) in
      let v = waited (c - 1) s pp (omega arith) o in
      let (i, j) =
        reaches k (s + (c - 1)) (seconds conf sysfs goal (c - 1) s pp) (omega arith) v
          (closer k s e) in
      let z : suc k * (c - 1) ≡ (c - 1) + k * (c - 1) =
        (let q = suc-mul k (c - 1) in omega arith) in
      let y : s + ((c - 1) + k * (c - 1)) ≡ s + (c - 1) + k * (c - 1) = omega arith in
      rw (z, seconds-add (c - 1) (k * (c - 1)) s pp, y) (i, j)

  -- How far a second is behind the goal.
  behind : (s : ℕ) → s % c ≡ (goal + (s + (c - goal % c)) % c) % c
  behind s =
      let l : goal % c < c = mod-lt goal (omega arith) in
      let x = s + (c - goal % c) in
      let f : goal % c + x ≡ s + c = omega arith in
      sym (add-mod_right s c)
      ∙ ap (λ t. t % c) (sym f)
      ∙ mod-add-mod goal c x
      ∙ sym (add-mod-mod goal x c)

-- From a check that begins in the second `s`, within at most `c` times `c` seconds, the checks of a
-- path with the interval `c` reach the goal index modulo `c`, and from then on one begins there every
-- `c` seconds. The interval is above 1 and divides `adjust_int`; there is a round of the loop in every
-- second, the checker answers at once, and nothing else changes the path.
pub checks_align :
    (conf : Conf) (sysfs : PathState) (goal c s : ℕ) (pp : PathInfo)
    → 1 < c
    → c < checkint_undef
    → conf.adjust_int % c ≡ 0
    → IsDue c pp
    → (n : ℕ) × (n ≤ c * c)
      × ((m : ℕ)
          → IsDue c (seconds conf sysfs goal (n + m * c) s pp) × (goal % c ≡ (s + (n + m * c)) % c))
checks_align conf sysfs goal c s pp b u a h =
    let d = dvd_of_mod-eq-zero c a in
    let k = (s + (c - goal % c)) % c in
    let l : k < c = mod-lt (s + (c - goal % c)) (omega arith) in
    let n = k * (c - 1) in
    let (i, j) = reaches conf sysfs goal c b u d k s pp l h (behind conf sysfs goal c b u d s) in
    (
      n,
      mul-le-mul {n₂ = c} {m₂ = c} (omega arith) (omega arith),
      λ m.
          let (v, f) =
            stays_aligned conf sysfs goal c b u d m (s + n) (seconds conf sysfs goal n s pp) i j in
          let y : s + (n + m * c) ≡ s + n + m * c = omega arith in
          rw (seconds-add conf sysfs goal c b u d n (m * c) s pp, y) (v, f),
    )
