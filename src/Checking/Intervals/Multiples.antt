-- ===== src/Checking/Intervals/Multiples.antt =====
-- libmultipath/config.c: is `adjust_int` a multiple of all check intervals that a path can have?
use native.Mathlib.Nat.{
  mod_self, mul-le-mul, mul-mod_left, add-mod_left, mod-eq_of_lt, dvd_refl, dvd_trans, dvd-mul_left,
  dvd-mul_right_of_dvd, le_of_dvd, mod-eq-zero_of_dvd,
}
use Prim.Native.Nat.{◌∣◌}
use multipath_tools.Base.{
  ltb, ◌==◌, ltb→lt, ==→eq, Bool-cases, ℕ, zero, suc, ◌+◌, ◌*◌, ◌/◌, ◌%◌, ◌^◌, ◌≤◌, ◌<◌, ◌≡◌, refl,
  sym, ap, ◌∙◌, subst, ◌≢◌, ◌⊎◌, inl, inr, true, false, some, arith,
}
use multipath_tools.Checking.{Conf}
use multipath_tools.Checking.Update.{delay_next_check}
use multipath_tools.Checking.Intervals.{adjust_loop, adjusted, adjust_int}

-- The intervals that a path can have: the shortest one, and those after checks that found it up.
pub data Interval (conf : Conf) : ℕ → Type 0 where
  shortest : Interval conf conf.checkint
  longer : {n : ℕ} → Interval conf n → Interval conf (delay_next_check conf n)

-- `n`, doubled `i` times.
abbrev pub doubled : ℕ → ℕ → ℕ
doubled zero n = n
doubled (suc i) n = doubled i (2 * n)

doubled-suc : (i n : ℕ) → doubled (suc i) n ≡ 2 * doubled i n
doubled-suc zero n = refl
doubled-suc (suc i) n = doubled-suc i (2 * n)

doubled-pos : (i n : ℕ) → 0 < n → 0 < doubled i n
doubled-pos zero n h = h
doubled-pos (suc i) n h = doubled-pos i (2 * n) (omega arith)

dvd-doubled : (i n : ℕ) → n ∣ doubled i n
dvd-doubled zero n = dvd_refl n
dvd-doubled (suc i) n = dvd_trans n (dvd-mul_left n 2) (dvd-doubled i (2 * n))

-- Of two numbers that come from one by doubling, the smaller divides the larger.
doubled_cases : (i j n : ℕ) → (doubled i n ∣ doubled j n) ⊎ (2 * doubled j n ∣ doubled i n)
doubled_cases zero j n = inl (dvd-doubled j n)
doubled_cases (suc i) zero n = inr (dvd-doubled i (2 * n))
doubled_cases (suc i) (suc j) n = doubled_cases i j (2 * n)

doubled-dvd :
    (i j n m : ℕ) → 0 < n → doubled i n < m → m ≤ 2 * doubled j n → doubled i n ∣ doubled j n
doubled-dvd i j n m p h k = elim (doubled_cases i j n) [
  | inl d ↦ d
  | inr d ↦ let l = le_of_dvd (doubled-pos i n p) d in absurd (omega arith)
]

-- An interval is the longest one, or shorter and doubled from the shortest.
Interval-cases :
    (conf : Conf)
    → conf.checkint ≤ conf.max_checkint
    → {n : ℕ} → Interval conf n
    → (n ≡ conf.max_checkint) ⊎ ((i : ℕ) × (n ≡ doubled i conf.checkint) × (n < conf.max_checkint))
unfolding delay_next_check
Interval-cases conf h shortest = elim (Bool-cases (ltb conf.checkint conf.max_checkint)) [
  | inl e ↦ inr (0, refl, ltb→lt conf.checkint conf.max_checkint e)
  | inr e ↦ inl (ground arith)
]
Interval-cases conf h (longer {n} d) = elim (Interval-cases conf h d) [
  | inl e ↦ inl (ground arith)
  | inr (i, e, l) ↦
      let t : (n == conf.max_checkint) ≡ false = ground arith in
      elim (Bool-cases (ltb n (conf.max_checkint / 2))) [
        | inl u ↦
            let v = ltb→lt n (conf.max_checkint / 2) u in
            rw (t, u)
              (inr (suc i, ap (λ x. 2 * x) e ∙ sym (doubled-suc i conf.checkint), omega arith))
        | inr u ↦ rw (t, u) (inl refl)
      ]
]

adjust_loop-again :
    (f a m : ℕ)
    → 2 * a % 2 ^ 32 ≡ 2 * a
    → ltb (2 * a) m ≡ true
    → adjust_loop (suc f) a m ≡ adjust_loop f (2 * a) m
unfolding adjust_loop
adjust_loop-again f a m w e = rw (adjust_loop, w, e) refl

-- The loop ends with the last number of the doubling that is below the longest interval.
adjust_loop_lem :
    (f a m : ℕ)
    → 0 < a
    → a < m
    → m < 2 ^ 31
    → m ≤ doubled f a
    → (j : ℕ) × (adjust_loop f a m ≡ some (doubled j a)) × (doubled j a < m) × (m ≤ 2 * doubled j a)
unfolding adjust_loop
adjust_loop_lem zero a m p h b k = absurd (omega arith)
adjust_loop_lem (suc f) a m p h b k =
    let w : 2 * a % 2 ^ 32 ≡ 2 * a = omega arith in
    elim (Bool-cases (ltb (2 * a) m)) [
      | inl e ↦
          let (j, r, u, v) = adjust_loop_lem f (2 * a) m (omega arith) (ltb→lt (2 * a) m e) b k in
          (suc j, adjust_loop-again f a m w e ∙ r, u, v)
      | inr e ↦ (0, rw (adjust_loop, w, e) refl, h, ground arith)
    ]

-- Every interval that a path can have divides the number.
abbrev pub IsMultiple : Conf → ℕ → Type 0
IsMultiple conf adjust = (n : ℕ) → Interval conf n → adjust % n ≡ 0

adjust_int-doubling :
    (c m adjust : ℕ)
    → 0 < c
    → m % c ≢ 0
    → adjust_loop 33 c m ≡ some adjust
    → adjust * m < 2 ^ 32
    → adjust_int c m ≡ adjusted (adjust * m)
unfolding adjust_int
adjust_int-doubling c m adjust p q e b =
    let t : (c == 0) ≡ false = ground arith in
    let u : (m % c == 0) ≡ false = ground arith in
    let w : adjust * m % 2 ^ 32 ≡ adjust * m = omega arith in rw (t, u, e, w) refl

adjust_int-dividing : (c m : ℕ) → 0 < c → m % c ≡ 0 → adjust_int c m ≡ adjusted m
unfolding adjust_int
adjust_int-dividing c m p e = let t : (c == 0) ≡ false = ground arith in rw (t, e) refl

shortest-below : (c m : ℕ) → c ≤ m → m % c ≢ 0 → c < m
shortest-below c m h q = elim (Bool-cases (c == m)) [
  | inl e ↦ absurd (q (rw (==→eq c m e) (mod_self m)))
  | inr e ↦ ground arith
]

adjust_int-odd :
    (conf : Conf)
    → 0 < conf.checkint
    → conf.checkint ≤ conf.max_checkint
    → conf.max_checkint < 2 ^ 16
    → conf.max_checkint % conf.checkint ≢ 0
    → (adjust : ℕ) × (adjust_int conf.checkint conf.max_checkint ≡ adjusted adjust)
      × IsMultiple conf adjust
adjust_int-odd conf p h b q =
    let c = conf.checkint in
    let m = conf.max_checkint in
    let (j, r, u, v) =
      adjust_loop_lem 33 c m p (shortest-below c m h q) (omega arith) (omega arith) in
    let adjust = doubled j c in
    let bound : adjust * m ≤ 65535 * 65535 =
      mul-le-mul {n₂ = 65535} {m₂ = 65535} (omega arith) (omega arith) in
    (
      adjust * m,
      adjust_int-doubling c m adjust p q r (omega arith),
      λ n d. elim (Interval-cases conf h d) [
        | inl x ↦ rw x (mod-eq-zero_of_dvd m (dvd-mul_left m adjust))
        | inr (i, x, l) ↦ mod-eq-zero_of_dvd n (
            dvd-mul_right_of_dvd n
              (subst (λ t. t ∣ adjust) (sym x) (doubled-dvd i j c m p (rw x at l) v)) m)
      ],
    )

adjust_int-doubled :
    (conf : Conf) (k : ℕ)
    → 0 < conf.checkint
    → conf.max_checkint ≡ doubled k conf.checkint
    → (adjust_int conf.checkint conf.max_checkint ≡ adjusted conf.max_checkint)
      × IsMultiple conf conf.max_checkint
adjust_int-doubled conf k p e =
    let c = conf.checkint in
    let m = conf.max_checkint in
    let whole : c ∣ m = subst (λ t. c ∣ t) (sym e) (dvd-doubled k c) in
    let pm : 0 < m = rw e (doubled-pos k c p) in
    (
      adjust_int-dividing c m p (mod-eq-zero_of_dvd c whole),
      λ n d. elim (Interval-cases conf (le_of_dvd pm whole) d) [
        | inl x ↦ rw x (mod_self m)
        | inr (i, x, l) ↦
            let y : doubled i c < doubled k c = rw (x, e) at l in
            mod-eq-zero_of_dvd n (
              subst (λ t. t ∣ m) (sym x)
                (subst (λ t. doubled i c ∣ t) (sym e)
                  (doubled-dvd i k c (doubled k c) p y (omega arith))))
      ],
    )

-- `adjust_int` ends and is a multiple of all check intervals of a path, if the longest interval is
-- below 2 ^ 16 and not below the shortest, which is above 0, and is either no multiple of it, or comes
-- from it by doubling.
pub adjust_int-IsMultiple :
    (conf : Conf)
    → 0 < conf.checkint
    → conf.checkint ≤ conf.max_checkint
    → conf.max_checkint < 2 ^ 16
    → (conf.max_checkint % conf.checkint ≢ 0)
      ⊎ ((k : ℕ) × (conf.max_checkint ≡ doubled k conf.checkint))
    → (adjust : ℕ) × (adjust_int conf.checkint conf.max_checkint ≡ adjusted adjust)
      × IsMultiple conf adjust
adjust_int-IsMultiple conf p h b (inl q) = adjust_int-odd conf p h b q
adjust_int-IsMultiple conf p h b (inr (k, e)) =
    let (r, i) = adjust_int-doubled conf k p e in (conf.max_checkint, r, i)

-- It ends and is no multiple of all intervals if the longest interval is six times the shortest, which
-- is above 0: four times the shortest is an interval of a path, and leaves the rest of two times it.
pub adjust_int_misses :
    (conf : Conf)
    → 0 < conf.checkint
    → conf.max_checkint ≡ 6 * conf.checkint
    → (adjust_int conf.checkint conf.max_checkint ≡ adjusted conf.max_checkint)
      × Interval conf (4 * conf.checkint)
      × (conf.max_checkint % (4 * conf.checkint) ≡ 2 * conf.checkint)
unfolding adjust_int delay_next_check
adjust_int_misses conf p e =
    let c = conf.checkint in
    let m = conf.max_checkint in
    let one : delay_next_check conf c ≡ 2 * c = ground arith in
    let two : delay_next_check conf (2 * c) ≡ 4 * c = ground arith in
    (
      adjust_int-dividing c m p (rw e (mul-mod_left 6 c)),
      subst (Interval conf) (ap (delay_next_check conf) one ∙ two) (longer (longer shortest)),
      let f : m ≡ 4 * c + 2 * c = omega arith in
          ap (λ t. t % (4 * c)) f ∙ add-mod_left (4 * c) (2 * c) ∙ mod-eq_of_lt (omega arith),
    )
