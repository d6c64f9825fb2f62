-- ===== src/Alias/Devname.antt =====
-- Numbers and their letters.
use multipath_tools.Base.{
  ltb, leb, ◌==◌, ==_refl, length, drop, length-append, ℕ, zero, suc, ◌+◌, ◌-◌, ◌*◌, ◌/◌, ◌%◌, ◌≤◌,
  ◌<◌, ◌≡◌, refl, ap, ◌∙◌, subst, true, false, ◌&&◌, ◌||◌, some, [], ◌∷◌, ◌++◌, arith,
}
use multipath_tools.Base.Text.{Text, starts_with}
use multipath_tools.Alias.{int_max, format_loop, format_devname, scan_loop, scan_devname}

module _ (q r : ℕ) (small : r < 26) (fits : q * 26 + r + 1 ≤ int_max) where
  no_blank : ((97 + r == 32) || (97 + r == 9)) ≡ false
  no_blank = ground arith

  letter : (ltb (97 + r) 97 || ltb 122 (97 + r)) ≡ false
  letter = ground arith

  no_overflow :
      (ltb (int_max / 26) q || ((q == int_max / 26) && leb (int_max % 26) (97 + r - 97))) ≡ false
  no_overflow = ground arith

  -- One letter, read back.
  scan_loop-letter : (s : Text) → scan_loop q ((97 + r) ∷ s) ≡ scan_loop (q * 26 + r + 1) s
  unfolding scan_loop
  scan_loop-letter s =
      let n : q * 26 + (97 + r - 97) + 1 ≡ q * 26 + r + 1 = omega arith in
      rw (no_blank, letter, no_overflow) (ap (λ k. scan_loop k s) n)

format_loop-suc :
    (f id : ℕ) (s : Text)
    → 1 ≤ id
    → format_loop (suc f) id s ≡ format_loop f ((id - 1) / 26) ((97 + (id - 1) % 26) ∷ s)
unfolding format_loop
format_loop-suc f id s h = ground arith

format_loop-zero : (f : ℕ) (s : Text) → format_loop f 0 s ≡ s
unfolding format_loop
format_loop-zero zero s = refl
format_loop-zero (suc f) s = refl

scan_loop-format_loop :
    (f id : ℕ) (s : Text)
    → id ≤ f
    → id ≤ int_max
    → scan_loop 0 (format_loop f id s) ≡ scan_loop id s
scan_loop-format_loop f zero s h k = rw (format_loop-zero f s)
scan_loop-format_loop zero (suc id) s h k = absurd (omega arith)
scan_loop-format_loop (suc f) (suc id) s h k =
    let q = (suc id - 1) / 26 in
    let r = (suc id - 1) % 26 in
    let e : q * 26 + r + 1 ≡ suc id = omega arith in
    rw (format_loop-suc f (suc id) s (omega arith)) (
      scan_loop-format_loop f q ((97 + r) ∷ s) (omega arith) (omega arith)
      ∙ scan_loop-letter q r (omega arith) (omega arith) s
      ∙ ap (λ k. scan_loop k s) e)

-- `bound k` is the least number with more than `k` letters.
abbrev bound : ℕ → ℕ
bound zero = 1
bound (suc k) = 26 * bound k + 1

length-format_loop :
    (f id k : ℕ) (s : Text) → id ≤ f → id < bound k → length (format_loop f id s) ≤ k + length s
length-format_loop f zero k s h b = rw (format_loop-zero f s) (omega arith)
length-format_loop zero (suc id) k s h b = absurd (omega arith)
length-format_loop (suc f) (suc id) zero s h b = absurd (omega arith)
length-format_loop (suc f) (suc id) (suc k) s h b =
    let q = (suc id - 1) / 26 in
    let r = (suc id - 1) % 26 in
    rw (format_loop-suc f (suc id) s (omega arith))
      (omega (arith, length-format_loop f q k ((97 + r) ∷ s) (omega arith) (omega arith)))

format_loop-none : (id : ℕ) (s : Text) → format_loop 0 id s ≡ s
unfolding format_loop
format_loop-none id s = refl

scan_loop-end : (n : ℕ) → scan_loop n [] ≡ some n
unfolding scan_loop
scan_loop-end n = refl

some_injective {ℓ} : {A : Type ℓ} {a b : A} → some a ≡ some b → a ≡ b
some_injective e = cc e

starts_with-append : (p s : Text) → starts_with p (p ++ s) ≡ true
unfolding starts_with
starts_with-append [] s = refl
starts_with-append (c ∷ p) s = rw (==_refl c) (starts_with-append p s)

drop-append : (p s : Text) → drop (length p) (p ++ s) ≡ s
drop-append [] s = refl
drop-append (c ∷ p) s = drop-append p s

-- The loop only puts letters in front.
format_loop_grows : (f id : ℕ) (s : Text) → length s ≤ length (format_loop f id s)
format_loop_grows zero id s = rw (format_loop-none id s) (omega arith)
format_loop_grows (suc f) zero s = rw (format_loop-zero (suc f) s) (omega arith)
format_loop_grows (suc f) (suc id) s =
    let q = (suc id - 1) / 26 in
    let c = 97 + (suc id - 1) % 26 in
    rw (format_loop-suc f (suc id) s (omega arith)) (omega (arith, format_loop_grows f q (c ∷ s)))

format_loop_nonempty : (n : ℕ) → 1 ≤ length (format_loop (suc n) (suc n) [])
format_loop_nonempty n =
    let c = 97 + (suc n - 1) % 26 in
    rw (format_loop-suc n (suc n) [] (omega arith))
      (format_loop_grows n ((suc n - 1) / 26) (c ∷ []))

format_loop_short : (n : ℕ) → suc n ≤ int_max → length (format_loop (suc n) (suc n) []) ≤ 7
format_loop_short n h =
    omega (arith, length-format_loop (suc n) (suc n) 7 [] (omega arith) (omega arith))

-- The name of a positive `int` has at most seven letters, so it fits the eight bytes of the buffer of
-- `format_devname`.
pub format_devname_fits :
    (id : ℕ) (s : Text) → id ≤ int_max → format_devname id ≡ some s → length s ≤ 7
unfolding format_devname
format_devname_fits zero s h e = ground arith
format_devname_fits (suc n) s h e =
    subst (λ t. length t ≤ 7) (some_injective e) (format_loop_short n h)

-- The tests of `scan_devname` before its loop, all passed.
scan_devname-loop :
    (s prefix : Text)
    → 1 ≤ length s
    → length s ≤ 7
    → scan_devname (prefix ++ s) prefix ≡ scan_loop 0 s
unfolding scan_devname
scan_devname-loop s prefix h k =
    let n = length-append prefix s in
    let differ : (length prefix + length s == length prefix) ≡ false = ground arith in
    let short : ltb (length prefix + 7) (length prefix + length s) ≡ false = ground arith in
    rw (starts_with-append prefix s, n, differ, short, drop-append prefix s) refl

-- Every positive `int` is read back from its name, behind any prefix.
pub scan_devname-format_devname :
    (id : ℕ) (s prefix : Text)
    → id ≤ int_max
    → format_devname id ≡ some s
    → scan_devname (prefix ++ s) prefix ≡ some id
unfolding format_devname
scan_devname-format_devname zero s prefix h e = ground arith
scan_devname-format_devname (suc n) s prefix h e =
    subst (λ t. scan_devname (prefix ++ t) prefix ≡ some (suc n)) (some_injective e)
      (scan_devname-loop (format_loop (suc n) (suc n) []) prefix (format_loop_nonempty n)
          (format_loop_short n h)
        ∙ scan_loop-format_loop (suc n) (suc n) [] (omega arith) h
        ∙ scan_loop-end (suc n))
