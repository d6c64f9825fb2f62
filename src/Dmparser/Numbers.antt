-- ===== src/Dmparser/Numbers.antt =====
-- Numbers in a device mapper table: `%i` and `atoi`.
use multipath_tools.Base.{
  ltb, ◌==◌, ltb→lt, Bool-cases, length, All, All-mono, ℤ, pos, negsuc, sub_ℕ, ℕ, zero, suc, ◌+◌,
  ◌-◌, ◌*◌, ◌/◌, ◌%◌, ◌<◌, ◌≡◌, refl, sym, ap, ◌∙◌, inl, inr, Bool, true, false, not, ◌&&◌, [], ◌∷◌,
  arith,
}
use multipath_tools.Base.Text.{Text, is_space, is_digit}
use multipath_tools.Features.{show_digits, show_nat, read_digits, strchop}
use multipath_tools.Dmparser.Words.{IsWord}
use multipath_tools.Dmparser.Assemble.{show_int}
use multipath_tools.Dmparser.Disassemble.{digits_value, atoi}

abbrev IsSolid : Text → Type 0
IsSolid s = All (λ c. is_space c ≡ false) s

digit_lem : (n : ℕ) → n < 10 → (is_digit (48 + n) ≡ true) × (is_space (48 + n) ≡ false)
digit_lem n h = (ground arith, ground arith)

show_digits-IsSolid :
    (f n : ℕ) (s : Text)
    → n < f
    → IsSolid s
    → IsSolid (show_digits f n s) × (0 < length (show_digits f n s))
unfolding show_digits
show_digits-IsSolid zero n s h k = elim h [ ]
show_digits-IsSolid (suc f) n s h k = elim (Bool-cases (ltb n 10)) [
  | inl e ↦ rw (show_digits, e) (((digit_lem n (ltb→lt n 10 e)).1, k), omega arith)
  | inr e ↦
      rw (show_digits, e)
        (show_digits-IsSolid f (n / 10) ((48 + n % 10) ∷ s) (ground arith)
          ((digit_lem (n % 10) (omega arith)).1, k))
]

read_digits-show_digits :
    (f n : ℕ) (s : Text) → n < f → read_digits 0 (show_digits f n s) ≡ read_digits n s
unfolding show_digits read_digits
read_digits-show_digits zero n s h = elim h [ ]
read_digits-show_digits (suc f) n s h = elim (Bool-cases (ltb n 10)) [
  | inl e ↦
      let d : is_digit (48 + n) ≡ true = (digit_lem n (ltb→lt n 10 e)).0 in
      let z : 10 * 0 + (48 + n - 48) ≡ n = omega arith in
      rw (show_digits, e) (rw (read_digits, d) (rw z refl))
  | inr e ↦
      let d : is_digit (48 + n % 10) ≡ true = (digit_lem (n % 10) (omega arith)).0 in
      let z : 10 * (n / 10) + (48 + n % 10 - 48) ≡ n = omega arith in
      rw (show_digits, e)
        (read_digits-show_digits f (n / 10) ((48 + n % 10) ∷ s) (ground arith)
          ∙ rw (read_digits, d) (rw z refl))
]

digits_value-show_nat : (n : ℕ) → digits_value (show_nat n) ≡ n
unfolding show_nat read_digits
digits_value-show_nat n =
    ap (λ (x : ℕ × Text). x.0) (read_digits-show_digits (suc n) n [] (omega arith))

show_nat-IsSolid : (n : ℕ) → IsSolid (show_nat n) × (0 < length (show_nat n))
unfolding show_nat
show_nat-IsSolid n = show_digits-IsSolid (suc n) n [] (omega arith) tt

show_digits-head :
    (f n : ℕ) (s : Text)
    → n < f
    → (d : ℕ) × (t : Text) × (show_digits f n s ≡ d ∷ t) × (is_digit d ≡ true)
unfolding show_digits
show_digits-head zero n s h = elim h [ ]
show_digits-head (suc f) n s h = elim (Bool-cases (ltb n 10)) [
  | inl e ↦ rw (show_digits, e) (48 + n, s, refl, (digit_lem n (ltb→lt n 10 e)).0)
  | inr e ↦ rw (show_digits, e) (show_digits-head f (n / 10) ((48 + n % 10) ∷ s) (ground arith))
]

atoi_digit : (d : ℕ) (t : Text) → is_digit d ≡ true → atoi (d ∷ t) ≡ pos (digits_value (d ∷ t))
unfolding atoi
atoi_digit d t h =
    let a : is_space d ≡ false = ground arith in
    let b : (d == 45) ≡ false = ground arith in
    let c : (d == 43) ≡ false = ground arith in rw (atoi, a, b, c) refl

show_nat-head : (n : ℕ) → (d : ℕ) × (t : Text) × (show_nat n ≡ d ∷ t) × (is_digit d ≡ true)
unfolding show_nat
show_nat-head n = show_digits-head (suc n) n [] (omega arith)

pub atoi-show_nat : (n : ℕ) → atoi (show_nat n) ≡ pos n
atoi-show_nat n =
    let (d, t, e', h) = show_nat-head n in
    ap atoi e'
    ∙ atoi_digit d t h
    ∙ ap (λ x. pos (digits_value x)) (sym e')
    ∙ ap pos (digits_value-show_nat n)

pub atoi-show_int : (z : ℤ) → atoi (show_int z) ≡ z
unfolding show_int
atoi-show_int (pos n) = atoi-show_nat n
atoi-show_int (negsuc n) =
    let e : atoi (45 ∷ show_nat (suc n)) ≡ sub_ℕ 0 (digits_value (show_nat (suc n))) =
      unfold atoi in refl in
    e ∙ ap (sub_ℕ 0) (digits_value-show_nat (suc n)) ∙ ground arith

strchop_solid : (s : Text) → IsSolid s → strchop s ≡ s
unfolding strchop
strchop_solid [] h = refl
strchop_solid (c ∷ []) (e, h) = rw (strchop, e) refl
strchop_solid (c ∷ d ∷ s) (e, h) = rw (strchop, strchop_solid (d ∷ s) h) refl

no_space : (c : ℕ) → is_space c ≡ false → (c == 32) ≡ false
no_space c h = ground arith

solid-IsWord : (s : Text) → IsSolid s → 0 < length s → IsWord s
solid-IsWord s h n =
    (n, All-mono (λ c. is_space c ≡ false) (λ c. (c == 32) ≡ false) no_space s h, strchop_solid s h)

pub show_nat-IsWord : (n : ℕ) → IsWord (show_nat n)
show_nat-IsWord n = let (h, l) = show_nat-IsSolid n in solid-IsWord (show_nat n) h l

pub show_int-IsWord : (z : ℤ) → IsWord (show_int z)
unfolding show_int
show_int-IsWord (pos n) = show_nat-IsWord n
show_int-IsWord (negsuc n) =
    let (h, l) = show_nat-IsSolid (suc n) in
    solid-IsWord (45 ∷ show_nat (suc n)) (refl, h) (omega arith)

abbrev pub has_no_space : Text → Bool
has_no_space [] = true
has_no_space (c ∷ s) = not (is_space c) && has_no_space s

has_no_space-IsSolid : (s : Text) → has_no_space s ≡ true → IsSolid s
has_no_space-IsSolid [] h = tt
has_no_space-IsSolid (c ∷ s) h = elim (Bool-cases (is_space c)) [
  | inl e ↦ absurd (ground arith)
  | inr e ↦ (e, has_no_space-IsSolid s (ground arith))
]

-- A text that is not empty and has no blanks is a word.
pub text-IsWord : (c : ℕ) (s : Text) → has_no_space (c ∷ s) ≡ true → IsWord (c ∷ s)
text-IsWord c s h = solid-IsWord (c ∷ s) (has_no_space-IsSolid (c ∷ s) h) (omega arith)
