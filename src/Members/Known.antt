-- ===== src/Members/Known.antt =====
-- libmultipath/structs_vec.c: the device numbers that a list of paths has.
use multipath_tools.Base.{
  Bool-cases, ℕ, ◌≡◌, refl, sym, ◌∙◌, ◌≢◌, inl, inr, Bool, true, false, not, ◌&&◌, ◌||◌, List, [],
  ◌∷◌, ◌++◌, arith,
}
use multipath_tools.Base.Text.{Text, str_eq, str_eq→eq, str_eq_refl}
use multipath_tools.Structs.{Heap}
use multipath_tools.Members.{find_path_by_devt, is_found, is_removed}

-- Is a path with this device number in the list?
abbrev pub known : Heap → List ℕ → Text → Bool
known h paths dev_t = is_found (find_path_by_devt h paths dev_t)

-- A path of a group that belongs to the map.
abbrev pub is_wanted : Heap → List ℕ → ℕ → Bool
is_wanted h pathvec a = known h pathvec (h a).dev_t && not (is_removed (h a).initialized)

-- No two paths have the same device number.
abbrev pub IsDistinct : Heap → List ℕ → Type 0
IsDistinct h [] = Unit
IsDistinct h (a ∷ rest) = (known h rest (h a).dev_t ≡ false) × IsDistinct h rest

known-cons :
    (h : Heap) (a : ℕ) (rest : List ℕ) (d : Text)
    → known h (a ∷ rest) d ≡ (str_eq (h a).dev_t d || known h rest d)
unfolding find_path_by_devt
known-cons h a rest d = elim (Bool-cases (str_eq (h a).dev_t d)) [
  | inl e ↦ rw (known, e) refl
  | inr e ↦ rw (known, e) refl
]

known-nil : (h : Heap) (d : Text) → known h [] d ≢ true
unfolding find_path_by_devt
known-nil h d e = ground arith

pub known-append :
    (h : Heap) (rest more : List ℕ) (d : Text)
    → known h rest d ≡ true
    → known h (rest ++ more) d ≡ true
known-append h [] more d e = absurd (known-nil h d e)
known-append h (a ∷ rest) more d e =
    let s = known-cons h a (rest ++ more) d in
    let k = sym (known-cons h a rest d) ∙ e in
    elim (Bool-cases (str_eq (h a).dev_t d)) [
      | inl t ↦ s ∙ rw t refl
      | inr t ↦ s ∙ rw t (known-append h rest more d (rw t at k))
    ]

or_true : (a b : Bool) → b ≡ true → (a || b) ≡ true
or_true true b h = refl
or_true false b h = h

or_false : (a b : Bool) → (a || b) ≡ false → (a ≡ false) × (b ≡ false)
or_false true b h = cc
or_false false b h = (refl, h)

str_eq_sym : (s t : Text) → str_eq s t ≡ false → str_eq t s ≡ false
str_eq_sym s t h = elim (Bool-cases (str_eq t s)) [
  | inl e ↦
      absurd (let k : str_eq s t ≡ true = rw (str_eq→eq t s e) (str_eq_refl s) in ground arith)
  | inr e ↦ e
]

pub known-last : (h : Heap) (rest : List ℕ) (a : ℕ) → known h (rest ++ a ∷ []) (h a).dev_t ≡ true
known-last h [] a = known-cons h a [] (h a).dev_t ∙ rw (str_eq_refl (h a).dev_t) refl
known-last h (b ∷ rest) a =
    known-cons h b (rest ++ a ∷ []) (h a).dev_t
    ∙ or_true (str_eq (h b).dev_t (h a).dev_t) (known h (rest ++ a ∷ []) (h a).dev_t)
        (known-last h rest a)

known-snoc :
    (h : Heap) (rest : List ℕ) (a : ℕ) (d : Text)
    → known h rest d ≡ false
    → str_eq (h a).dev_t d ≡ false
    → known h (rest ++ a ∷ []) d ≡ false
unfolding find_path_by_devt
known-snoc h [] a d k e = rw (known, e) refl
known-snoc h (b ∷ rest) a d k e =
    let (s, f) =
      or_false (str_eq (h b).dev_t d) (known h rest d) (sym (known-cons h b rest d) ∙ k) in
    known-cons h b (rest ++ a ∷ []) d ∙ rw s (known-snoc h rest a d f e)

pub IsDistinct-append :
    (h : Heap) (rest : List ℕ) (a : ℕ)
    → IsDistinct h rest
    → known h rest (h a).dev_t ≡ false
    → IsDistinct h (rest ++ a ∷ [])
IsDistinct-append h [] a d e = (e, tt)
IsDistinct-append h (b ∷ rest) a (k, d) e =
    let (s, f) =
      or_false (str_eq (h b).dev_t (h a).dev_t) (known h rest (h a).dev_t)
        (sym (known-cons h b rest (h a).dev_t) ∙ e) in
    (
      known-snoc h rest a (h b).dev_t k (str_eq_sym (h b).dev_t (h a).dev_t s),
      IsDistinct-append h rest a d f,
    )
