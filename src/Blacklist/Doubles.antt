-- ===== src/Blacklist/Doubles.antt =====
-- libmultipath/blacklist.c: merging takes doubles away and changes no verdict.
use multipath_tools.Base.{
  Bool-cases, length, any, All, ℕ, zero, suc, ◌≤◌, ◌≡◌, refl, sym, ap, ◌∙◌, inl, inr, Bool, true,
  false, ◌||◌, some, List, [], ◌∷◌, arith,
}
use multipath_tools.Base.Text.{Text, str_eq→eq}
use multipath_tools.Blacklist.{Blentry, check_invert, hits, match_reglist}
use multipath_tools.Blacklist.Merge.{drop_same, merge_loop, same_ble, merge_blacklist}

-- No entry is a double of one before it.
abbrev pub IsMerged {ℓ} : {A : Type ℓ} → (A → A → Bool) → List A → Type 0
IsMerged same [] = Unit
IsMerged same (a ∷ xs) = All (λ b. same a b ≡ false) xs × IsMerged same xs

drop_same-All {ℓ} :
    {A : Type ℓ} (same : A → A → Bool) (P : A → Type 0) (a : A) (bs : List A)
    → All P bs
    → All P (drop_same same a bs)
unfolding drop_same
drop_same-All same P a [] h = h
drop_same-All same P a (b ∷ bs) (p, h) =
    let ih = drop_same-All same P a bs h in
    elim (Bool-cases (same a b)) [ inl e ↦ rw e ih | inr e ↦ rw e (p, ih) ]

drop_same-differ {ℓ} :
    {A : Type ℓ} (same : A → A → Bool) (a : A) (bs : List A)
    → All (λ b. same a b ≡ false) (drop_same same a bs)
unfolding drop_same
drop_same-differ same a [] = tt
drop_same-differ same a (b ∷ bs) =
    let ih = drop_same-differ same a bs in
    elim (Bool-cases (same a b)) [ inl e ↦ rw e ih | inr e ↦ rw e (e, ih) ]

length-drop_same {ℓ} :
    {A : Type ℓ} (same : A → A → Bool) (a : A) (bs : List A)
    → length (drop_same same a bs) ≤ length bs
unfolding drop_same
length-drop_same same a [] = omega arith
length-drop_same same a (b ∷ bs) =
    let ih = length-drop_same same a bs in
    elim (Bool-cases (same a b)) [ inl e ↦ rw e (omega arith) | inr e ↦ rw e (omega arith) ]

merge_loop-All {ℓ} :
    {A : Type ℓ} (same : A → A → Bool) (P : A → Type 0) (f : ℕ) (bs : List A)
    → All P bs
    → All P (merge_loop same f bs)
unfolding merge_loop
merge_loop-All same P zero bs h = h
merge_loop-All same P (suc f) [] h = h
merge_loop-All same P (suc f) (b ∷ bs) (p, h) =
    (p, merge_loop-All same P f (drop_same same b bs) (drop_same-All same P b bs h))

pub merge_loop-IsMerged {ℓ} :
    {A : Type ℓ} (same : A → A → Bool) (f : ℕ) (bs : List A)
    → length bs ≤ f
    → IsMerged same (merge_loop same f bs)
unfolding merge_loop
merge_loop-IsMerged same zero [] h = tt
merge_loop-IsMerged same zero (b ∷ bs) h = absurd (omega arith)
merge_loop-IsMerged same (suc f) [] h = tt
merge_loop-IsMerged same (suc f) (b ∷ bs) h =
    let n = length-drop_same same b bs in
    (
      merge_loop-All same (λ c. same b c ≡ false) f (drop_same same b bs)
          (drop_same-differ same b bs),
      merge_loop-IsMerged same f (drop_same same b bs) (omega arith),
    )

or_same : (x y d r : Bool) → x ≡ y → (x || d) ≡ (x || r) → (x || d) ≡ (x || (y || r))
or_same true y d r h k = refl
or_same false y d r h k = rw (sym h) k

or_both : (x y d r : Bool) → (x || d) ≡ (x || r) → (x || (y || d)) ≡ (x || (y || r))
or_both true y d r k = refl
or_both false y d r k = ap (λ t. y || t) k

-- A test that cannot tell doubles apart.
module _ {ℓ} {A : Type ℓ} (same : A → A → Bool) (P : A → Type 0) (p : A → Bool)
    (blind : (a b : A) → P a → P b → same a b ≡ true → p a ≡ p b) where
  any-drop_same :
      (a : A) (bs : List A)
      → P a
      → All P bs
      → (p a || any p (drop_same same a bs)) ≡ (p a || any p bs)
  unfolding drop_same
  any-drop_same a [] pa h = refl
  any-drop_same a (b ∷ bs) pa (pb, h) =
      let ih = any-drop_same a bs pa h in
      elim (Bool-cases (same a b)) [
        | inl e ↦
            rw e
              (or_same (p a) (p b) (any p (drop_same same a bs)) (any p bs) (blind a b pa pb e) ih)
        | inr e ↦ rw e (or_both (p a) (p b) (any p (drop_same same a bs)) (any p bs) ih)
      ]

  pub any-merge_loop : (f : ℕ) (bs : List A) → All P bs → any p (merge_loop same f bs) ≡ any p bs
  unfolding merge_loop
  any-merge_loop zero bs h = refl
  any-merge_loop (suc f) [] h = refl
  any-merge_loop (suc f) (b ∷ bs) (pb, h) =
      ap (λ t. p b || t) (any-merge_loop f (drop_same same b bs) (drop_same-All same P b bs h))
      ∙ any-drop_same b bs pb h

-- An entry as `store_ble` makes it.
abbrev pub IsCompiled : Blentry → Type 0
IsCompiled ble =
    (s : Text) × (ble.str ≡ some s)
    × (ble.regex ≡ (check_invert s).0)
    × (ble.invert ≡ (check_invert s).1)

pub any-match_reglist :
    (matches : Text → Text → Bool) (bs : List Blentry) (str : Text)
    → match_reglist matches bs str ≡ any (λ b. hits matches b.regex b.invert str) bs
unfolding match_reglist
any-match_reglist matches [] str = refl
any-match_reglist matches (b ∷ bs) str =
    ap (λ t. hits matches b.regex b.invert str || t) (any-match_reglist matches bs str)

same_ble-str :
    (a b : Blentry) (s t : Text) → a.str ≡ some s → b.str ≡ some t → same_ble a b ≡ true → s ≡ t
unfolding same_ble
same_ble-str a b s t ea eb h = str_eq→eq s t (rw (same_ble, ea, eb) at h)

hits_blind :
    (matches : Text → Text → Bool) (str : Text) (a b : Blentry)
    → IsCompiled a
    → IsCompiled b
    → same_ble a b ≡ true
    → hits matches a.regex a.invert str ≡ hits matches b.regex b.invert str
hits_blind matches str a b (s, ea, ra, ia) (t, eb, rb, ib) h =
    let e = same_ble-str a b s t ea eb h in rw (ra, ia, rb, ib, e) refl

-- `merge_blacklist` leaves no two entries with the same string, and a name is listed after it exactly
-- if it was listed before, for a blacklist with entries as `store_ble` makes them.
pub merge_blacklist_keeps :
    (matches : Text → Text → Bool) (blist : List Blentry) (str : Text)
    → All IsCompiled blist
    → IsMerged same_ble (merge_blacklist blist)
      × (match_reglist matches (merge_blacklist blist) str ≡ match_reglist matches blist str)
unfolding merge_blacklist
merge_blacklist_keeps matches blist str h = (
  merge_loop-IsMerged same_ble (length blist) blist (omega arith),
  any-match_reglist matches (merge_blacklist blist) str
      ∙ any-merge_loop same_ble IsCompiled (λ b. hits matches b.regex b.invert str)
          (hits_blind matches str) (length blist) blist h
      ∙ sym (any-match_reglist matches blist str),
)
