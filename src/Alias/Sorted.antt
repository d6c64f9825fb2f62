-- ===== src/Alias/Sorted.antt =====
-- libmultipath/alias.c, `add_binding`: the bindings stay sorted.
use multipath_tools.Base.{
  ltb, ltb→lt, Bool-cases, Option-cases, length, get_elem?, ℕ, zero, suc, ◌≤◌, ◌<◌, ◌≡◌, refl, sym,
  ap, ◌∙◌, subst, ◌≢◌, inl, inr, Bool, true, false, Option, none, some, List, [], ◌∷◌, arith,
}
use multipath_tools.Base.Text.{Text, str_eq}
use multipath_tools.Alias.{
  Binding, Sign, less, same, more, alias_compar, last_not_after, insert_at, add_at, add_binding,
}
use multipath_tools.Alias.Flipped.{flip, alias_compar-flip}

-- Each alias comes before the next, so that no alias stands twice.
abbrev pub IsOrdered : List Binding → Type 0
IsOrdered [] = Unit
IsOrdered (b ∷ []) = Unit
IsOrdered (b ∷ c ∷ bs) = (alias_compar b.alias c.alias ≡ less) × IsOrdered (c ∷ bs)

-- An insertion between two neighbours that the new binding fits.
insert_at-IsOrdered :
    (bs : List Binding) (i : ℕ) (x : Binding)
    → IsOrdered bs
    → i ≤ length bs
    → ((j : ℕ) (b : Binding)
        → i ≡ suc j
        → get_elem? bs j ≡ some b
        → alias_compar b.alias x.alias ≡ less)
    → ((b : Binding) → get_elem? bs i ≡ some b → alias_compar x.alias b.alias ≡ less)
    → IsOrdered (insert_at bs i x)
insert_at-IsOrdered [] zero x o le before after = tt
insert_at-IsOrdered [] (suc i) x o le before after = absurd (omega arith)
insert_at-IsOrdered (b ∷ bs) zero x o le before after = (after b refl, o)
insert_at-IsOrdered (b ∷ []) (suc zero) x o le before after = (before 0 b refl refl, tt)
insert_at-IsOrdered (b ∷ []) (suc (suc i)) x o le before after = absurd (omega arith)
insert_at-IsOrdered (b ∷ c ∷ bs) (suc zero) x (l, o) le before after =
    (before 0 b refl refl, (after c refl, o))
insert_at-IsOrdered (b ∷ c ∷ bs) (suc (suc i)) x (l, o) le before after = (
  l,
  insert_at-IsOrdered (c ∷ bs) (suc i) x o (omega arith) (λ j d e g. before (suc j) d (ap suc e) g)
      after,
)

-- What the backward loop has found out.
abbrev Backward : List Binding → Text → ℕ → Option (Sign × Binding × ℕ) → Type 0
Backward bs alias k none =
    (m : ℕ) (b : Binding) → m < k → get_elem? bs m ≡ some b → alias_compar b.alias alias ≡ more
Backward bs alias k (some (s, b, i)) =
    (j : ℕ) × (i ≡ suc j)
    × (j < k)
    × (get_elem? bs j ≡ some b)
    × ((alias_compar b.alias alias ≡ s) × (s ≢ more))
    × ((m : ℕ) (c : Binding)
        → i ≤ m
        → m < k
        → get_elem? bs m ≡ some c
        → alias_compar c.alias alias ≡ more)

-- What holds below `k` and for slot `k` holds below `k + 1`.
AfterAll : List Binding → Text → ℕ → ℕ → Type 0
AfterAll bs alias i k =
    (m : ℕ) (c : Binding)
    → i ≤ m
    → m < k
    → get_elem? bs m ≡ some c
    → alias_compar c.alias alias ≡ more

AfterAll-suc :
    (bs : List Binding) (alias : Text) (i k : ℕ)
    → AfterAll bs alias i k
    → ((c : Binding) → get_elem? bs k ≡ some c → alias_compar c.alias alias ≡ more)
    → AfterAll bs alias i (suc k)
unfolding AfterAll
AfterAll-suc bs alias i k h at_k m c le lt g = elim (Bool-cases (ltb m k)) [
  | inl e ↦ h m c le (ltb→lt m k e) g
  | inr e ↦ let same : m ≡ k = ground arith in at_k c (subst (λ n. get_elem? bs n ≡ some c) same g)
]

Backward-suc :
    (bs : List Binding) (alias : Text) (k : ℕ) (r : Option (Sign × Binding × ℕ))
    → Backward bs alias k r
    → ((c : Binding) → get_elem? bs k ≡ some c → alias_compar c.alias alias ≡ more)
    → Backward bs alias (suc k) r
unfolding AfterAll
Backward-suc bs alias k none h at_k =
    λ m b lt g. AfterAll-suc bs alias 0 k (λ n c le. h n c) at_k m b (omega arith) lt g
Backward-suc bs alias k (some (s, b, i)) (j, e, lt, g, c, h) at_k =
    (j, e, omega arith, g, c, AfterAll-suc bs alias i k h at_k)

some_injective {ℓ} : {A : Type ℓ} {a b : A} → some a ≡ some b → a ≡ b
some_injective e = cc e

last_not_after-more :
    (bs : List Binding) (alias : Text) (k : ℕ) (b : Binding)
    → get_elem? bs k ≡ some b
    → alias_compar b.alias alias ≡ more
    → last_not_after bs alias k ≡ last_not_after bs alias (suc k)
unfolding last_not_after
last_not_after-more bs alias k b g e = rw (g, last_not_after, e) refl

last_not_after-none :
    (bs : List Binding) (alias : Text) (k : ℕ)
    → get_elem? bs k ≡ none
    → last_not_after bs alias k ≡ last_not_after bs alias (suc k)
unfolding last_not_after
last_not_after-none bs alias k g = rw (g, last_not_after) refl

none-some {ℓ} : {A : Type ℓ} {a : A} → none ≡ some a → ⊥
none-some e = ground arith

last_not_after-step :
    (bs : List Binding) (alias : Text) (k : ℕ) (b : Binding) (s : Sign)
    → get_elem? bs k ≡ some b
    → alias_compar b.alias alias ≡ s
    → Backward bs alias k (last_not_after bs alias k)
    → Backward bs alias (suc k) (last_not_after bs alias (suc k))
unfolding last_not_after
last_not_after-step bs alias k b less g e ih =
    rw (g, last_not_after, e)
      (k, refl, omega arith, g, (e, λ q. ground arith), λ m c le lt. absurd (omega arith))
last_not_after-step bs alias k b same g e ih =
    rw (g, last_not_after, e)
      (k, refl, omega arith, g, (e, λ q. ground arith), λ m c le lt. absurd (omega arith))
last_not_after-step bs alias k b more g e ih =
    subst (Backward bs alias (suc k)) (last_not_after-more bs alias k b g e) (
      Backward-suc bs alias k (last_not_after bs alias k) ih
        (λ c h. subst (λ d. alias_compar d.alias alias ≡ more) (some_injective (sym g ∙ h)) e))

last_not_after-Backward :
    (bs : List Binding) (alias : Text) (k : ℕ) → Backward bs alias k (last_not_after bs alias k)
unfolding last_not_after
last_not_after-Backward bs alias zero = λ m b lt e. absurd (omega arith)
last_not_after-Backward bs alias (suc k) =
    let ih = last_not_after-Backward bs alias k in
    elim (Option-cases (get_elem? bs k)) [
      | inl g ↦ subst (Backward bs alias (suc k)) (last_not_after-none bs alias k g) (
          Backward-suc bs alias k (last_not_after bs alias k) ih
            (λ c h. absurd (none-some (sym g ∙ h))))
      | inr (b, g) ↦ last_not_after-step bs alias k b (alias_compar b.alias alias) g refl ih
    ]

get_elem?-bound {ℓ} :
    {A : Type ℓ} (xs : List A) (i : ℕ) (x : A) → get_elem? xs i ≡ some x → i < length xs
get_elem?-bound [] i x e = absurd (none-some e)
get_elem?-bound (y ∷ xs) zero x e = omega arith
get_elem?-bound (y ∷ xs) (suc i) x e = omega (arith, get_elem?-bound xs i x e)

add_at-IsOrdered :
    (ok : Bool) (bs : List Binding) (i : ℕ) (x : Binding)
    → IsOrdered bs
    → IsOrdered (insert_at bs i x)
    → IsOrdered (add_at ok bs i x).1
unfolding add_at
add_at-IsOrdered true bs i x o h = h
add_at-IsOrdered false bs i x o h = o

-- A new binding in front of all bindings from slot `i` on, which are behind it in the order.
behind :
    (bs : List Binding) (alias wwid : Text) (i : ℕ)
    → AfterAll bs alias i (length bs)
    → (b : Binding) → get_elem? bs i ≡ some b
    → alias_compar alias b.alias ≡ less
unfolding AfterAll flip
behind bs alias wwid i h b g =
    alias_compar-flip b.alias alias ∙ ap flip (h i b (omega arith) (get_elem?-bound bs i b g) g)

abbrev new_binding : Text → Text → Binding
new_binding alias wwid = record { alias = alias; wwid = wwid }

insert_after :
    (ok : Bool) (bs : List Binding) (alias wwid : Text) (b : Binding) (i : ℕ)
    → IsOrdered bs
    → Backward bs alias (length bs) (some (less, b, i))
    → IsOrdered (add_at ok bs i (new_binding alias wwid)).1
unfolding AfterAll
insert_after ok bs alias wwid b i o (j, e, lt, g, (c, other), h) =
    add_at-IsOrdered ok bs i (new_binding alias wwid) o (
      insert_at-IsOrdered bs i (new_binding alias wwid) o (omega arith)
        (λ j' b' e' g'.
          let same : j' ≡ j = omega arith in
          let at_j = subst (λ n. get_elem? bs n ≡ some b') same g' in
          subst (λ d. alias_compar d.alias alias ≡ less) (some_injective (sym g ∙ at_j)) c)
        (behind bs alias wwid i h))

insert_first :
    (ok : Bool) (bs : List Binding) (alias wwid : Text)
    → IsOrdered bs
    → Backward bs alias (length bs) none
    → IsOrdered (add_at ok bs 0 (new_binding alias wwid)).1
unfolding AfterAll
insert_first ok bs alias wwid o h = add_at-IsOrdered ok bs 0 (new_binding alias wwid) o (
    insert_at-IsOrdered bs 0 (new_binding alias wwid) o (omega arith)
      (λ j b e g. absurd (omega arith)) (behind bs alias wwid 0 (λ m c le lt. h m c lt)))

added :
    (ok : Bool) (bs : List Binding) (alias wwid : Text) (r : Option (Sign × Binding × ℕ))
    → IsOrdered bs
    → last_not_after bs alias (length bs) ≡ r
    → Backward bs alias (length bs) r
    → IsOrdered (add_binding ok bs alias wwid).1
unfolding add_binding
added ok bs alias wwid none o e h = rw (e, add_binding) (insert_first ok bs alias wwid o h)
added ok bs alias wwid (some (less, b, i)) o e h =
    rw (e, add_binding) (insert_after ok bs alias wwid b i o h)
added ok bs alias wwid (some (more, b, i)) o e (j, k, lt, g, (c, other), h) = absurd (other refl)
added ok bs alias wwid (some (same, b, i)) o e h = elim (Bool-cases (str_eq b.wwid wwid)) [
  | inl k ↦ rw (e, add_binding, k) o
  | inr k ↦ rw (e, add_binding, k) o
]

-- `add_binding` keeps the bindings sorted, with no alias twice, whether it adds one or not.
pub add_binding-IsOrdered :
    (ok : Bool) (bindings : List Binding) (alias wwid : Text)
    → IsOrdered bindings
    → IsOrdered (add_binding ok bindings alias wwid).1
add_binding-IsOrdered ok bindings alias wwid o =
    added ok bindings alias wwid (last_not_after bindings alias (length bindings)) o refl
      (last_not_after-Backward bindings alias (length bindings))
