-- ===== src/Blacklist/Devices.antt =====
-- libmultipath/blacklist.c: what is listed after an entry was stored, and after the device entries were
-- merged.
use multipath_tools.Base.{
  Bool-cases, length, any, All, All-append, ℕ, ◌≡◌, refl, sym, ap, ◌∙◌, inl, inr, Bool, true, false,
  ◌&&◌, ◌||◌, Option, none, some, List, [], ◌∷◌, ◌++◌, arith,
}
use multipath_tools.Base.Text.{Text, str_eq→eq}
use multipath_tools.Blacklist.{
  Blentry, BlentryDevice, check_invert, new_ble, store_ble, hits, match_reglist, hits_or_null,
  is_null, match_ble_device, match_reglist_device, same_text,
}
use multipath_tools.Blacklist.Merge.{same_ble_device, drop_empty, merge_blacklist_device}
use multipath_tools.Blacklist.Doubles.{
  IsMerged, merge_loop-IsMerged, any-merge_loop, IsCompiled, any-match_reglist,
}

-- A string of an entry is NULL, or its expression is the compiled one.
abbrev pub Compiled : Option Text → Text → Bool → Type 0
Compiled none reg inv = Unit
Compiled (some s) reg inv = (reg ≡ (check_invert s).0) × (inv ≡ (check_invert s).1)

-- An entry as `set_ble_device` makes it.
abbrev pub IsCompiledDevice : BlentryDevice → Type 0
IsCompiledDevice ble =
    Compiled ble.vendor ble.vendor_reg ble.vendor_invert
    × Compiled ble.product ble.product_reg ble.product_invert

hits_or_null_same :
    (matches : Text → Text → Bool) (o o' : Option Text) (reg reg' : Text) (inv inv' : Bool)
    → same_text o o' ≡ true
    → Compiled o reg inv
    → Compiled o' reg' inv'
    → (is_null o ≡ is_null o')
      × ((s : Text) → hits_or_null matches o reg inv s ≡ hits_or_null matches o' reg' inv' s)
unfolding same_text
hits_or_null_same matches none none reg reg' inv inv' h c c' = (refl, λ s. refl)
hits_or_null_same matches none (some t) reg reg' inv inv' h c c' = absurd (ground arith)
hits_or_null_same matches (some u) none reg reg' inv inv' h c c' = absurd (ground arith)
hits_or_null_same matches (some u) (some t) reg reg' inv inv' h (r, i) (r', i') =
    let e = str_eq→eq u t h in (refl, λ s. rw (r, i, r', i', e) refl)

and_both : (a b : Bool) → (a && b) ≡ true → (a ≡ true) × (b ≡ true)
and_both true b h = (refl, h)
and_both false b h = absurd (ground arith)

match_ble_device_blind :
    (matches : Text → Text → Bool) (vendor product : Text) (a b : BlentryDevice)
    → IsCompiledDevice a
    → IsCompiledDevice b
    → same_ble_device a b ≡ true
    → match_ble_device matches a vendor product ≡ match_ble_device matches b vendor product
unfolding match_ble_device same_ble_device
match_ble_device_blind matches vendor product a b (cv, cp) (cv', cp') h =
    let (hv, hp) = and_both (same_text a.vendor b.vendor) (same_text a.product b.product) h in
    let (nv, ev) =
      hits_or_null_same matches a.vendor b.vendor a.vendor_reg b.vendor_reg a.vendor_invert
        b.vendor_invert hv cv cv' in
    let (np, ep) =
      hits_or_null_same matches a.product b.product a.product_reg b.product_reg a.product_invert
        b.product_invert hp cp cp' in
    rw (nv, np, ev vendor, ep product) refl

drop_empty-All :
    (bs : List BlentryDevice) → All IsCompiledDevice bs → All IsCompiledDevice (drop_empty bs)
unfolding drop_empty
drop_empty-All [] h = tt
drop_empty-All (b ∷ bs) (c, h) =
    let ih = drop_empty-All bs h in
    elim (Bool-cases (is_null b.vendor && is_null b.product)) [
      | inl e ↦ rw e ih
      | inr e ↦ rw e (c, ih)
    ]

empty_matches :
    (matches : Text → Text → Bool) (vendor product : Text) (b : BlentryDevice)
    → (is_null b.vendor && is_null b.product) ≡ true
    → match_ble_device matches b vendor product ≡ false
unfolding match_ble_device
empty_matches matches vendor product b e = rw e refl

any-drop_empty :
    (matches : Text → Text → Bool) (vendor product : Text) (bs : List BlentryDevice)
    → any (λ b. match_ble_device matches b vendor product) (drop_empty bs)
      ≡ any (λ b. match_ble_device matches b vendor product) bs
unfolding drop_empty
any-drop_empty matches vendor product [] = refl
any-drop_empty matches vendor product (b ∷ bs) =
    let ih = any-drop_empty matches vendor product bs in
    elim (Bool-cases (is_null b.vendor && is_null b.product)) [
      | inl e ↦ rw (e, empty_matches matches vendor product b e) ih
      | inr e ↦ rw e (ap (λ t. match_ble_device matches b vendor product || t) ih)
    ]

any-match_reglist_device :
    (matches : Text → Text → Bool) (bs : List BlentryDevice) (vendor product : Text)
    → match_reglist_device matches bs vendor product
      ≡ any (λ b. match_ble_device matches b vendor product) bs
unfolding match_reglist_device
any-match_reglist_device matches [] vendor product = refl
any-match_reglist_device matches (b ∷ bs) vendor product =
    ap (λ t. match_ble_device matches b vendor product || t)
      (any-match_reglist_device matches bs vendor product)

-- `merge_blacklist_device` leaves no two entries with the same vendor and product, and a device is
-- listed after it exactly if it was listed before, for a list with entries as `set_ble_device` makes
-- them.
pub merge_blacklist_device_keeps :
    (matches : Text → Text → Bool) (blist : List BlentryDevice) (vendor product : Text)
    → All IsCompiledDevice blist
    → IsMerged same_ble_device (merge_blacklist_device blist)
      × (match_reglist_device matches (merge_blacklist_device blist) vendor product
          ≡ match_reglist_device matches blist vendor product)
unfolding merge_blacklist_device
merge_blacklist_device_keeps matches blist vendor product h =
    let bs = drop_empty blist in
    (
      merge_loop-IsMerged same_ble_device (length bs) bs (omega arith),
      any-match_reglist_device matches (merge_blacklist_device blist) vendor product
          ∙ any-merge_loop same_ble_device IsCompiledDevice
              (λ b. match_ble_device matches b vendor product)
              (match_ble_device_blind matches vendor product) (length bs) bs
              (drop_empty-All blist h)
          ∙ any-drop_empty matches vendor product blist
          ∙ sym (any-match_reglist_device matches blist vendor product),
    )

or_assoc : (x y z : Bool) → (x || (y || z)) ≡ (x || y || z)
or_assoc true y z = refl
or_assoc false y z = refl

or_false : (b : Bool) → (b || false) ≡ b
or_false true = refl
or_false false = refl

any-append {ℓ} :
    {A : Type ℓ} (p : A → Bool) (xs ys : List A) → any p (xs ++ ys) ≡ (any p xs || any p ys)
any-append p [] ys = refl
any-append p (x ∷ xs) ys =
    ap (λ t. p x || t) (any-append p xs ys) ∙ or_assoc (p x) (any p xs) (any p ys)

-- Where `store_ble` succeeds, the entries are still such as it makes them, and the list is the old one
-- and, at its end, names that the new pattern matches, or, if it is marked as inverted, that it does
-- not match; where the pattern does not compile, the list is unchanged.
pub store_ble_lists :
    (compiles : Text → Bool) (matches : Text → Text → Bool) (blist : List Blentry) (str : Text)
    (origin : ℕ) (name : Text)
    → All IsCompiled blist
    → let r = store_ble compiles blist (some str) origin in
      let (pattern, invert) = check_invert str in
      All IsCompiled r.1
      × (match_reglist matches r.1 name ≡ (
          match_reglist matches blist name
          || (compiles pattern && hits matches pattern invert name)))
unfolding store_ble
store_ble_lists compiles matches blist str origin name h =
    let (pattern, invert) = check_invert str in
    let hit = hits matches pattern invert name in
    let new = new_ble str origin in
    let old = match_reglist matches blist name in
    elim (Bool-cases (compiles pattern)) [
      | inr e ↦ rw e (h, sym (or_false old))
      | inl e ↦ rw e (
        All-append IsCompiled blist (new ∷ []) h ((str, refl, refl, refl), tt),
        any-match_reglist matches (blist ++ new ∷ []) name
            ∙ any-append (λ b. hits matches b.regex b.invert name) blist (new ∷ [])
            ∙ ap (λ t. t || (hit || false)) (sym (any-match_reglist matches blist name))
            ∙ ap (λ t. old || t) (or_false hit),
      )
    ]
