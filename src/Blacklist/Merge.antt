-- ===== src/Blacklist/Merge.antt =====
-- libmultipath/blacklist.c: the removal of double entries.
use multipath_tools.Base.{
  if◌then◌else◌, length, ℕ, zero, suc, Bool, false, ◌&&◌, Option, none, some, List, [], ◌∷◌,
}
use multipath_tools.Base.Text.{Text, str_eq}
use multipath_tools.Blacklist.{Blentry, BlentryDevice, is_null, same_text}

-- The inner loop: the entries behind `a` that are doubles of it go.
unfoldable pub drop_same {ℓ} : {A : Type ℓ} → (A → A → Bool) → A → List A → List A
drop_same same a [] = []
drop_same same a (b ∷ bs) = let rest = drop_same same a bs in if same a b then rest else b ∷ rest

-- The outer loop. The fuel is the length of the vector.
unfoldable pub merge_loop {ℓ} : {A : Type ℓ} → (A → A → Bool) → ℕ → List A → List A
unfolding drop_same
merge_loop same zero bs = bs
merge_loop same (suc f) [] = []
merge_loop same (suc f) (b ∷ bs) = b ∷ merge_loop same f (drop_same same b bs)

-- NULL strings are doubles of nothing.
abbrev both_same : Option Text → Option Text → Bool
both_same none t = false
both_same (some s) none = false
both_same (some s) (some t) = str_eq s t

unfoldable pub same_ble : Blentry → Blentry → Bool
same_ble bl1 bl2 = both_same bl1.str bl2.str

unfoldable pub merge_blacklist : List Blentry → List Blentry
unfolding merge_loop same_ble
merge_blacklist blist = merge_loop same_ble (length blist) blist

unfoldable pub same_ble_device : BlentryDevice → BlentryDevice → Bool
unfolding same_text
same_ble_device bl1 bl2 = same_text bl1.vendor bl2.vendor && same_text bl1.product bl2.product

-- The first loop: entries without both strings go.
unfoldable pub drop_empty : List BlentryDevice → List BlentryDevice
drop_empty [] = []
drop_empty (b ∷ bs) =
    let rest = drop_empty bs in if is_null b.vendor && is_null b.product then rest else b ∷ rest

unfoldable pub merge_blacklist_device : List BlentryDevice → List BlentryDevice
unfolding merge_loop same_ble_device drop_empty
merge_blacklist_device blist =
    let bs = drop_empty blist in merge_loop same_ble_device (length bs) bs
