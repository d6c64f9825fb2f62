-- ===== src/Blacklist.antt =====
-- libmultipath/blacklist.c: the blacklists, their exceptions and the filters of a path. The regular
-- expressions of regex.h are parameters: does a pattern compile, and does a compiled pattern match.
-- `strdup`, `calloc` and `vector_alloc_slot` are taken to succeed; a pattern that does not compile is
-- an error.
use multipath_tools.Base.{
  ◌==◌, if◌then◌else◌, set, ℕ, ◌+◌, ◌-◌, ◌/◌, Bool, true, false, not, ◌&&◌, ◌||◌, Option, none,
  some, List, [], ◌∷◌, ◌++◌,
}
use multipath_tools.Base.Text.{Text, str_eq}
pub mod Merge
pub mod Filter
pub mod Doubles
pub mod Verdict
pub mod Devices

-- A NULL string is `none`.
pub record Blentry : Type 0 where
  pub str : Option Text
  pub regex : Text
  pub invert : Bool
  pub origin : ℕ

pub record BlentryDevice : Type 0 where
  pub vendor : Option Text
  pub product : Option Text
  pub vendor_reg : Text
  pub product_reg : Text
  pub vendor_invert : Bool
  pub product_invert : Bool
  pub origin : ℕ

-- The pattern behind the mark, and whether the mark inverts it: `!` does, `\!` is a plain `!`.
unfoldable pub check_invert : Text → Text × Bool
check_invert [] = ([], false)
check_invert (c ∷ []) = if c == 33 then ([], true) else (c ∷ [], false)
check_invert (c ∷ d ∷ s) =
    if c == 33
    then (d ∷ s, true)
    else if (c == 92) && (d == 33)
    then (d ∷ s, false)
    else (c ∷ d ∷ s, false)

abbrev pub new_ble : Text → ℕ → Blentry
new_ble str origin = record {
  str = some str;
  regex = (check_invert str).0;
  invert = (check_invert str).1;
  origin = origin;
}

-- The flag is true for the return value 0.
unfoldable pub store_ble : (Text → Bool) → List Blentry → Option Text → ℕ → Bool × List Blentry
unfolding check_invert
store_ble compiles blist none origin = (true, blist)
store_ble compiles blist (some str) origin =
    if compiles (check_invert str).0
    then (true, blist ++ new_ble str origin ∷ [])
    else (false, blist)

abbrev pub empty_ble_device : BlentryDevice
empty_ble_device = record {
  vendor = none;
  product = none;
  vendor_reg = [];
  product_reg = [];
  vendor_invert = false;
  product_invert = false;
  origin = 0;
}

unfoldable pub alloc_ble_device : List BlentryDevice → List BlentryDevice
alloc_ble_device blist = blist ++ empty_ble_device ∷ []

-- The part of `set_ble_device` for the vendor.
unfoldable pub set_vendor : (Text → Bool) → Option Text → BlentryDevice → Bool × BlentryDevice
unfolding check_invert
set_vendor compiles none ble = (true, ble)
set_vendor compiles (some vendor) ble =
    let (reg, inv) = check_invert vendor in
    if compiles reg
    then (true, record ble { vendor = some vendor; vendor_reg = reg; vendor_invert = inv })
    else (false, record ble { vendor_invert = inv })

unfoldable pub set_product : (Text → Bool) → Option Text → BlentryDevice → Bool × BlentryDevice
unfolding check_invert
set_product compiles none ble = (true, ble)
set_product compiles (some product) ble =
    let (reg, inv) = check_invert product in
    if compiles reg
    then (true, record ble { product = some product; product_reg = reg; product_invert = inv })
    else (false, record ble { product_invert = inv })

-- Label `out1`: a vendor that was set is taken back.
abbrev pub drop_vendor : Option Text → BlentryDevice → BlentryDevice
drop_vendor none ble = ble
drop_vendor (some vendor) ble = record ble { vendor = none }

unfoldable pub set_ble :
    (Text → Bool) → BlentryDevice → Option Text → Option Text → ℕ → Bool × BlentryDevice
unfolding set_vendor set_product
set_ble compiles ble vendor product origin =
    let (ok, ble') = set_vendor compiles vendor ble in
    let (ok', ble'') = set_product compiles product ble' in
    if not ok
    then (false, ble')
    else if not ok'
    then (false, drop_vendor vendor ble'')
    else (true, record ble'' { origin = origin })

-- It fills the last slot.
unfoldable pub set_ble_device :
    (Text → Bool) → List BlentryDevice → Option Text → Option Text → ℕ → Bool × List BlentryDevice
unfolding set_ble
set_ble_device compiles [] vendor product origin = (false, [])
set_ble_device compiles (ble ∷ []) vendor product origin =
    let (ok, ble') = set_ble compiles ble vendor product origin in (ok, ble' ∷ [])
set_ble_device compiles (ble ∷ ble2 ∷ blist) vendor product origin =
    let (ok, rest) = set_ble_device compiles (ble2 ∷ blist) vendor product origin in
    (ok, ble ∷ rest)

abbrev pub eq_Bool : Bool → Bool → Bool
eq_Bool true b = b
eq_Bool false b = not b

-- `!!regexec(reg, s) == invert`, where `regexec` is 0 for a match.
abbrev pub hits : (Text → Text → Bool) → Text → Bool → Text → Bool
hits matches reg invert s = eq_Bool (not (matches reg s)) invert

unfoldable pub match_reglist : (Text → Text → Bool) → List Blentry → Text → Bool
match_reglist matches [] str = false
match_reglist matches (ble ∷ blist) str =
    hits matches ble.regex ble.invert str || match_reglist matches blist str

-- `!pattern || !!regexec(reg, s) == invert`.
abbrev pub hits_or_null : (Text → Text → Bool) → Option Text → Text → Bool → Text → Bool
hits_or_null matches none reg invert s = true
hits_or_null matches (some p) reg invert s = hits matches reg invert s

abbrev pub is_null : Option Text → Bool
is_null none = true
is_null (some s) = false

unfoldable pub match_ble_device : (Text → Text → Bool) → BlentryDevice → Text → Text → Bool
match_ble_device matches ble vendor product =
    if is_null ble.vendor && is_null ble.product
    then false
    else hits_or_null matches ble.vendor ble.vendor_reg ble.vendor_invert vendor
      && hits_or_null matches ble.product ble.product_reg ble.product_invert product

unfoldable pub match_reglist_device : (Text → Text → Bool) → List BlentryDevice → Text → Text → Bool
unfolding match_ble_device
match_reglist_device matches [] vendor product = false
match_reglist_device matches (ble ∷ blist) vendor product =
    match_ble_device matches ble vendor product || match_reglist_device matches blist vendor product

-- Both NULL, or equal strings.
unfoldable pub same_text : Option Text → Option Text → Bool
same_text none none = true
same_text none (some t) = false
same_text (some s) none = false
same_text (some s) (some t) = str_eq s t

unfoldable pub find_blacklist_device : List BlentryDevice → Option Text → Option Text → Bool
unfolding same_text
find_blacklist_device [] vendor product = false
find_blacklist_device (ble ∷ blist) vendor product =
    (same_text vendor ble.vendor && same_text product ble.product)
    || find_blacklist_device blist vendor product
