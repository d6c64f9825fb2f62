-- ===== src/Blacklist/Filter.antt =====
-- libmultipath/blacklist.c: the configuration's lists, the filters and their composition.
use multipath_tools.Base.{
  if◌then◌else◌, ℤ, pos, negsuc, ltb_ℤ, eqb_ℤ, zero, suc, Bool, false, not, ◌&&◌, ◌||◌, Option,
  none, some, List, [], ◌∷◌,
}
use multipath_tools.Base.Text.{Text, str_eq}
use multipath_tools.Blacklist.{Blentry, BlentryDevice, match_reglist, match_reglist_device}

abbrev pub match_nothing : ℤ
match_nothing = pos 0

abbrev pub match_wwid_blist : ℤ
match_wwid_blist = pos 1

abbrev pub match_device_blist : ℤ
match_device_blist = pos 2

abbrev pub match_devnode_blist : ℤ
match_devnode_blist = pos 3

abbrev pub match_property_blist : ℤ
match_property_blist = pos 4

abbrev pub match_property_blist_missing : ℤ
match_property_blist_missing = pos 5

abbrev pub match_protocol_blist : ℤ
match_protocol_blist = pos 6

-- `-r` for a positive code; `negsuc n` is -(n + 1).
abbrev pub except : ℤ → ℤ
except (pos zero) = pos 0
except (pos (suc n)) = negsuc n
except (negsuc n) = pos (suc n)

-- The lists of `struct config`.
pub record Lists : Type 0 where
  pub blist_devnode : List Blentry
  pub blist_wwid : List Blentry
  pub blist_property : List Blentry
  pub blist_protocol : List Blentry
  pub blist_device : List BlentryDevice
  pub elist_devnode : List Blentry
  pub elist_wwid : List Blentry
  pub elist_property : List Blentry
  pub elist_protocol : List Blentry
  pub elist_device : List BlentryDevice

-- What the filters read of `struct path`: `protocol` is what `snprint_path_protocol` prints, and
-- `udev` has the names of the properties, if there is a udev device.
pub record Names : Type 0 where
  pub dev : Text
  pub vendor_id : Text
  pub product_id : Text
  pub protocol : Text
  pub wwid : Text
  pub uid_attribute : Option Text
  pub udev : Option (List (Option Text))

-- The exceptions come first.
unfoldable pub choose : Bool → Bool → ℤ → ℤ
choose listed_except listed code =
    if listed_except then except code else if listed then code else match_nothing

abbrev is_attribute : Option Text → Text → Bool
is_attribute none env = false
is_attribute (some a) env = str_eq env a

module _ (matches : Text → Text → Bool) where
  unfoldable pub filter_device :
      List BlentryDevice → List BlentryDevice → Option Text → Option Text → ℤ
  unfolding match_reglist_device choose
  filter_device blist elist none product = match_nothing
  filter_device blist elist (some vendor) none = match_nothing
  filter_device blist elist (some vendor) (some product) =
      choose (match_reglist_device matches elist vendor product)
        (match_reglist_device matches blist vendor product) match_device_blist

  unfoldable pub filter_devnode : List Blentry → List Blentry → Option Text → ℤ
  unfolding match_reglist choose
  filter_devnode blist elist none = match_nothing
  filter_devnode blist elist (some dev) =
      choose (match_reglist matches elist dev) (match_reglist matches blist dev) match_devnode_blist

  unfoldable pub filter_wwid : List Blentry → List Blentry → Option Text → ℤ
  unfolding match_reglist choose
  filter_wwid blist elist none = match_nothing
  filter_wwid blist elist (some wwid) =
      choose (match_reglist matches elist wwid) (match_reglist matches blist wwid) match_wwid_blist

  unfoldable pub filter_protocol : List Blentry → List Blentry → Option Names → ℤ
  unfolding match_reglist choose
  filter_protocol blist elist none = match_nothing
  filter_protocol blist elist (some pp) =
      choose (match_reglist matches elist pp.protocol) (match_reglist matches blist pp.protocol)
        match_protocol_blist

  -- The loop over the properties: its code, and whether it saw the uid attribute.
  unfoldable pub property_loop : Lists → Option Text → List (Option Text) → ℤ × Bool
  unfolding match_reglist
  property_loop conf attr [] = (match_property_blist_missing, false)
  property_loop conf attr (none ∷ envs) = property_loop conf attr envs
  property_loop conf attr (some env ∷ envs) =
      let (r, seen) = property_loop conf attr envs in
      let here = is_attribute attr env in
      if match_reglist matches conf.elist_property env
      then (except match_property_blist, here)
      else if match_reglist matches conf.blist_property env
      then (match_property_blist, here)
      else (r, here || seen)

  -- `uid_attribute` where it is neither NULL nor empty.
  abbrev pub checked_attribute : Option Text → Option Text
  checked_attribute none = none
  checked_attribute (some []) = none
  checked_attribute (some (c ∷ s)) = some (c ∷ s)

  -- A missing property counts only if the uid attribute was there; without a uid attribute to look
  -- for, none was seen.
  unfoldable pub filter_property : Lists → Option (List (Option Text)) → Option Text → ℤ
  unfolding property_loop
  filter_property conf none uid_attribute = match_nothing
  filter_property conf (some envs) uid_attribute =
      let (r, seen) = property_loop conf (checked_attribute uid_attribute) envs in
      if eqb_ℤ r match_property_blist_missing && not seen then match_nothing else r

  unfoldable pub filter_path : Lists → Names → ℤ
  unfolding filter_property filter_devnode filter_device filter_protocol filter_wwid
  filter_path conf pp =
      let r1 = filter_property conf pp.udev pp.uid_attribute in
      let r2 = filter_devnode conf.blist_devnode conf.elist_devnode (some pp.dev) in
      let r3 =
        filter_device conf.blist_device conf.elist_device (some pp.vendor_id)
          (some pp.product_id) in
      let r4 = filter_protocol conf.blist_protocol conf.elist_protocol (some pp) in
      let r5 = filter_wwid conf.blist_wwid conf.elist_wwid (some pp.wwid) in
      if ltb_ℤ (pos 0) r1
      then r1
      else if ltb_ℤ (pos 0) r2
      then r2
      else if ltb_ℤ (pos 0) r3
      then r3
      else if ltb_ℤ (pos 0) r4
      then r4
      else r5
