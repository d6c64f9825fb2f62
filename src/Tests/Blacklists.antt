-- ===== src/Tests/Blacklists.antt =====
-- Blacklists, and the theorems at work on them.
use multipath_tools.Blacklist.Filter.{Lists, Names, filter_property, filter_path}
use multipath_tools.Blacklist.Verdict.{is_rejected, listed_only, filter_path_rejects}
use multipath_tools.Base.Text.{Text, codes, contains}
use multipath_tools.Blacklist.{
  Blentry, BlentryDevice, check_invert, new_ble, store_ble, empty_ble_device, hits, match_reglist,
  match_reglist_device,
}
use multipath_tools.Blacklist.Merge.{
  same_ble, merge_blacklist, same_ble_device, merge_blacklist_device,
}
use multipath_tools.Blacklist.Doubles.{IsMerged, IsCompiled, merge_blacklist_keeps}
use multipath_tools.Blacklist.Devices.{merge_blacklist_device_keeps, store_ble_lists}
use multipath_tools.Base.{
  All, ◌≡◌, refl, Bool, true, false, ◌&&◌, ◌||◌, Option, none, some, List, [], ◌∷◌,
}

-- Plain prefixes, for the regular expressions.
abbrev prefixes : Text → Text → Bool
prefixes pattern s = contains s pattern

abbrev double_list : List Blentry
double_list = new_ble (codes "sda") 1 ∷ new_ble (codes "!sd") 1 ∷ new_ble (codes "sda") 0 ∷ []

merge_blacklist_keeps_example :
    IsMerged same_ble (merge_blacklist double_list)
    × (match_reglist prefixes (merge_blacklist double_list) (codes "sdb")
        ≡ match_reglist prefixes double_list (codes "sdb"))
merge_blacklist_keeps_example = merge_blacklist_keeps prefixes double_list (codes "sdb") (
  (codes "sda", refl, refl, refl),
  ((codes "!sd", refl, refl, refl), ((codes "sda", refl, refl, refl), tt)),
)

-- The device node is an exception and the WWID is listed.
abbrev listed_wwid : Lists
listed_wwid = record {
  blist_devnode = double_list;
  blist_wwid = new_ble (codes "3600") 1 ∷ [];
  blist_property = [];
  blist_protocol = [];
  blist_device = [];
  elist_devnode = new_ble (codes "sda") 1 ∷ [];
  elist_wwid = [];
  elist_property = [];
  elist_protocol = [];
  elist_device = [];
}

abbrev named_path : Names
named_path = record {
  dev = codes "sda";
  vendor_id = codes "HP";
  product_id = codes "MSA";
  protocol = codes "scsi:fcp";
  wwid = codes "3600";
  uid_attribute = some (codes "ID_SERIAL");
  udev = some (some (codes "ID_BUS") ∷ []);
}

filter_path_rejects_example : is_rejected (filter_path prefixes listed_wwid named_path) ≡ (
    is_rejected (filter_property prefixes listed_wwid named_path.udev named_path.uid_attribute)
    || listed_only
        (match_reglist prefixes double_list (codes "sda"))
        (match_reglist prefixes listed_wwid.elist_devnode (codes "sda"))
    || listed_only
        (match_reglist_device prefixes [] (codes "HP") (codes "MSA"))
        (match_reglist_device prefixes [] (codes "HP") (codes "MSA"))
    || listed_only
        (match_reglist prefixes [] (codes "scsi:fcp"))
        (match_reglist prefixes [] (codes "scsi:fcp"))
    || listed_only
        (match_reglist prefixes listed_wwid.blist_wwid (codes "3600"))
        (match_reglist prefixes [] (codes "3600")))
filter_path_rejects_example = filter_path_rejects prefixes listed_wwid named_path

-- Every pattern compiles.
abbrev all_compile : Text → Bool
all_compile s = true

abbrev device_entry : Text → Option Text → BlentryDevice
device_entry v p = record {
  vendor = some v;
  product = p;
  vendor_reg = v;
  product_reg = [];
  vendor_invert = false;
  product_invert = false;
  origin = 0;
}

abbrev device_list : List BlentryDevice
device_list =
    device_entry (codes "HP") none ∷ empty_ble_device ∷ device_entry (codes "HP") none ∷ []

merge_blacklist_device_keeps_example :
    IsMerged same_ble_device (merge_blacklist_device device_list)
    × (match_reglist_device prefixes (merge_blacklist_device device_list) (codes "HPE") (codes "X")
        ≡ match_reglist_device prefixes device_list (codes "HPE") (codes "X"))
unfolding check_invert
merge_blacklist_device_keeps_example =
    merge_blacklist_device_keeps prefixes device_list (codes "HPE") (codes "X")
      (((refl, refl), tt), ((tt, tt), (((refl, refl), tt), tt)))

store_ble_lists_example :
    let r = store_ble all_compile double_list (some (codes "!nvme")) 1 in
    let (pattern, invert) = check_invert (codes "!nvme") in
    All IsCompiled r.1
    × (match_reglist prefixes r.1 (codes "sdb") ≡ (
        match_reglist prefixes double_list (codes "sdb")
        || (all_compile pattern && hits prefixes pattern invert (codes "sdb"))))
store_ble_lists_example =
    store_ble_lists all_compile prefixes double_list (codes "!nvme") 1 (codes "sdb") (
      (codes "sda", refl, refl, refl),
      ((codes "!sd", refl, refl, refl), ((codes "sda", refl, refl, refl), tt)),
    )
