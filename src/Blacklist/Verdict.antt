-- ===== src/Blacklist/Verdict.antt =====
-- libmultipath/blacklist.c: which paths are rejected.
use multipath_tools.Base.{
  if◌then◌else◌, Bool-cases, ℤ, pos, ltb_ℤ, ℕ, suc, ◌≡◌, refl, inl, inr, Bool, true, false, not,
  ◌&&◌, ◌||◌, some, arith,
}
use multipath_tools.Base.Text.{Text}
use multipath_tools.Blacklist.{match_reglist, match_reglist_device}
use multipath_tools.Blacklist.Filter.{
  Lists, Names, choose, filter_device, filter_devnode, filter_wwid, filter_protocol,
  filter_property, filter_path,
}

-- A positive code.
abbrev pub is_rejected : ℤ → Bool
is_rejected r = ltb_ℤ (pos 0) r

-- Listed, and no exception.
abbrev pub listed_only : Bool → Bool → Bool
listed_only listed listed_except = listed && not listed_except

choose_lem : (e b : Bool) (n : ℕ) → is_rejected (choose e b (pos (suc n))) ≡ listed_only b e
unfolding choose
choose_lem true true n = ground arith
choose_lem true false n = ground arith
choose_lem false true n = ground arith
choose_lem false false n = refl

or_assoc : (a b c d e : Bool) → (a || (b || (c || (d || e)))) ≡ (a || b || c || d || e)
or_assoc true b c d e = refl
or_assoc false true c d e = refl
or_assoc false false true d e = refl
or_assoc false false false d e = refl

first_lem :
    (r s : ℤ) → is_rejected (if ltb_ℤ (pos 0) r then r else s) ≡ (is_rejected r || is_rejected s)
first_lem r s = elim (Bool-cases (ltb_ℤ (pos 0) r)) [ inl e ↦ rw (e, e) refl | inr e ↦ rw e refl ]

-- A path is rejected exactly if its udev properties are, or its device node, its vendor and product,
-- its protocol or its WWID is on the list for it and not among the exceptions for it: an exception
-- for one of these does not outweigh a listing of another.
pub filter_path_rejects :
    (matches : Text → Text → Bool) (conf : Lists) (pp : Names)
    → is_rejected (filter_path matches conf pp) ≡ (
        is_rejected (filter_property matches conf pp.udev pp.uid_attribute)
        || listed_only
            (match_reglist matches conf.blist_devnode pp.dev)
            (match_reglist matches conf.elist_devnode pp.dev)
        || listed_only
            (match_reglist_device matches conf.blist_device pp.vendor_id pp.product_id)
            (match_reglist_device matches conf.elist_device pp.vendor_id pp.product_id)
        || listed_only
            (match_reglist matches conf.blist_protocol pp.protocol)
            (match_reglist matches conf.elist_protocol pp.protocol)
        || listed_only
            (match_reglist matches conf.blist_wwid pp.wwid)
            (match_reglist matches conf.elist_wwid pp.wwid))
unfolding filter_path filter_devnode filter_device filter_protocol filter_wwid
filter_path_rejects matches conf pp =
    let r1 = filter_property matches conf pp.udev pp.uid_attribute in
    let r2 = filter_devnode matches conf.blist_devnode conf.elist_devnode (some pp.dev) in
    let r3 =
      filter_device matches conf.blist_device conf.elist_device (some pp.vendor_id)
        (some pp.product_id) in
    let r4 = filter_protocol matches conf.blist_protocol conf.elist_protocol (some pp) in
    let r5 = filter_wwid matches conf.blist_wwid conf.elist_wwid (some pp.wwid) in
    let s4 = if ltb_ℤ (pos 0) r4 then r4 else r5 in
    let s3 = if ltb_ℤ (pos 0) r3 then r3 else s4 in
    let s2 = if ltb_ℤ (pos 0) r2 then r2 else s3 in
    rw
      (
        first_lem r1 s2,
        first_lem r2 s3,
        first_lem r3 s4,
        first_lem r4 r5,
        choose_lem (match_reglist matches conf.elist_devnode pp.dev)
            (match_reglist matches conf.blist_devnode pp.dev) 2,
        choose_lem (match_reglist_device matches conf.elist_device pp.vendor_id pp.product_id)
            (match_reglist_device matches conf.blist_device pp.vendor_id pp.product_id) 1,
        choose_lem (match_reglist matches conf.elist_protocol pp.protocol)
            (match_reglist matches conf.blist_protocol pp.protocol) 5,
        choose_lem (match_reglist matches conf.elist_wwid pp.wwid)
            (match_reglist matches conf.blist_wwid pp.wwid) 0,
      )
      (or_assoc (is_rejected r1)
        (listed_only (match_reglist matches conf.blist_devnode pp.dev)
          (match_reglist matches conf.elist_devnode pp.dev))
        (listed_only (match_reglist_device matches conf.blist_device pp.vendor_id pp.product_id)
          (match_reglist_device matches conf.elist_device pp.vendor_id pp.product_id))
        (listed_only (match_reglist matches conf.blist_protocol pp.protocol)
          (match_reglist matches conf.elist_protocol pp.protocol))
        (listed_only (match_reglist matches conf.blist_wwid pp.wwid)
          (match_reglist matches conf.elist_wwid pp.wwid)))
