-- ===== src/Configure/Unchanged.antt =====
-- libmultipath/configure.c: which maps `select_action` leaves alone.
use multipath_tools.Configure.Same.{FirstsApart, pgcmp_same}
use multipath_tools.Configure.Pgcmp.{pgcmp}
use multipath_tools.Dmparser.RoundTrip.{map_read, disassemble_map-assemble_map}
use multipath_tools.Dmparser.Disassemble.{Reader, Parsed, parsed, refused, crashed, disassemble_map}
use multipath_tools.Dmparser.Groups.{minio_of_groups}
use multipath_tools.Dmparser.Selector.{none_word}
use multipath_tools.Dmparser.Paths.{IsKnown, minio_after}
use multipath_tools.Dmparser.Reading.{counted}
use multipath_tools.Dmparser.Words.{IsWord}
use multipath_tools.Dmparser.{merge_words}
use multipath_tools.Structs.{Heap, PathGroup}
use multipath_tools.Base.{
  ◌==◌, ==_refl, length, take, All, ℤ, pos_part, neg_part, eqb_ℤ, ℕ, ◌+◌, ◌<◌, ◌≡◌, refl, sym, ap,
  ◌∙◌, subst, Bool, true, false, not, ◌&&◌, ◌||◌, Option, none, some, List, [], ◌∷◌,
}
use multipath_tools.Base.Text.{Text, codes, str_eq, strn_eq, contains, str_eq_refl}
use multipath_tools.Dmparser.Assemble.{
  is_retain_on, MapTable, table_features, groups_of, assemble_map,
}
use multipath_tools.Configure.{
  act_nothing, MapConf, find_mp_by_wwid, find_mp_by_alias, same_bool, is_udev_ready, text_of,
  feature_differs, hwhandler_differs, other_features, differs_from, selector_differs, needs_reload,
  select_for, select_named, select_action,
}

same_bool_refl : (b : Bool) → same_bool b b ≡ true
same_bool_refl true = refl
same_bool_refl false = refl

take_all : (s : Text) → strn_eq (length s) s s ≡ true
unfolding strn_eq
take_all s = str_eq_refl (take (length s) s)

and_false : (b : Bool) → (b && false) ≡ false
and_false true = refl
and_false false = refl

eqb_refl : (a b : ℤ) → a ≡ b → eqb_ℤ a b ≡ true
eqb_refl a b e = rw e (==_refl (pos_part b + neg_part b))

hwhandler_refl :
    (off : Bool) (w : Text)
    → ((off || str_eq w (codes "0"))
        && (not (length w == length w) || not (strn_eq (length w) w w)))
      ≡ false
hwhandler_refl off w = rw (==_refl (length w), take_all w) (and_false (off || str_eq w (codes "0")))

-- Two tables with the same features, hardware handler, selector and `minio`, and groups in which `pgcmp`
-- finds no difference.
module _ (m c : MapTable) (f w s : Text) (mf : m.mpp.features ≡ some f)
    (cf : c.mpp.features ≡ some f) (mw : m.hwhandler ≡ some w) (cw : c.hwhandler ≡ some w)
    (ms : m.selector ≡ some s) (cs : c.selector ≡ some s) where
  feature_same : (feature : Text) → feature_differs feature m c ≡ false
  unfolding feature_differs
  feature_same feature =
      ap
        (λ o.
          not
            (same_bool (contains (text_of m.mpp.features) feature) (contains (text_of o) feature)))
        (cf ∙ sym mf)
      ∙ ap not (same_bool_refl (contains (text_of m.mpp.features) feature))

  hwhandler_same : hwhandler_differs m c ≡ false
  unfolding hwhandler_differs
  hwhandler_same =
      let test : Text → Text → Bool = λ mh ch.
        (not (is_retain_on m.retain_hwhandler) || str_eq ch (codes "0"))
        && (not (length ch == length mh) || not (strn_eq (length mh) ch mh)) in
      ap (λ o. test (text_of m.hwhandler) (text_of o)) (cw ∙ sym mw)
      ∙ hwhandler_refl (not (is_retain_on m.retain_hwhandler)) (text_of m.hwhandler)

  others_same : str_eq (other_features m.mpp.features) (other_features c.mpp.features) ≡ true
  others_same =
      ap (λ o. str_eq (other_features m.mpp.features) (other_features o)) (cf ∙ sym mf)
      ∙ str_eq_refl (other_features m.mpp.features)

  selector_same : selector_differs m c ≡ false
  unfolding selector_differs
  selector_same =
      ap (differs_from (text_of m.selector)) cs
      ∙ ap (λ o. differs_from (text_of o) (some s)) ms
      ∙ ap not (take_all s)

  no_reload :
      (old_kernel : Bool)
      → c.minio ≡ m.minio
      → pgcmp (groups_of m.mpp.pg) (groups_of c.mpp.pg) ≡ false
      → needs_reload old_kernel m c ≡ false
  unfolding needs_reload
  no_reload old_kernel e g =
      rw
        (
          feature_same (codes "queue_if_no_path"),
          and_false,
          hwhandler_same,
          feature_same (codes "retain_attached_hw_handler"),
          and_false,
          others_same,
          selector_same,
          eqb_refl c.minio m.minio e,
          g,
        )
        refl

select_for-same :
    (old_kernel : Bool) (udev : Option (Option Text)) (h : Heap) (m c : MapConf)
    → c.size ≡ m.size
    → is_udev_ready udev ≡ true
    → needs_reload old_kernel m.table c.table ≡ false
    → c.table.mpp.nextpg ≡ m.table.mpp.bestpg
    → select_for old_kernel udev h false m c ≡ m
unfolding select_for
select_for-same old_kernel udev h m c s u n p =
    let e : (c.size == m.size) ≡ true = subst (λ x. (c.size == x) ≡ true) s (==_refl c.size) in
    let f : (c.table.mpp.nextpg == m.table.mpp.bestpg) ≡ true =
      subst (λ x. (c.table.mpp.nextpg == x) ≡ true) p (==_refl c.table.mpp.nextpg) in
    rw (e, u, n, f) refl

named_same : (m c : MapConf) (i : ℕ) → select_named m (i, c) (some (i, c)) ≡ m
named_same m c i = rw (==_refl i) refl

minio_stays : (groups : List PathGroup) (z : ℤ) → minio_of_groups groups z z ≡ z
minio_stays [] z = refl
minio_stays (g ∷ groups) z = rw (minio_once g.paths z) (minio_stays groups z)
  where
    minio_once : (paths : List ℕ) (z : ℤ) → minio_after paths z z ≡ z
    minio_once [] z = refl
    minio_once (a ∷ paths) z = refl

minio_read :
    (g : PathGroup) (groups : List PathGroup) (z old : ℤ)
    → 0 < length g.paths
    → minio_of_groups (g ∷ groups) z old ≡ z
minio_read g groups z old n = first g.paths n
  where
    first :
        (paths : List ℕ) → 0 < length paths → minio_of_groups groups z (minio_after paths z old) ≡ z
    first [] l = elim l [ ]
    first (a ∷ paths) l = minio_stays groups z

text_or : Option Text → Text
text_or none = []
text_or (some s) = s

reader_or : Reader → Parsed (Unit {0}) → Reader
reader_or r (parsed a r') = r'
reader_or r refused = r
reader_or r crashed = r

table_read :
    {text text' : Text} {r r' : Reader} (run : Text → Parsed (Unit {0})) (o : Option Text)
    → o ≡ some text
    → o ≡ some text'
    → run text ≡ parsed tt r
    → run text' ≡ parsed tt r'
    → r ≡ r'
unfolding text_or reader_or
table_read {r} run o e f p q = ap (reader_or r) (sym p ∙ ap (λ x. run (text_or x)) (sym e ∙ f) ∙ q)

-- A map that was set up by `assemble_map`, under the conditions of its round trip, with a path in its
-- first group and no first path of a group in a later group; and the kernel has a map whose table is
-- the one that `disassemble_map` has read from the text. If `select_action`, without a forced reload,
-- finds that map both by its WWID and by its alias, the sizes agree, and udev has processed the map,
-- it changes nothing but the action, which is ACT_NOTHING: no reload and no switch of the group.
pub select_action-unchanged :
    (old_kernel : Bool) (udev : MapConf → Option (Option Text)) (h states : Heap) (pathvec : List ℕ)
    (fresh i : ℕ) (t old : MapTable) (fs hs : List Text) (sel : Text) (g : PathGroup)
    (groups : List PathGroup) (text : Text) (r : Reader) (m c : MapConf) (curmp : List MapConf)
    → table_features old_kernel h t ≡ some (counted fs)
    → t.hwhandler ≡ some (counted hs)
    → t.selector ≡ some (merge_words sel none_word)
    → t.mpp.pg ≡ some (g ∷ groups)
    → All (λ g. All (IsKnown h pathvec) g.paths) (g ∷ groups)
    → All IsWord fs
    → All IsWord hs
    → IsWord sel
    → old.selector ≡ none
    → old.mpp.pg ≡ none
    → 0 < length g.paths
    → FirstsApart (g ∷ groups)
    → (assemble_map old_kernel h t).1 ≡ some text
    → disassemble_map pathvec text h fresh old ≡ parsed tt r
    → m.table ≡ (assemble_map old_kernel h t).0
    → c.table ≡ r.table
    → find_mp_by_wwid curmp m.wwid ≡ some (i, c)
    → find_mp_by_alias curmp m.alias ≡ some (i, c)
    → c.size ≡ m.size
    → is_udev_ready (udev c) ≡ true
    → select_action old_kernel udev states curmp false m ≡ record m { action = act_nothing }
unfolding select_action assemble_map
select_action-unchanged k udev h states pathvec fresh i t old fs hs sel g groups text r m c curmp tf
      tw ts tp kn kf kh ks os op n apart a d mt ct bw ba size ready =
    let (text', a', place, d') =
      disassemble_map-assemble_map k h pathvec fresh t old fs hs sel g groups tf tw ts tp kn kf kh
        ks os op in
    let read =
      table_read (λ x. disassemble_map pathvec x h fresh old) (assemble_map k h t).1 a a' d d' in
    let ce : c.table ≡ map_read old fs hs sel t.minio t.mpp.bestpg (g ∷ groups) =
      ct ∙ ap (λ (x : Reader). x.table) read in
    let m' : MapConf = record m { action = act_nothing } in
    let pg : m.table.mpp.pg ≡ some (g ∷ groups) = ap (λ (x : MapTable). x.mpp.pg) mt ∙ tp in
    let same : pgcmp (groups_of m.table.mpp.pg) (groups_of c.table.mpp.pg) ≡ false =
      ap (λ o. pgcmp (groups_of o) (groups_of c.table.mpp.pg)) pg
      ∙ ap (λ (x : MapTable). pgcmp (g ∷ groups) (groups_of x.mpp.pg)) ce
      ∙ pgcmp_same (g ∷ groups) apart in
    let minio : c.table.minio ≡ m.table.minio =
      ap (λ (x : MapTable). x.minio) ce
      ∙ minio_read g groups t.minio old.minio n
      ∙ sym (ap (λ (x : MapTable). x.minio) mt) in
    let next : c.table.mpp.nextpg ≡ m.table.mpp.bestpg =
      ap (λ (x : MapTable). x.mpp.nextpg) ce ∙ sym (ap (λ (x : MapTable). x.mpp.bestpg) mt) in
    let keep : needs_reload k m.table c.table ≡ false =
      no_reload m.table c.table (counted fs) (counted hs) (merge_words sel none_word)
        (ap (λ (x : MapTable). x.mpp.features) mt ∙ tf) (ap (λ (x : MapTable). x.mpp.features) ce)
        (ap (λ (x : MapTable). x.hwhandler) mt ∙ tw) (ap (λ (x : MapTable). x.hwhandler) ce)
        (ap (λ (x : MapTable). x.selector) mt ∙ ts) (ap (λ (x : MapTable). x.selector) ce) k minio
        same in
    rw (select_action, bw, ba, named_same m' c i)
      (select_for-same k (udev c) states m' c size ready keep next)
