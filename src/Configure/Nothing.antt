-- ===== src/Configure/Nothing.antt =====
-- libmultipath/configure.c: what a map that `select_action` leaves alone has in common with the kernel's.
use multipath_tools.Configure.Pgcmp.{pgcmp}
use multipath_tools.Base.{
  ltb, ◌==◌, if◌then◌else◌, ==→eq, Bool-cases, length, All, ℤ, pos, eqb_ℤ, eq_of_parts, ℕ, ◌≡◌,
  refl, sym, ap, ◌∙◌, subst, ◌≢◌, inl, inr, Bool, true, false, not, ◌&&◌, Option, none, some, List,
  arith,
}
use multipath_tools.Base.Text.{Text, codes, str_eq}
use multipath_tools.Structs.{Heap, count_active_paths}
use multipath_tools.Dmparser.Assemble.{MapTable, groups_of}
use multipath_tools.Configure.{
  Action, act_nothing, act_reload, act_switchpg, act_resize, act_reload_rename, act_impossible,
  act_resize_rename, act_switchpg_rename, MapConf, find_mp_by_wwid, find_mp_by_alias, is_rename,
  is_udev_ready, select_reload_action, force_udev, feature_differs, hwhandler_differs,
  is_retain_undef, other_features, selector_differs, needs_reload, select_for, select_named,
  select_found, select_action,
}
use multipath_tools.Configure.Topology.{IsFoundIn, pgcmp-found}

-- The tests of a chain of conditionals were all false.
if_false : (a b : Bool) → (if a then true else b) ≡ false → (a ≡ false) × (b ≡ false)
if_false true b h = cc
if_false false b h = (refl, h)

eqb-eq : (a b : ℤ) → not (eqb_ℤ a b) ≡ false → a ≡ b
eqb-eq a b h = ground (arith, eq_of_parts a b)

size-eq : (a b : ℕ) → not (a == b) ≡ false → a ≡ b
size-eq a b h = ground arith

needs_reload-false :
    (old_kernel : Bool) (m c : MapTable)
    → needs_reload old_kernel m c ≡ false
    → (hwhandler_differs m c ≡ false)
      × (selector_differs m c ≡ false)
      × (c.minio ≡ m.minio)
      × (pgcmp (groups_of m.mpp.pg) (groups_of c.mpp.pg) ≡ false)
unfolding needs_reload
needs_reload-false k m c h =
    let queue =
      not (eqb_ℤ m.mpp.no_path_retry (pos 0)) && feature_differs (codes "queue_if_no_path") m c in
    let retain =
      not (is_retain_undef m.retain_hwhandler)
      && feature_differs (codes "retain_attached_hw_handler") m c
      && k in
    let others = not (str_eq (other_features m.mpp.features) (other_features c.mpp.features)) in
    let differs = pgcmp (groups_of m.mpp.pg) (groups_of c.mpp.pg) in
    let minio = not (eqb_ℤ c.minio m.minio) in
    let from_minio = if minio then true else differs in
    let from_selector = if selector_differs m c then true else from_minio in
    let from_others = if others then true else from_selector in
    let from_retain = if retain then true else from_others in
    let from_hwhandler = if hwhandler_differs m c then true else from_retain in
    let h1 = (if_false queue from_hwhandler h).1 in
    let (w, h2) = if_false (hwhandler_differs m c) from_retain h1 in
    let h3 = (if_false retain from_others h2).1 in
    let h4 = (if_false others from_selector h3).1 in
    let (s, h5) = if_false (selector_differs m c) from_minio h4 in
    let (z, p) = if_false minio differs h5 in (w, s, eqb-eq c.minio m.minio z, p)

-- An action of the first branch that is not ACT_NOTHING.
pick :
    (a : Bool) (x y : MapConf)
    → x.action ≢ act_nothing
    → (if a then x else y).action ≡ act_nothing
    → (a ≡ false) × (y.action ≡ act_nothing)
pick true x y n h = absurd (n h)
pick false x y n h = (refl, h)

one_of :
    (b : Bool) (x y : Action)
    → x ≢ act_nothing
    → y ≢ act_nothing
    → (if b then x else y) ≢ act_nothing
one_of true x y f g h = f h
one_of false x y f g h = g h

reload-ne-nothing : (m : MapConf) → (select_reload_action m).action ≢ act_nothing
unfolding select_reload_action
reload-ne-nothing m = one_of (is_rename m.action) act_reload_rename act_reload (λ e. cc) (λ e. cc)

select_for-nothing :
    (old_kernel : Bool) (udev : Option (Option Text)) (h : Heap) (force_reload : Bool)
    (m c : MapConf)
    → (select_for old_kernel udev h force_reload m c).action ≡ act_nothing
    → (m.action ≡ act_nothing)
      × (force_reload ≡ false)
      × (c.size ≡ m.size)
      × (needs_reload old_kernel m.table c.table ≡ false)
      × (c.table.mpp.nextpg ≡ m.table.mpp.bestpg)
unfolding select_for select_reload_action
select_for-nothing k udev h force m c e =
    let resized : MapConf = record (force_udev m) {
      action = if is_rename m.action then act_resize_rename else act_resize;
    } in
    let forced = select_reload_action (force_udev m) in
    let switched : MapConf = record m {
      action = if is_rename m.action then act_switchpg_rename else act_switchpg;
    } in
    let next = not (c.table.mpp.nextpg == m.table.mpp.bestpg) in
    let from_next = if next then switched else m in
    let reload = needs_reload k m.table c.table in
    let from_reload = if reload then select_reload_action m else from_next in
    let incomplete = not (is_udev_ready udev) && ltb 0 (count_active_paths h m.table.mpp) in
    let from_udev = if incomplete then forced else from_reload in
    let from_force = if force then forced else from_udev in
    let (s, h1) =
      pick (not (c.size == m.size)) resized from_force
        (one_of (is_rename m.action) act_resize_rename act_resize (λ e. cc) (λ e. cc)) e in
    let (f, h2) = pick force forced from_udev (reload-ne-nothing (force_udev m)) h1 in
    let h3 = (pick incomplete forced from_reload (reload-ne-nothing (force_udev m)) h2).1 in
    let (r, h4) = pick reload (select_reload_action m) from_next (reload-ne-nothing m) h3 in
    let (n, h5) =
      pick next switched m
        (one_of (is_rename m.action) act_switchpg_rename act_switchpg (λ e. cc) (λ e. cc)) h4 in
    (h5, f, size-eq c.size m.size s, r, size-eq c.table.mpp.nextpg m.table.mpp.bestpg n)

named-nothing :
    (m c : MapConf) (i : ℕ) (o : Option (ℕ × MapConf))
    → (select_named m (i, c) o).action ≡ act_nothing
    → (d : MapConf) × (o ≡ some (i, d)) × (select_named m (i, c) o ≡ m)
named-nothing m c i none e = cc
named-nothing m c i (some (j, d)) e = elim (Bool-cases (i == j)) [
  | inl k ↦ (d, ap (λ x. some (x, d)) (sym (==→eq i j k)), rw k refl)
  | inr k ↦ absurd (impossible (i == j) k e)
]
  where
    impossible :
        (b : Bool)
        → b ≡ false
        → (if b then m else record m { alias = c.alias; action = act_impossible }).action
          ≡ act_nothing
        → ⊥
    impossible true k e = cc
    impossible false k e = cc

found_nothing :
    (old_kernel : Bool) (udev : MapConf → Option (Option Text)) (h : Heap) (force_reload : Bool)
    (m : MapConf) (o a : Option (ℕ × MapConf))
    → (select_found old_kernel udev h force_reload m o a).action ≡ act_nothing
    → (i : ℕ) × (c : MapConf) × (d : MapConf) × (o ≡ some (i, c))
      × (a ≡ some (i, d))
      × (force_reload ≡ false)
      × (c.size ≡ m.size)
      × (c.table.minio ≡ m.table.minio)
      × (c.table.mpp.nextpg ≡ m.table.mpp.bestpg)
      × (length (groups_of m.table.mpp.pg) ≡ length (groups_of c.table.mpp.pg))
      × All (IsFoundIn (groups_of c.table.mpp.pg)) (groups_of m.table.mpp.pg)
found_nothing k udev h force m none a e = cc
found_nothing k udev h force m (some (i, c)) a e =
    let m' : MapConf = select_named m (i, c) a in
    let (n, f, s, r, p) = select_for-nothing k (udev c) h force m' c e in
    let (d, b, same) = named-nothing m c i a n in
    let (_, _, z, g) = needs_reload-false k m'.table c.table r in
    let (l, found) = pgcmp-found (groups_of m'.table.mpp.pg) (groups_of c.table.mpp.pg) g in
    (
      i,
      c,
      d,
      refl,
      b,
      f,
      s ∙ ap (λ (x : MapConf). x.size) same,
      z ∙ ap (λ (x : MapConf). x.table.minio) same,
      p ∙ ap (λ (x : MapConf). x.table.mpp.bestpg) same,
      sym (ap (λ (x : MapConf). length (groups_of x.table.mpp.pg)) same) ∙ l,
      subst (λ (x : MapConf). All (IsFoundIn (groups_of c.table.mpp.pg)) (groups_of x.table.mpp.pg))
          same found,
    )

-- Where `select_action` says ACT_NOTHING, the kernel has a map with this WWID and this alias, of the same
-- size, with the same `minio`, whose next group is the best one; it has as many groups, and for every
-- group one of as many paths that has all its paths; and no reload was forced.
pub select_action-nothing :
    (old_kernel : Bool) (udev : MapConf → Option (Option Text)) (h : Heap) (curmp : List MapConf)
    (force_reload : Bool) (m : MapConf)
    → (select_action old_kernel udev h curmp force_reload m).action ≡ act_nothing
    → (i : ℕ) × (c : MapConf) × (d : MapConf) × (find_mp_by_wwid curmp m.wwid ≡ some (i, c))
      × (find_mp_by_alias curmp m.alias ≡ some (i, d))
      × (force_reload ≡ false)
      × (c.size ≡ m.size)
      × (c.table.minio ≡ m.table.minio)
      × (c.table.mpp.nextpg ≡ m.table.mpp.bestpg)
      × (length (groups_of m.table.mpp.pg) ≡ length (groups_of c.table.mpp.pg))
      × All (IsFoundIn (groups_of c.table.mpp.pg)) (groups_of m.table.mpp.pg)
unfolding select_action
select_action-nothing k udev h curmp force m e =
    found_nothing k udev h force (record m { action = act_nothing }) (find_mp_by_wwid curmp m.wwid)
      (find_mp_by_alias curmp m.alias) e
