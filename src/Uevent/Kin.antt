-- ===== src/Uevent/Kin.antt =====
-- libmultipath/uevent.c: the events about one LUN, and which of them are merged into another.
use multipath_tools.Base.{
  if◌then◌else◌, Bool-cases, All, ◌≡◌, refl, ap, ◌⊎◌, inl, inr, Bool, true, false, not, ◌&&◌, ◌||◌,
  Option, none, some, List, [], ◌∷◌, ◌++◌, arith,
}
use multipath_tools.Base.Text.{Text, codes, str_eq, str_eq→eq, str_eq_refl}
use multipath_tools.Uevent.{Event, Uevent, is_dm, same_wwid, merge_need_stop, uevent_can_merge}

-- Does the event add or remove a path of this LUN?
abbrev pub concerns : Text → Event → Bool
concerns w e =
    not (is_dm e)
    && (str_eq e.action (codes "add") || str_eq e.action (codes "remove"))
    && same_wwid e.wwid (some w)

-- The events of a queue that do.
abbrev pub about : Text → List Event → List Event
about w [] = []
about w (e ∷ es) = if concerns w e then e ∷ about w es else about w es

-- What is merged into an event is of its kind.
abbrev pub IsKin : Event → Event → Type 0
IsKin e m = (m.wwid ≡ e.wwid) × (m.action ≡ e.action) × (is_dm m ≡ is_dm e)

abbrev pub IsUniform : Uevent → Type 0
IsUniform u = All (IsKin u.event) u.merge_node

pub about-append : (w : Text) (xs ys : List Event) → about w (xs ++ ys) ≡ about w xs ++ about w ys
about-append w [] ys = refl
about-append w (x ∷ xs) ys =
    let ih = about-append w xs ys in
    elim (Bool-cases (concerns w x)) [
      | inl e ↦ rw (about, e) (ap (◌∷◌ x) ih)
      | inr e ↦ rw (about, e) ih
    ]

pub about-kin :
    (w : Text) (e : Event) (ms : List Event)
    → concerns w e ≡ false
    → All (IsKin e) ms
    → about w ms ≡ []
about-kin w e [] c h = refl
about-kin w e (m ∷ ms) c ((hw, ha, hd), h) =
    let k : concerns w m ≡ false = rw (hd, ha, hw) c in rw (about, k) (about-kin w e ms c h)

same_wwid→eq : (o : Option Text) (w : Text) → same_wwid o (some w) ≡ true → o ≡ some w
same_wwid→eq none w h = cc
same_wwid→eq (some s) w h = ap some (str_eq→eq s w h)

pub and_true : (a b : Bool) → (a && b) ≡ true → (a ≡ true) × (b ≡ true)
and_true true true h = (refl, refl)
and_true true false h = cc
and_true false b h = cc

action_cases :
    (a : Text)
    → (str_eq a (codes "add") || str_eq a (codes "remove")) ≡ true
    → (a ≡ codes "add") ⊎ (a ≡ codes "remove")
action_cases a h = elim (Bool-cases (str_eq a (codes "add"))) [
  | inl e ↦ inl (str_eq→eq a (codes "add") e)
  | inr e ↦ inr (str_eq→eq a (codes "remove") (rw e at h))
]

pub not-true : (b : Bool) → not b ≡ true → b ≡ false
not-true b h = ground arith

concerns_parts :
    (w : Text) (e : Event)
    → concerns w e ≡ true
    → (is_dm e ≡ false)
      × (e.wwid ≡ some w)
      × ((e.action ≡ codes "add") ⊎ (e.action ≡ codes "remove"))
concerns_parts w e h =
    let act = str_eq e.action (codes "add") || str_eq e.action (codes "remove") in
    let (r, k) = and_true (not (is_dm e) && act) (same_wwid e.wwid (some w)) h in
    let (d, a) = and_true (not (is_dm e)) act r in
    (not-true (is_dm e) d, same_wwid→eq e.wwid w k, action_cases e.action a)

-- Two events about one LUN are merged, or stop the loop.
merge_or_stop :
    (w : Text) (u l : Event)
    → concerns w u ≡ true
    → concerns w l ≡ true
    → (merge_need_stop u l || uevent_can_merge u l) ≡ true
unfolding merge_need_stop uevent_can_merge str_eq
merge_or_stop w u l cu cl =
    let (du, wu, au) = concerns_parts w u cu in
    let (dl, wl, al) = concerns_parts w l cl in
    let s = str_eq_refl w in
    elim au [
      | inl a ↦ elim al [
        | inl b ↦ rw (du, dl, wu, wl, a, b, s) refl
        | inr b ↦ rw (du, dl, wu, wl, a, b, s) refl
      ]
      | inr a ↦ elim al [
        | inl b ↦ rw (du, dl, wu, wl, a, b, s) refl
        | inr b ↦ rw (du, dl, wu, wl, a, b, s) refl
      ]
    ]

-- An event that is passed and one that takes others in are not about the same LUN.
pub passed :
    (w : Text) (u l : Event)
    → merge_need_stop u l ≡ false
    → uevent_can_merge u l ≡ false
    → concerns w l ≡ true
    → concerns w u ≡ false
passed w u l e c h = elim (Bool-cases (concerns w u)) [
  | inl k ↦ let m = merge_or_stop w u l k h in absurd (ground arith)
  | inr k ↦ k
]
