-- ===== src/Uevent/Round.antt =====
-- libmultipath/uevent.c: one round of `uevent_filter` on all events of the queue, merged or not.
use multipath_tools.Base.{
  Bool-cases, length, length-append, All, ℕ, suc, ◌+◌, ◌≤◌, ◌≡◌, refl, sym, ap, ◌∙◌, inl, inr, true,
  false, List, [], ◌∷◌, ◌++◌, map, append_assoc, arith,
}
use multipath_tools.Uevent.{Event, Uevent, alone, uevent_can_filter}
use multipath_tools.Uevent.Queue.{
  filter_merged, filter_earlier, filter_old, uevent_filter, group, flat,
}

pub flat-append : (us vs : List Uevent) → flat (us ++ vs) ≡ flat us ++ flat vs
flat-append [] vs = refl
flat-append (u ∷ us) vs =
    ap (λ t. group u ++ t) (flat-append us vs) ∙ sym (append_assoc (group u) (flat us) (flat vs))

flat-map : (ms : List Event) → flat (map alone ms) ≡ ms
flat-map [] = refl
flat-map (m ∷ ms) = ap (◌∷◌ m) (flat-map ms)

-- The events that `later` does not filter.
abbrev pub left : Event → List Event → List Event
left later es = (filter_merged later es).0

pub left-cons_in :
    (later x : Event) (xs : List Event)
    → uevent_can_filter x later ≡ true
    → left later (x ∷ xs) ≡ left later xs
unfolding filter_merged
left-cons_in later x xs e = rw (left, e) refl

pub left-cons_out :
    (later x : Event) (xs : List Event)
    → uevent_can_filter x later ≡ false
    → left later (x ∷ xs) ≡ x ∷ left later xs
unfolding filter_merged
left-cons_out later x xs e = rw (left, e) refl

left-append :
    (later : Event) (xs ys : List Event) → left later (xs ++ ys) ≡ left later xs ++ left later ys
unfolding filter_merged
left-append later [] ys = refl
left-append later (x ∷ xs) ys =
    let ih = left-append later xs ys in
    elim (Bool-cases (uevent_can_filter x later)) [
      | inl e ↦ rw (left, e) ih
      | inr e ↦ rw (left, e) (ap (◌∷◌ x) ih)
    ]

pub left-count :
    (later : Event) (xs : List Event)
    → length (left later xs) + (filter_merged later xs).1 ≡ length xs
unfolding filter_merged
left-count later [] = refl
left-count later (x ∷ xs) =
    let ih = left-count later xs in
    elim (Bool-cases (uevent_can_filter x later)) [
      | inl e ↦ rw (left, e) (omega arith)
      | inr e ↦ rw (left, e) (omega arith)
    ]

pub left-All :
    (later : Event) (xs : List Event) → All (λ e. uevent_can_filter e later ≡ false) (left later xs)
unfolding filter_merged
left-All later [] = tt
left-All later (x ∷ xs) =
    let ih = left-All later xs in
    elim (Bool-cases (uevent_can_filter x later)) [
      | inl e ↦ rw (left-cons_in later x xs e) ih
      | inr e ↦ rw (left-cons_out later x xs e) (e, ih)
    ]

flat-filter_earlier :
    (later : Event) (us : List Uevent) → flat (filter_earlier later us).0 ≡ left later (flat us)
unfolding filter_earlier
flat-filter_earlier later [] = refl
flat-filter_earlier later (u ∷ us) =
    let ih = flat-filter_earlier later us in
    let split = left-append later u.merge_node (flat us) in
    elim (Bool-cases (uevent_can_filter u.event later)) [
      | inl e ↦
          rw (left-cons_in later u.event (u.merge_node ++ flat us) e, e, split)
            (flat-append (map alone (left later u.merge_node)) (filter_earlier later us).0
              ∙ ap (λ t. t ++ flat (filter_earlier later us).0) (flat-map (left later u.merge_node))
              ∙ ap (λ t. left later u.merge_node ++ t) ih)
      | inr e ↦
          rw (left-cons_out later u.event (u.merge_node ++ flat us) e, e, split)
            (ap (λ t. u.event ∷ left later u.merge_node ++ t) ih)
    ]

-- Both parts of the old queue together.
flat-filter_old :
    (later : Event) (us : List Uevent)
    → flat (filter_old later us).0 ++ flat (filter_old later us).1 ≡ left later (flat us)
unfolding filter_old
flat-filter_old later [] = refl
flat-filter_old later (u ∷ us) =
    let ih = flat-filter_old later us in
    let split = left-append later u.merge_node (flat us) in
    let r = filter_old later us in
    elim (Bool-cases (uevent_can_filter u.event later)) [
      | inl e ↦
          rw (left-cons_in later u.event (u.merge_node ++ flat us) e, e, split)
            (ap (λ t. t ++ flat r.1)
                (flat-append (map alone (left later u.merge_node)) r.0
                  ∙ ap (λ t. t ++ flat r.0) (flat-map (left later u.merge_node)))
              ∙ append_assoc (left later u.merge_node) (flat r.0) (flat r.1)
              ∙ ap (λ t. left later u.merge_node ++ t) ih)
      | inr e ↦
          rw (left-cons_out later u.event (u.merge_node ++ flat us) e, e, split)
            (ap (λ t. u.event ∷ left later u.merge_node ++ t) (flat-filter_earlier later us))
    ]

-- How many events `later` filters.
abbrev gone : Event → List Event → ℕ
gone later es = (filter_merged later es).1

gone-append :
    (later : Event) (xs ys : List Event) → gone later (xs ++ ys) ≡ gone later xs + gone later ys
unfolding filter_merged
gone-append later [] ys = omega arith
gone-append later (x ∷ xs) ys =
    let ih = gone-append later xs ys in
    elim (Bool-cases (uevent_can_filter x later)) [
      | inl e ↦ rw (gone, e) (omega arith)
      | inr e ↦ rw (gone, e) ih
    ]

gone-filter_earlier :
    (later : Event) (us : List Uevent) → (filter_earlier later us).1 ≡ gone later (flat us)
unfolding filter_earlier filter_merged
gone-filter_earlier later [] = refl
gone-filter_earlier later (u ∷ us) =
    let ih = gone-filter_earlier later us in
    let split = gone-append later u.merge_node (flat us) in
    elim (Bool-cases (uevent_can_filter u.event later)) [
      | inl e ↦ rw (gone, e) (omega arith)
      | inr e ↦ rw (gone, e) (omega arith)
    ]

gone-filter_old :
    (later : Event) (us : List Uevent) → (filter_old later us).2 ≡ gone later (flat us)
unfolding filter_old filter_merged
gone-filter_old later [] = refl
gone-filter_old later (u ∷ us) =
    let ih = gone-filter_old later us in
    let split = gone-append later u.merge_node (flat us) in
    let k = gone-filter_earlier later us in
    elim (Bool-cases (uevent_can_filter u.event later)) [
      | inl e ↦ rw (gone, e) (omega arith)
      | inr e ↦ rw (gone, e) (omega arith)
    ]

-- One round leaves what `later` does not filter, and counts the others.
pub uevent_filter-flat :
    (later : Event) (fresh old : List Uevent)
    → let (fresh', old', n) = uevent_filter later fresh old in
      (flat (fresh' ++ old') ≡ left later (flat (fresh ++ old)))
      × (n ≡ gone later (flat (fresh ++ old)))
unfolding uevent_filter
uevent_filter-flat later fresh old =
    let a = filter_earlier later fresh in
    let b = filter_old later old in
    let h = flat-filter_earlier later fresh in
    let k = flat-filter_old later old in
    let g = gone-filter_earlier later fresh in
    let l = gone-filter_old later old in
    let m = gone-append later (flat fresh) (flat old) in
    (
      rw
          (
            flat-append (a.0 ++ b.0) b.1,
            flat-append a.0 b.0,
            flat-append fresh old,
            left-append later (flat fresh) (flat old),
            h,
            ← k,
          )
          (append_assoc (left later (flat fresh)) (flat b.0) (flat b.1)),
      rw (flat-append fresh old) (omega arith),
    )

-- A round makes the queue of the new events behind `u` and the old ones no longer.
pub uevent_filter_shrinks :
    (f : ℕ) (u : Uevent) (us old : List Uevent)
    → length (flat (u ∷ us ++ old)) ≤ suc f
    → length (flat ((uevent_filter u.event us old).0 ++ (uevent_filter u.event us old).1)) ≤ f
uevent_filter_shrinks f u us old h =
    let n = left-count u.event (flat (us ++ old)) in
    let l = length-append u.merge_node (flat (us ++ old)) in
    rw ((uevent_filter-flat u.event us old).0) (omega arith)
