-- ===== src/Uevent/Uniform.antt =====
-- libmultipath/uevent.c: the elements of the queue stay of one kind in a round of `merge_uevq`.
use multipath_tools.Uevent.Kin.{IsKin, IsUniform}
use multipath_tools.Base.{
  Bool-cases, length, All, All-append, ℕ, zero, suc, ◌≡◌, inl, inr, Bool, true, false, not, ◌&&◌,
  List, [], ◌∷◌, ◌++◌, map,
}
use multipath_tools.Uevent.{Event, Uevent, alone, is_dm, uevent_can_filter}
use multipath_tools.Uevent.Queue.{
  FilterState, prepare_loop, uevent_prepare, filter_merged, filter_earlier, filter_old,
  uevent_filter, flat, filter_loop, merge_uevq,
}
use multipath_tools.Uevent.Merging.{merge_all_keeps}

filter_merged-All :
    (P : Event → Type 0) (later : Event) (ms : List Event)
    → All P ms
    → All P (filter_merged later ms).0
unfolding filter_merged
filter_merged-All P later [] h = tt
filter_merged-All P later (m ∷ ms) (p, h) =
    let ih = filter_merged-All P later ms h in
    elim (Bool-cases (uevent_can_filter m later)) [ inl e ↦ rw e ih | inr e ↦ rw e (p, ih) ]

alone-IsUniform : (ms : List Event) → All IsUniform (map alone ms)
alone-IsUniform [] = tt
alone-IsUniform (m ∷ ms) = (tt, alone-IsUniform ms)

cut-IsUniform :
    (later : Event) (u : Uevent)
    → IsUniform u
    → IsUniform (record u { merge_node = (filter_merged later u.merge_node).0 })
cut-IsUniform later u h = filter_merged-All (IsKin u.event) later u.merge_node h

filter_earlier-IsUniform :
    (later : Event) (us : List Uevent)
    → All IsUniform us
    → All IsUniform (filter_earlier later us).0
unfolding filter_earlier
filter_earlier-IsUniform later [] h = tt
filter_earlier-IsUniform later (u ∷ us) (p, h) =
    let ih = filter_earlier-IsUniform later us h in
    let ms = (filter_merged later u.merge_node).0 in
    elim (Bool-cases (uevent_can_filter u.event later)) [
      | inl e ↦
          rw e (
            All-append IsUniform (map alone ms) (filter_earlier later us).0 (alone-IsUniform ms) ih)
      | inr e ↦ rw e (cut-IsUniform later u p, ih)
    ]

filter_old-IsUniform :
    (later : Event) (us : List Uevent)
    → All IsUniform us
    → All IsUniform (filter_old later us).0 × All IsUniform (filter_old later us).1
unfolding filter_old
filter_old-IsUniform later [] h = (tt, tt)
filter_old-IsUniform later (u ∷ us) (p, h) =
    let (i, j) = filter_old-IsUniform later us h in
    let ms = (filter_merged later u.merge_node).0 in
    elim (Bool-cases (uevent_can_filter u.event later)) [
      | inl e ↦
          rw e
            (All-append IsUniform (map alone ms) (filter_old later us).0 (alone-IsUniform ms) i, j)
      | inr e ↦ rw e (tt, (cut-IsUniform later u p, filter_earlier-IsUniform later us h))
    ]

filter_loop-IsUniform :
    (f : ℕ) (fresh old : List Uevent)
    → All IsUniform fresh
    → All IsUniform old
    → All IsUniform (filter_loop f fresh old).0 × All IsUniform (filter_loop f fresh old).1
unfolding filter_loop uevent_filter
filter_loop-IsUniform zero fresh old h k = (h, k)
filter_loop-IsUniform (suc f) [] old h k = (tt, k)
filter_loop-IsUniform (suc f) (u ∷ us) old (p, h) k =
    let a = filter_earlier u.event us in
    let b = filter_old u.event old in
    let (i, j) = filter_old-IsUniform u.event old k in
    let (x, y) =
      filter_loop-IsUniform f (a.0 ++ b.0) b.1
        (All-append IsUniform a.0 b.0 (filter_earlier-IsUniform u.event us h) i) j in
    ((p, x), y)

-- An event into which none was merged.
abbrev pub IsAlone : Uevent → Type 0
IsAlone u = u.merge_node ≡ []

prepare_loop-IsUniform :
    (need_merge : Bool) (discard : Event → Bool) (get_wwid : Event → Event) (us : List Uevent)
    → All IsAlone us
    → All IsUniform (prepare_loop need_merge discard get_wwid us).0
unfolding prepare_loop
prepare_loop-IsUniform need_merge discard get_wwid [] h = tt
prepare_loop-IsUniform need_merge discard get_wwid (u ∷ us) (p, h) =
    let ih = prepare_loop-IsUniform need_merge discard get_wwid us h in
    elim (Bool-cases (discard u.event)) [
      | inl e ↦ rw e ih
      | inr e ↦ rw e (elim (Bool-cases (not (is_dm u.event) && need_merge)) [
        | inl c ↦ rw (c, p) (tt, ih)
        | inr c ↦ rw (c, p) (tt, ih)
      ])
    ]

filtered-IsUniform :
    (need_merge : Bool) (discard : Event → Bool) (get_wwid : Event → Event) (st : FilterState)
    → All IsAlone st.fresh
    → All IsUniform st.old
    → let p = prepare_loop need_merge discard get_wwid st.fresh in
      let (fresh, old, n) = filter_loop (length (flat (p.0 ++ st.old))) p.0 st.old in
      All IsUniform (fresh ++ old)
filtered-IsUniform need_merge discard get_wwid st h k =
    let p = prepare_loop need_merge discard get_wwid st.fresh in
    let f = length (flat (p.0 ++ st.old)) in
    let r = filter_loop f p.0 st.old in
    let (x, y) =
      filter_loop-IsUniform f p.0 st.old
        (prepare_loop-IsUniform need_merge discard get_wwid st.fresh h) k in
    All-append IsUniform r.0 r.1 x y

-- `merge_uevq`, whatever is discarded and whatever WWIDs are found: if nothing has been merged into the
-- new events yet, and what was merged into the old ones has their action and LUN, that holds for the
-- whole queue afterwards.
pub merge_uevq-IsUniform :
    (need_merge : Bool) (discard : Event → Bool) (get_wwid : Event → Event) (st : FilterState)
    → All IsAlone st.fresh
    → All IsUniform st.old
    → let st' = merge_uevq need_merge discard get_wwid st in All IsUniform (st'.fresh ++ st'.old)
unfolding merge_uevq uevent_prepare
merge_uevq-IsUniform true discard get_wwid st h k =
    let p = prepare_loop true discard get_wwid st.fresh in
    let r = filter_loop (length (flat (p.0 ++ st.old))) p.0 st.old in
    (merge_all_keeps r.0 r.1 (filtered-IsUniform true discard get_wwid st h k)).uniform
merge_uevq-IsUniform false discard get_wwid st h k =
    filtered-IsUniform false discard get_wwid st h k
