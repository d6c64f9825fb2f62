-- ===== src/Uevent/Queue.antt =====
-- libmultipath/uevent.c: the loops over the queue.
use multipath_tools.Base.{
  if◌then◌else◌, length, ℕ, zero, suc, ◌+◌, Bool, true, false, not, ◌&&◌, List, [], ◌∷◌, ◌++◌, map,
}
use multipath_tools.Uevent.{
  Event, Uevent, alone, is_dm, uevent_can_filter, merge_need_stop, uevent_can_merge,
}

-- `struct uevent_filter_state`: the events behind `old_tail`, the others, and the counters, which are
-- `unsigned long`; they are reset for every round and count events of one round, so they do not wrap.
pub record FilterState : Type 0 where
  pub fresh : List Uevent
  pub old : List Uevent
  pub added : ℕ
  pub discarded : ℕ
  pub filtered : ℕ
  pub merged : ℕ

-- The loop of `uevent_prepare` over the new events. `need_merge` says whether uid attributes are
-- configured, `discard` and `get_wwid` are the calls for an event.
unfoldable pub prepare_loop :
    Bool → (Event → Bool) → (Event → Event) → List Uevent → List Uevent × ℕ × ℕ
prepare_loop need_merge discard get_wwid [] = ([], 0, 0)
prepare_loop need_merge discard get_wwid (u ∷ us) =
    let (rest, added, discarded) = prepare_loop need_merge discard get_wwid us in
    let u' =
      if not (is_dm u.event) && need_merge then record u { event = get_wwid u.event } else u in
    if discard u.event then (rest, suc added, suc discarded) else (u' ∷ rest, suc added, discarded)

unfoldable pub uevent_prepare : Bool → (Event → Bool) → (Event → Event) → FilterState → FilterState
unfolding prepare_loop
uevent_prepare need_merge discard get_wwid st =
    let (fresh, added, discarded) = prepare_loop need_merge discard get_wwid st.fresh in
    record st { fresh = fresh; added = st.added + added; discarded = st.discarded + discarded }

-- The loop over `merge_node`: what is left of it, and how many were filtered.
unfoldable pub filter_merged : Event → List Event → List Event × ℕ
filter_merged later [] = ([], 0)
filter_merged later (m ∷ ms) =
    let (rest, n) = filter_merged later ms in
    if uevent_can_filter m later then (rest, suc n) else (m ∷ rest, n)

-- The loop of `uevent_filter` where `old_tail` is not met. The events that were merged into a deleted
-- one take its place; the loop goes over them too, but they have passed the test already.
unfoldable pub filter_earlier : Event → List Uevent → List Uevent × ℕ
unfolding filter_merged
filter_earlier later [] = ([], 0)
filter_earlier later (u ∷ us) =
    let (ms, m) = filter_merged later u.merge_node in
    let (rest, n) = filter_earlier later us in
    if uevent_can_filter u.event later
    then (map alone ms ++ rest, suc (m + n))
    else (record u { merge_node = ms } ∷ rest, m + n)

-- The loop from `old_tail` on. If `old_tail` is deleted it moves back first, so that the events that
-- were merged into the deleted one count as new. The parts are those events, the rest, and the count.
unfoldable pub filter_old : Event → List Uevent → List Uevent × List Uevent × ℕ
unfolding filter_merged filter_earlier
filter_old later [] = ([], [], 0)
filter_old later (u ∷ us) =
    let (ms, m) = filter_merged later u.merge_node in
    let (moved, old, n) = filter_old later us in
    let (rest, k) = filter_earlier later us in
    if uevent_can_filter u.event later
    then (map alone ms ++ moved, old, suc (m + n))
    else ([], record u { merge_node = ms } ∷ rest, m + k)

-- `uevent_filter` for one event: the new ones before it, the old ones, and the count.
unfoldable pub uevent_filter : Event → List Uevent → List Uevent → List Uevent × List Uevent × ℕ
unfolding filter_earlier filter_old
uevent_filter later fresh old =
    let (fresh', n) = filter_earlier later fresh in
    let (moved, old', m) = filter_old later old in (fresh' ++ moved, old', n + m)

-- All events of a queue, the merged ones behind the one that they were merged into.
abbrev pub group : Uevent → List Event
group u = u.event ∷ u.merge_node

abbrev pub flat : List Uevent → List Event
flat [] = []
flat (u ∷ us) = group u ++ flat us

-- The first loop of `merge_uevq`. The fuel is the number of events in the queue: every round passes
-- one for good.
unfoldable pub filter_loop : ℕ → List Uevent → List Uevent → List Uevent × List Uevent × ℕ
unfolding uevent_filter
filter_loop zero fresh old = (fresh, old, 0)
filter_loop (suc f) [] old = ([], old, 0)
filter_loop (suc f) (u ∷ us) old =
    let (us', old', n) = uevent_filter u.event us old in
    let (fresh, old'', m) = filter_loop f us' old' in (u ∷ fresh, old'', n + m)

-- `list_move` and `list_splice_init`: `earlier` and what was merged into it go into `later`.
abbrev pub absorb : Uevent → Uevent → Uevent
absorb later earlier = record later {
  merge_node = later.merge_node ++ earlier.event ∷ earlier.merge_node;
}

-- The loop of `uevent_merge` over a part of the queue: the event, the part, the count, and whether the
-- loop was left.
pub record Merged : Type 0 where
  pub later : Uevent
  pub rest : List Uevent
  pub count : ℕ
  pub stopped : Bool

unfoldable pub merge_earlier : Uevent → List Uevent → Merged
merge_earlier later [] = record { later = later; rest = []; count = 0; stopped = false }
merge_earlier later (u ∷ us) =
    let taken = merge_earlier (absorb later u) us in
    let passed = merge_earlier later us in
    if merge_need_stop u.event later.event
    then record { later = later; rest = u ∷ us; count = 0; stopped = true }
    else if uevent_can_merge u.event later.event
    then record taken { count = suc taken.count }
    else record passed { rest = u ∷ passed.rest }

-- `uevent_merge` for one event: the event, the new ones before it, the old ones, and the count. If
-- `old_tail` itself is merged it moves back.
unfoldable pub uevent_merge :
    Uevent → List Uevent → List Uevent → Uevent × List Uevent × List Uevent × ℕ
unfolding merge_earlier
uevent_merge later fresh old =
    let a = merge_earlier later fresh in
    let b = merge_earlier a.later old in
    if a.stopped
    then (a.later, a.rest, old, a.count)
    else (b.later, a.rest, b.rest, a.count + b.count)

-- The second loop of `merge_uevq`. The fuel is the number of new elements.
unfoldable pub merge_all : ℕ → List Uevent → List Uevent → List Uevent × List Uevent × ℕ
unfolding uevent_merge
merge_all zero fresh old = (fresh, old, 0)
merge_all (suc f) [] old = ([], old, 0)
merge_all (suc f) (u ∷ us) old =
    let (u', us', old', n) = uevent_merge u us old in
    let (fresh, old'', m) = merge_all f us' old' in (u' ∷ fresh, old'', n + m)

abbrev pub filter_state : FilterState → List Uevent × List Uevent × ℕ → FilterState
filter_state st (fresh, old, n) = record st { fresh = fresh; old = old; filtered = st.filtered + n }

abbrev pub merge_state : FilterState → List Uevent × List Uevent × ℕ → FilterState
merge_state st (fresh, old, n) = record st { fresh = fresh; old = old; merged = st.merged + n }

unfoldable pub merge_uevq : Bool → (Event → Bool) → (Event → Event) → FilterState → FilterState
merge_uevq need_merge discard get_wwid st =
    let st1 = uevent_prepare need_merge discard get_wwid st in
    let st2 =
      filter_state st1 (filter_loop (length (flat (st1.fresh ++ st1.old))) st1.fresh st1.old) in
    if need_merge then merge_state st2 (merge_all (length st2.fresh) st2.fresh st2.old) else st2
