-- ===== src/Uevent/Filtered.antt =====
-- libmultipath/uevent.c: what the filter loop removes from the queue, and what it leaves.
use multipath_tools.Base.{
  Bool-cases, length, length-append, any, All, ℕ, zero, suc, ◌+◌, ◌≤◌, ◌≡◌, refl, sym, ap, subst,
  inl, inr, Bool, true, false, ◌||◌, List, [], ◌∷◌, ◌++◌, arith,
}
use multipath_tools.Uevent.{Event, Uevent, uevent_can_filter}
use multipath_tools.Uevent.Queue.{filter_merged, uevent_filter, group, flat, filter_loop}
use multipath_tools.Uevent.Round.{
  left, left-cons_in, left-cons_out, left-count, left-All, uevent_filter-flat,
  uevent_filter_shrinks,
}

-- The queue before and after, newest events first, given the newer events that stay. An event is left
-- out only where one of those filters it.
pub data Filtered : List Event → List Event → List Event → Type 0 where
  done : {newer : List Event} → Filtered newer [] []
  keep :
      {newer : List Event} {e : Event} {xs ys : List Event}
      → Filtered (e ∷ newer) xs ys
      → Filtered newer (e ∷ xs) (e ∷ ys)
  leave_out :
      {newer : List Event} {e : Event} {xs ys : List Event}
      → any (uevent_can_filter e) newer ≡ true
      → Filtered newer xs ys
      → Filtered newer (e ∷ xs) ys

-- No new event filters any event behind it.
abbrev pub IsSettled : List Uevent → List Uevent → Type 0
IsSettled [] old = Unit
IsSettled (u ∷ us) old =
    All (λ e. uevent_can_filter e u.event ≡ false) (flat (us ++ old)) × IsSettled us old

-- What `later` can filter, some event of `newer` can.
abbrev Covers : List Event → Event → Type 0
Covers newer later =
    (e : Event) → uevent_can_filter e later ≡ true → any (uevent_can_filter e) newer ≡ true

or_right : (a b : Bool) → b ≡ true → (a || b) ≡ true
or_right true b h = refl
or_right false b h = h

Covers-cons : (newer : List Event) (later e : Event) → Covers newer later → Covers (e ∷ newer) later
Covers-cons newer later e h x k =
    or_right (uevent_can_filter x e) (any (uevent_can_filter x) newer) (h x k)

Covers-here : (newer : List Event) (later : Event) → Covers (later ∷ newer) later
Covers-here newer later x k = rw k refl

-- The case of an event that stays, or not, for a reason of its own.
Filtered-cons :
    {newer : List Event} {e : Event} {zs xs out : List Event} (later : Event)
    → ((nw : List Event) (out' : List Event)
        → Covers nw later
        → Filtered nw zs out'
        → Filtered nw xs out')
    → Covers newer later
    → Filtered newer (e ∷ zs) out
    → Filtered newer (e ∷ xs) out
Filtered-cons later ih c (keep {newer} {e} {xs} {ys} h) =
    keep (ih (e ∷ newer) ys (Covers-cons newer later e c) h)
Filtered-cons later ih c (leave_out {newer} {e} {xs} {ys} a h) = leave_out a (ih newer ys c h)

Filtered-left :
    (later : Event) (xs newer out : List Event)
    → Covers newer later
    → Filtered newer (left later xs) out
    → Filtered newer xs out
unfolding filter_merged
Filtered-left later [] newer out c h = h
Filtered-left later (x ∷ xs) newer out c h = elim (Bool-cases (uevent_can_filter x later)) [
  | inl e ↦ leave_out (c x e) (
      Filtered-left later xs newer out c
        (subst (λ t. Filtered newer t out) (left-cons_in later x xs e) h))
  | inr e ↦
      Filtered-cons later (Filtered-left later xs) c
        (subst (λ t. Filtered newer t out) (left-cons_out later x xs e) h)
]

-- The events merged into one that stays stay with it.
Filtered-append :
    (later : Event) (ms xs ys newer : List Event)
    → Covers newer later
    → ((nw : List Event) → Covers nw later → Filtered nw xs ys)
    → Filtered newer (ms ++ xs) (ms ++ ys)
Filtered-append later [] xs ys newer c h = h newer c
Filtered-append later (m ∷ ms) xs ys newer c h =
    keep (Filtered-append later ms xs ys (m ∷ newer) (Covers-cons newer later m c) h)

Filtered-refl : (xs newer : List Event) → Filtered newer xs xs
Filtered-refl [] newer = done
Filtered-refl (x ∷ xs) newer = keep (Filtered-refl xs (x ∷ newer))

-- What holds for all events before holds for all after.
Filtered-All :
    (P : Event → Type 0) {newer xs ys : List Event} → Filtered newer xs ys → All P xs → All P ys
Filtered-All P done h = tt
Filtered-All P (keep d) (p, h) = (p, Filtered-All P d h)
Filtered-All P (leave_out a d) (p, h) = Filtered-All P d h

-- One round, followed by a run of the loop.
Filtered-round :
    (u : Uevent) (us old us' old' : List Uevent) (newer out : List Event)
    → flat (us' ++ old') ≡ left u.event (flat (us ++ old))
    → ((nw : List Event) → Filtered nw (flat (us' ++ old')) out)
    → Filtered newer (flat (u ∷ us ++ old)) (group u ++ out)
Filtered-round u us old us' old' newer out e h = keep (
    Filtered-append u.event u.merge_node (flat (us ++ old)) out (u.event ∷ newer)
      (Covers-here newer u.event)
      (λ nw c.
        Filtered-left u.event (flat (us ++ old)) nw out c
          (subst (λ t. Filtered nw t out) e (h nw))))

filter_loop-Filtered :
    (f : ℕ) (fresh old : List Uevent) (newer : List Event)
    → length (flat (fresh ++ old)) ≤ f
    → Filtered newer
        (flat (fresh ++ old))
        (flat ((filter_loop f fresh old).0 ++ (filter_loop f fresh old).1))
unfolding filter_loop
filter_loop-Filtered zero [] old newer h = Filtered-refl (flat old) newer
filter_loop-Filtered zero (u ∷ us) old newer h = absurd (omega arith)
filter_loop-Filtered (suc f) [] old newer h = Filtered-refl (flat old) newer
filter_loop-Filtered (suc f) (u ∷ us) old newer h =
    let r = uevent_filter u.event us old in
    let s = filter_loop f r.0 r.1 in
    let (e, n) = uevent_filter-flat u.event us old in
    Filtered-round u us old r.0 r.1 newer (flat (s.0 ++ s.1)) e
      (λ nw. filter_loop-Filtered f r.0 r.1 nw (uevent_filter_shrinks f u us old h))

filter_loop-IsSettled :
    (f : ℕ) (fresh old : List Uevent)
    → length (flat (fresh ++ old)) ≤ f
    → IsSettled (filter_loop f fresh old).0 (filter_loop f fresh old).1
unfolding filter_loop
filter_loop-IsSettled zero [] old h = tt
filter_loop-IsSettled zero (u ∷ us) old h = absurd (omega arith)
filter_loop-IsSettled (suc f) [] old h = tt
filter_loop-IsSettled (suc f) (u ∷ us) old h =
    let r = uevent_filter u.event us old in
    let (e, n) = uevent_filter-flat u.event us old in
    let P : Event → Type 0 = λ x. uevent_can_filter x u.event ≡ false in
    (
      Filtered-All P (filter_loop-Filtered f r.0 r.1 [] (uevent_filter_shrinks f u us old h))
          (subst (All P) (sym e) (left-All u.event (flat (us ++ old)))),
      filter_loop-IsSettled f r.0 r.1 (uevent_filter_shrinks f u us old h),
    )

filter_loop_counts :
    (f : ℕ) (fresh old : List Uevent)
    → length (flat ((filter_loop f fresh old).0 ++ (filter_loop f fresh old).1))
        + (filter_loop f fresh old).2
      ≡ length (flat (fresh ++ old))
unfolding filter_loop
filter_loop_counts zero fresh old = omega arith
filter_loop_counts (suc f) [] old = omega arith
filter_loop_counts (suc f) (u ∷ us) old =
    let r = uevent_filter u.event us old in
    let s = filter_loop f r.0 r.1 in
    let (e, n) = uevent_filter-flat u.event us old in
    let c = left-count u.event (flat (us ++ old)) in
    let l = length-append u.merge_node (flat (us ++ old)) in
    let l' = length-append u.merge_node (flat (s.0 ++ s.1)) in
    let k = filter_loop_counts f r.0 r.1 in let d = ap length e in omega arith

-- The filter loop of `merge_uevq`, on any queue of new and old events: an event is left out only if a
-- newer event that stays in the queue filters it; the events that stay, merged ones included, keep
-- their order; no new event could filter another one behind it; and the count is the number of events
-- left out.
pub filter_loop_filters :
    (fresh old : List Uevent)
    → let before = flat (fresh ++ old) in
      let (fresh', old', n) = filter_loop (length before) fresh old in
      Filtered [] before (flat (fresh' ++ old'))
      × IsSettled fresh' old'
      × (length (flat (fresh' ++ old')) + n ≡ length before)
filter_loop_filters fresh old =
    let f = length (flat (fresh ++ old)) in
    (
      filter_loop-Filtered f fresh old [] (omega arith),
      filter_loop-IsSettled f fresh old (omega arith),
      filter_loop_counts f fresh old,
    )
