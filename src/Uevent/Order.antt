-- ===== src/Uevent/Order.antt =====
-- libmultipath/uevent.c: the merge loop for one event.
use multipath_tools.Base.{
  if◌then◌else◌, Bool-cases, suc, ◌+◌, ◌≡◌, refl, ap, ◌∙◌, ◌⊎◌, inl, inr, true, false, List, [],
  ◌∷◌, ◌++◌, arith,
}
use multipath_tools.Uevent.{Event, Uevent, merge_need_stop, uevent_can_merge}
use multipath_tools.Uevent.Queue.{absorb, Merged, merge_earlier, uevent_merge}

merge_earlier-stop :
    (l u : Uevent) (us : List Uevent)
    → merge_need_stop u.event l.event ≡ true
    → merge_earlier l (u ∷ us) ≡ record { later = l; rest = u ∷ us; count = 0; stopped = true }
unfolding merge_earlier
merge_earlier-stop l u us e = rw (merge_earlier, e) refl

merge_earlier-take :
    (l u : Uevent) (us : List Uevent)
    → merge_need_stop u.event l.event ≡ false
    → uevent_can_merge u.event l.event ≡ true
    → merge_earlier l (u ∷ us)
      ≡ (let r = merge_earlier (absorb l u) us in record r { count = suc r.count })
unfolding merge_earlier
merge_earlier-take l u us e c = rw (merge_earlier, e, c) refl

merge_earlier-pass :
    (l u : Uevent) (us : List Uevent)
    → merge_need_stop u.event l.event ≡ false
    → uevent_can_merge u.event l.event ≡ false
    → merge_earlier l (u ∷ us) ≡ (let r = merge_earlier l us in record r { rest = u ∷ r.rest })
unfolding merge_earlier
merge_earlier-pass l u us e c = rw (merge_earlier, e, c) refl

-- Induction over `merge_earlier`: the end of the part, an event that stops the loop, one that is
-- merged, and one that is passed.
module _ (P : Uevent → List Uevent → Merged → Type 0)
    (at_end : (l : Uevent) → P l [] (record { later = l; rest = []; count = 0; stopped = false }))
    (stop : (l u : Uevent) (us : List Uevent)
      → merge_need_stop u.event l.event ≡ true
      → P l (u ∷ us) (record { later = l; rest = u ∷ us; count = 0; stopped = true }))
    (take_in : (l u : Uevent) (us : List Uevent) (r : Merged)
      → merge_need_stop u.event l.event ≡ false
      → uevent_can_merge u.event l.event ≡ true
      → P (absorb l u) us r
      → P l (u ∷ us) (record r { count = suc r.count }))
    (pass : (l u : Uevent) (us : List Uevent) (r : Merged)
      → merge_need_stop u.event l.event ≡ false
      → uevent_can_merge u.event l.event ≡ false
      → P l us r
      → P l (u ∷ us) (record r { rest = u ∷ r.rest })) where
  pub merge_earlier-induction : (us : List Uevent) (l : Uevent) → P l us (merge_earlier l us)
  unfolding merge_earlier
  merge_earlier-induction [] l = at_end l
  merge_earlier-induction (u ∷ us) l =
      let taken = merge_earlier-induction us (absorb l u) in
      let passed = merge_earlier-induction us l in
      elim (Bool-cases (merge_need_stop u.event l.event)) [
        | inl e ↦ rw e (stop l u us e)
        | inr e ↦ elim (Bool-cases (uevent_can_merge u.event l.event)) [
          | inl c ↦ rw (e, c) (take_in l u us (merge_earlier (absorb l u) us) e c taken)
          | inr c ↦ rw (e, c) (pass l u us (merge_earlier l us) e c passed)
        ]
      ]

-- `later` stays the event that it is.
pub merge_earlier_event :
    (us : List Uevent) (l : Uevent) → (merge_earlier l us).later.event ≡ l.event
merge_earlier_event =
    merge_earlier-induction (λ l us r. r.later.event ≡ l.event) (λ l. refl) (λ l u us e. refl)
      (λ l u us r e c h. h) (λ l u us r e c h. h)

-- No event up to the first that stops the loop could be merged into `later`.
abbrev pub IsExhausted : Event → List Uevent → Type 0
IsExhausted later [] = Unit
IsExhausted later (u ∷ us) =
    (merge_need_stop u.event later ≡ true)
    ⊎ ((uevent_can_merge u.event later ≡ false) × IsExhausted later us)

pub merge_earlier-IsExhausted :
    (us : List Uevent) (l : Uevent) → IsExhausted l.event (merge_earlier l us).rest
merge_earlier-IsExhausted =
    merge_earlier-induction (λ l us r. IsExhausted l.event r.rest) (λ l. tt) (λ l u us e. inl e)
      (λ l u us r e c h. h) (λ l u us r e c h. inr (c, h))

-- The queue in two parts, as one.
abbrev over_both : List Uevent → Merged → Merged
over_both old a =
    let b = merge_earlier a.later old in
    if a.stopped
    then record a { rest = a.rest ++ old }
    else record b { rest = a.rest ++ b.rest; count = a.count + b.count }

over_both-suc :
    (old : List Uevent) (r : Merged)
    → (let o = over_both old r in record o { count = suc o.count })
      ≡ over_both old (record r { count = suc r.count })
over_both-suc old r = elim (Bool-cases r.stopped) [
  | inl e ↦ rw e refl
  | inr e ↦
      let b = merge_earlier r.later old in
      let h : suc (r.count + b.count) ≡ suc r.count + b.count = omega arith in rw (e, h) refl
]

over_both-cons :
    (old : List Uevent) (u : Uevent) (r : Merged)
    → (let o = over_both old r in record o { rest = u ∷ o.rest })
      ≡ over_both old (record r { rest = u ∷ r.rest })
over_both-cons old u r = elim (Bool-cases r.stopped) [ inl e ↦ rw e refl | inr e ↦ rw e refl ]

merge_earlier-append :
    (old us : List Uevent) (l : Uevent)
    → merge_earlier l (us ++ old) ≡ over_both old (merge_earlier l us)
merge_earlier-append old =
    merge_earlier-induction (λ l us a. merge_earlier l (us ++ old) ≡ over_both old a)
      (λ l. let b = merge_earlier l old in let h : 0 + b.count ≡ b.count = omega arith in rw h refl)
      (λ l u us e. merge_earlier-stop l u (us ++ old) e)
      (λ l u us r e c h.
        merge_earlier-take l u (us ++ old) e c
        ∙ ap {A = Merged} (λ o. record o { count = suc o.count }) h
        ∙ over_both-suc old r)
      (λ l u us r e c h.
        merge_earlier-pass l u (us ++ old) e c
        ∙ ap {A = Merged} (λ o. record o { rest = u ∷ o.rest }) h
        ∙ over_both-cons old u r)

-- `uevent_merge` on the two parts of the queue.
pub uevent_merge-both :
    (u : Uevent) (us old : List Uevent)
    → let r = merge_earlier u (us ++ old) in
      let (u', us', old', n) = uevent_merge u us old in
      (u' ≡ r.later) × (us' ++ old' ≡ r.rest) × (n ≡ r.count)
unfolding uevent_merge
uevent_merge-both u us old =
    let e = merge_earlier-append old us u in
    elim (Bool-cases (merge_earlier u us).stopped) [
      | inl c ↦ rw (e, c) (refl, refl, refl)
      | inr c ↦ rw (e, c) (refl, refl, refl)
    ]
