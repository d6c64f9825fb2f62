-- ===== src/Uevent/Merging.antt =====
-- libmultipath/uevent.c: the second loop of `merge_uevq`, and the whole of it.
use multipath_tools.Uevent.Kin.{about, IsUniform}
use mathlib.Core.List.Perm
use multipath_tools.Base.{
  length, All, ℕ, zero, suc, ◌+◌, ◌≡◌, refl, sym, ap, ◌∙◌, List, [], ◌∷◌, ◌++◌, arith,
}
use multipath_tools.Uevent.{Uevent}
use multipath_tools.Uevent.Queue.{group, uevent_merge, merge_all}
use multipath_tools.Uevent.Order.{
  merge_earlier_event, IsExhausted, merge_earlier-IsExhausted, uevent_merge-both,
}
use multipath_tools.Uevent.Kept.{Kept, Kept-refl, about_two, merge_earlier-Keeps}

uevent_merge-Kept :
    (u : Uevent) (us old : List Uevent)
    → All IsUniform (u ∷ us ++ old)
    → let (u', us', old', n) = uevent_merge u us old in Kept (u ∷ us ++ old) (u' ∷ us' ++ old') n
uevent_merge-Kept u us old h =
    let (v, k) = merge_earlier-Keeps (us ++ old) u h in
    let (a, b, c) = uevent_merge-both u us old in rw (a, b, c) k

Kept-cons :
    {before after : List Uevent} {n : ℕ} (u : Uevent)
    → IsUniform u
    → Kept before after n
    → Kept (u ∷ before) (u ∷ after) n
Kept-cons {before} {after} {n} u h k = record {
  uniform = (h, k.uniform);
  order = λ w.
      about_two w u after
      ∙ ap (λ t. about w (group u) ++ t) (k.order w)
      ∙ sym (about_two w u before);
  perm = Perm.append_left (group u) k.perm;
  count = let c = k.count in omega arith;
}

Kept-trans : {a b c : List Uevent} {m n : ℕ} → Kept a b m → Kept b c n → Kept a c (m + n)
Kept-trans k l = record {
  uniform = l.uniform;
  order = λ w. l.order w ∙ k.order w;
  perm = Perm.trans l.perm k.perm;
  count = let c = k.count in let d = l.count in omega arith;
}

merge_all-Kept :
    (f : ℕ) (fresh old : List Uevent)
    → All IsUniform (fresh ++ old)
    → let (fresh', old', n) = merge_all f fresh old in Kept (fresh ++ old) (fresh' ++ old') n
unfolding merge_all
merge_all-Kept zero fresh old h = Kept-refl (fresh ++ old) h
merge_all-Kept (suc f) [] old h = Kept-refl old h
merge_all-Kept (suc f) (u ∷ us) old h =
    let r = uevent_merge u us old in
    let k = uevent_merge-Kept u us old h in
    Kept-trans k (Kept-cons r.0 k.uniform.0 (merge_all-Kept f r.1 r.2 k.uniform.1))

-- The merge loop of `merge_uevq`, on any queue of new and old events where what is merged into an
-- event has its action and its LUN: it is such a queue again; it has the same events, merged ones
-- included; for every LUN, the events that add or remove a path of it keep their order; and the
-- counter gives by how many elements the queue is shorter.
pub merge_all_keeps :
    (fresh old : List Uevent)
    → All IsUniform (fresh ++ old)
    → let (fresh', old', n) = merge_all (length fresh) fresh old in
      Kept (fresh ++ old) (fresh' ++ old') n
merge_all_keeps fresh old h = merge_all-Kept (length fresh) fresh old h

-- `uevent_merge` for one event, on any queue: none of the events before it, up to the first that must
-- not be passed, could still be merged into it; and it is still the event that it was.
pub uevent_merge_exhausts :
    (u : Uevent) (us old : List Uevent)
    → let (u', us', old', n) = uevent_merge u us old in
      (u'.event ≡ u.event) × IsExhausted u'.event (us' ++ old')
uevent_merge_exhausts u us old =
    let (a, b, c) = uevent_merge-both u us old in
    let v = merge_earlier_event (us ++ old) u in
    rw (a, b, v) (refl, merge_earlier-IsExhausted (us ++ old) u)
