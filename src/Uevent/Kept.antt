-- ===== src/Uevent/Kept.antt =====
-- libmultipath/uevent.c: merging keeps the events, and the order of those that add or remove paths of
-- one LUN.
use mathlib.Core.List.{Perm, perm_append_comm}
use mathlib.Core.List.Perm
use multipath_tools.Base.{
  Bool-cases, length, All, All-append, All-mono, ℕ, suc, ◌+◌, ◌≡◌, refl, sym, ap, ◌∙◌, subst, inl,
  inr, true, false, not, ◌&&◌, ◌||◌, Option, none, some, List, [], ◌∷◌, ◌++◌, append_assoc, arith,
}
use multipath_tools.Base.Text.{Text, codes, str_eq, str_eq→eq}
use multipath_tools.Uevent.{
  Event, Uevent, is_dm, same_wwid, has_wwid, merge_need_stop, uevent_can_merge,
}
use multipath_tools.Uevent.Queue.{group, flat, absorb, Merged, merge_earlier}
use multipath_tools.Uevent.Order.{merge_earlier-induction}
use multipath_tools.Uevent.Kin.{
  concerns, about, IsKin, IsUniform, about-append, about-kin, and_true, not-true, passed,
}

-- What the loop for one event does to the queue.
pub record Kept (before after : List Uevent) (n : ℕ) : Type 0 where
  pub uniform : All IsUniform after
  pub order : (w : Text) → about w (flat after) ≡ about w (flat before)
  pub perm : Perm (flat after) (flat before)
  pub count : length after + n ≡ length before

-- The event `l` with what has been merged into it is `r.later`.
abbrev Keeps : Uevent → List Uevent → Merged → Type 0
Keeps l us r =
    All IsUniform (l ∷ us) → (r.later.event ≡ l.event) × Kept (l ∷ us) (r.later ∷ r.rest) r.count

pub Kept-refl : (us : List Uevent) → All IsUniform us → Kept us us 0
Kept-refl us h = record {
  uniform = h;
  order = λ w. refl;
  perm = Perm.refl (flat us);
  count = omega arith;
}

concerned_event :
    (w : Text) (u : Uevent) → IsUniform u → concerns w u.event ≡ false → about w (group u) ≡ []
concerned_event w u h e = rw (about, e) (about-kin w u.event u.merge_node e h)

flat-absorb : (l u : Uevent) (us : List Uevent) → flat (absorb l u ∷ us) ≡ flat (l ∷ u ∷ us)
flat-absorb l u us = ap (◌∷◌ l.event) (append_assoc l.merge_node (group u) (flat us))

same_wwid→eq_both : (o p : Option Text) → same_wwid o p ≡ true → o ≡ p
same_wwid→eq_both none p h = cc
same_wwid→eq_both (some s) none h = cc
same_wwid→eq_both (some s) (some t) h = ap some (str_eq→eq s t h)

can_merge_parts :
    (u l : Event)
    → uevent_can_merge u l ≡ true
    → (u.wwid ≡ l.wwid) × (u.action ≡ l.action) × (is_dm u ≡ false)
unfolding uevent_can_merge
can_merge_parts u l c =
    let has = has_wwid u && has_wwid l in
    let a = str_eq u.action (codes "add") || str_eq u.action (codes "remove") in
    let (c1, w) =
      and_true (has && not (is_dm u) && str_eq u.action l.action && a) (same_wwid u.wwid l.wwid)
        c in
    let (c2, r) = and_true (has && not (is_dm u) && str_eq u.action l.action) a c1 in
    let (c3, t) = and_true (has && not (is_dm u)) (str_eq u.action l.action) c2 in
    let (c4, d) = and_true has (not (is_dm u)) c3 in
    (same_wwid→eq_both u.wwid l.wwid w, str_eq→eq u.action l.action t, not-true (is_dm u) d)

-- An event that can be merged is of the kind of the other.
kin : (u l : Event) → merge_need_stop u l ≡ false → uevent_can_merge u l ≡ true → IsKin l u
unfolding merge_need_stop
kin u l e c =
    let (w, a, d) = can_merge_parts u l c in
    elim (Bool-cases (is_dm l)) [
      | inl k ↦ absurd (let t : true ≡ false = rw (merge_need_stop, k) at e in ground arith)
      | inr k ↦ (w, a, d ∙ sym k)
    ]

absorb-IsUniform :
    (l u : Uevent) → IsKin l.event u.event → IsUniform l → IsUniform u → IsUniform (absorb l u)
absorb-IsUniform l u (w, a, d) hl hu = All-append (IsKin l.event) l.merge_node (group u) hl (
  (w, a, d),
  All-mono (IsKin u.event) (IsKin l.event) (λ m k. (k.0 ∙ w, k.1 ∙ a, k.2 ∙ d)) u.merge_node hu,
)

Keeps-take :
    (l u : Uevent) (us : List Uevent) (r : Merged)
    → merge_need_stop u.event l.event ≡ false
    → uevent_can_merge u.event l.event ≡ true
    → Keeps (absorb l u) us r
    → Keeps l (u ∷ us) (record r { count = suc r.count })
Keeps-take l u us r e c h (hl, (hu, hs)) =
    let (v, k) = h (absorb-IsUniform l u (kin u.event l.event e c) hl hu, hs) in
    let f = flat-absorb l u us in
    (
      v,
      record {
        uniform = k.uniform;
        order = λ w. k.order w ∙ ap (about w) f;
        perm = subst (Perm (flat (r.later ∷ r.rest))) f k.perm;
        count = let n = k.count in omega arith;
      },
    )

pub about_two :
    (w : Text) (u : Uevent) (us : List Uevent)
    → about w (flat (u ∷ us)) ≡ about w (group u) ++ about w (flat us)
about_two w u us = about-append w (group u) (flat us)

about_three :
    (w : Text) (l u : Uevent) (us : List Uevent)
    → about w (flat (l ∷ u ∷ us)) ≡ about w (group l) ++ (about w (group u) ++ about w (flat us))
about_three w l u us = about_two w l (u ∷ us) ∙ ap (λ t. about w (group l) ++ t) (about_two w u us)

order_pass :
    (w : Text) (l l' u : Uevent) (us rest : List Uevent)
    → l'.event ≡ l.event
    → IsUniform l
    → IsUniform l'
    → IsUniform u
    → (concerns w l.event ≡ true → concerns w u.event ≡ false)
    → about w (flat (l' ∷ rest)) ≡ about w (flat (l ∷ us))
    → about w (flat (l' ∷ u ∷ rest)) ≡ about w (flat (l ∷ u ∷ us))
order_pass w l l' u us rest v hl hl' hu c h =
    let x = about_three w l' u rest in
    let y = about_three w l u us in
    let z : about w (group l') ++ about w (flat rest) ≡ about w (group l) ++ about w (flat us) =
      sym (about_two w l' rest) ∙ h ∙ about_two w l us in
    elim (Bool-cases (concerns w l.event)) [
      | inl e ↦
          let n = concerned_event w u hu (c e) in
          x
          ∙ ap (λ t. about w (group l') ++ (t ++ about w (flat rest))) n
          ∙ z
          ∙ sym (y ∙ ap (λ t. about w (group l) ++ (t ++ about w (flat us))) n)
      | inr e ↦
          let n = concerned_event w l hl e in
          let n' = concerned_event w l' hl' (rw v e) in
          let k : about w (flat rest) ≡ about w (flat us) = rw (n, n') at z in
          x
          ∙ ap (λ t. t ++ (about w (group u) ++ about w (flat rest))) n'
          ∙ ap (λ t. about w (group u) ++ t) k
          ∙ sym (y ∙ ap (λ t. t ++ (about w (group u) ++ about w (flat us))) n)
    ]

swap_groups : (xs ys zs : List Event) → Perm (xs ++ (ys ++ zs)) (ys ++ (xs ++ zs))
swap_groups xs ys zs =
    subst (λ t. Perm t (ys ++ (xs ++ zs))) (append_assoc xs ys zs)
      (subst (Perm ((xs ++ ys) ++ zs)) (append_assoc ys xs zs)
        (Perm.append_right zs (perm_append_comm xs ys)))

perm_pass :
    (l l' u : Uevent) (us rest : List Uevent)
    → Perm (flat (l' ∷ rest)) (flat (l ∷ us))
    → Perm (flat (l' ∷ u ∷ rest)) (flat (l ∷ u ∷ us))
perm_pass l l' u us rest h =
    Perm.trans (swap_groups (group l') (group u) (flat rest))
      (Perm.trans (Perm.append_left (group u) h) (swap_groups (group u) (group l) (flat us)))

Keeps-pass :
    (l u : Uevent) (us : List Uevent) (r : Merged)
    → merge_need_stop u.event l.event ≡ false
    → uevent_can_merge u.event l.event ≡ false
    → Keeps l us r
    → Keeps l (u ∷ us) (record r { rest = u ∷ r.rest })
Keeps-pass l u us r e c h (hl, (hu, hs)) =
    let (v, k) = h (hl, hs) in
    (
      v,
      record {
        uniform = (k.uniform.0, (hu, k.uniform.1));
        order = λ w.
            order_pass w l r.later u us r.rest v hl k.uniform.0 hu (passed w u.event l.event e c)
              (k.order w);
        perm = perm_pass l r.later u us r.rest k.perm;
        count = let n = k.count in omega arith;
      },
    )

pub merge_earlier-Keeps : (us : List Uevent) (l : Uevent) → Keeps l us (merge_earlier l us)
merge_earlier-Keeps =
    merge_earlier-induction Keeps (λ l h. (refl, Kept-refl (l ∷ []) h))
      (λ l u us e h. (refl, Kept-refl (l ∷ u ∷ us) h)) Keeps-take Keeps-pass
