-- ===== src/Pgpolicy/Sort.antt =====
-- `sort_pathgroups` sorts: the groups keep what they were, refreshed, and stand in order.
use mathlib.Core.List.{Perm, perm_middle}
use mathlib.Core.List.Perm
use multipath_tools.Base.{
  if◌then◌else◌, Bool-cases, length, get_elem?, set, take, length-append, All, get_elem?-append,
  set-append, All-append, All-append_left, All-append_right, All-mono, ℕ, zero, suc, ◌≤◌, ◌<◌, ◌≡◌,
  refl, sym, ap, ◌∙◌, inl, inr, true, false, some, List, [], ◌∷◌, ◌++◌, map, append-nil,
  append_assoc, arith,
}
use multipath_tools.Structs.{Heap, PathGroup}
use multipath_tools.Switchgroup.{path_group_prio_update}
use multipath_tools.Vector.{vector_move_up}
use multipath_tools.Vector.Shift.{vector_move_up_lem}
use multipath_tools.Pgpolicy.{
  stays_before, find_place, or_same, sort_round, sort_rounds, sort_pathgroups,
}

-- Every group may stay before all that come after it.
abbrev pub IsSorted : List PathGroup → Type 0
IsSorted [] = Unit
IsSorted (y ∷ ys) = All (λ z. stays_before y z ≡ true) ys × IsSorted ys

stays_before_trans :
    (x y z : PathGroup)
    → stays_before x y ≡ true
    → stays_before y z ≡ true
    → stays_before x z ≡ true
stays_before_trans x y z h k = ground arith

stays_before_total : (x y : PathGroup) → stays_before x y ≡ false → stays_before y x ≡ true
stays_before_total x y h = ground arith

-- The last group of the list, if there is one, may stay before `x`.
abbrev LastStays : List PathGroup → PathGroup → Type 0
LastStays [] x = Unit
LastStays (y ∷ []) x = stays_before y x ≡ true
LastStays (y ∷ z ∷ a) x = LastStays (z ∷ a) x

append-LastStays :
    (t : List PathGroup) (y x : PathGroup) → stays_before y x ≡ true → LastStays (t ++ y ∷ []) x
append-LastStays [] y x h = h
append-LastStays (z ∷ []) y x h = h
append-LastStays (z ∷ w ∷ t) y x h = append-LastStays (w ∷ t) y x h

All-stay :
    (a : List PathGroup) (x : PathGroup)
    → IsSorted a
    → LastStays a x
    → All (λ y. stays_before y x ≡ true) a
All-stay [] x s l = tt
All-stay (y ∷ []) x s l = (l, tt)
All-stay (y ∷ z ∷ a) x s l =
    let rest = All-stay (z ∷ a) x s.1 l in (stays_before_trans y z x s.0.0 rest.0, rest)

IsSorted-append_left : (a b : List PathGroup) → IsSorted (a ++ b) → IsSorted a
IsSorted-append_left [] b s = tt
IsSorted-append_left (y ∷ a) b s =
    (All-append_left (λ z. stays_before y z ≡ true) a b s.0, IsSorted-append_left a b s.1)

insert-All :
    (a b : List PathGroup) (x : PathGroup)
    → IsSorted (a ++ b)
    → All (λ y. stays_before y x ≡ true) a
    → All (λ y. stays_before y x ≡ false) b
    → IsSorted (a ++ x ∷ b)
insert-All [] b x s l r = (
  All-mono (λ y. stays_before y x ≡ false) (λ y. stays_before x y ≡ true)
      (λ y. stays_before_total y x) b r,
  s,
)
insert-All (y ∷ a) b x s l r = (
  All-append (λ z. stays_before y z ≡ true) a (x ∷ b)
      (All-append_left (λ z. stays_before y z ≡ true) a b s.0)
      (l.0, All-append_right (λ z. stays_before y z ≡ true) a b s.0),
  insert-All a b x s.1 l.1 r,
)

take-suc :
    (pg : List PathGroup) (j : ℕ) (y : PathGroup)
    → get_elem? pg j ≡ some y
    → take (suc j) pg ≡ take j pg ++ y ∷ []
take-suc [] j y e = cc
take-suc (z ∷ pg) zero y e = ground arith
take-suc (z ∷ pg) (suc j) y e = ap (◌∷◌ z) (take-suc pg j y e)

get_elem?_below :
    (pg : List PathGroup) (j : ℕ) → j < length pg → (y : PathGroup) × (get_elem? pg j ≡ some y)
get_elem?_below [] j h = absurd (omega arith)
get_elem?_below (z ∷ pg) zero h = (z, refl)
get_elem?_below (z ∷ pg) (suc j) h = get_elem?_below pg j (omega arith)

record Placed (pg : List PathGroup) (x : PathGroup) (k : ℕ) : Type 0 where
  before : List PathGroup
  after : List PathGroup
  parts : take k pg ≡ before ++ after
  place : find_place pg x k ≡ length before
  last : LastStays before x
  worse : All (λ y. stays_before y x ≡ false) after

length-take_le : (pg : List PathGroup) (k : ℕ) → k ≤ length pg → length (take k pg) ≡ k
length-take_le pg zero h = refl
length-take_le [] (suc k) h = absurd (omega arith)
length-take_le (z ∷ pg) (suc k) h = ap suc (length-take_le pg k (omega arith))

find_place-suc :
    (pg : List PathGroup) (x y : PathGroup) (k : ℕ)
    → get_elem? pg k ≡ some y
    → find_place pg x (suc k) ≡ (if stays_before y x then suc k else find_place pg x k)
unfolding find_place
find_place-suc pg x y k e = ground arith

find_place-Placed : (pg : List PathGroup) (x : PathGroup) (k : ℕ) → k ≤ length pg → Placed pg x k
find_place-Placed pg x zero h = record {
  before = [];
  after = [];
  parts = refl;
  place = unfold find_place in refl;
  last = tt;
  worse = tt;
}
find_place-Placed pg x (suc k) h =
    let (y, e) = get_elem?_below pg k (omega arith) in
    elim (Bool-cases (stays_before y x)) [
      | inl t ↦ record {
        before = take k pg ++ y ∷ [];
        after = [];
        parts = take-suc pg k y e ∙ sym (append-nil (take k pg ++ y ∷ []));
        place =
            rw (find_place-suc pg x y k e, t)
              (omega
                (arith, length-append (take k pg) (y ∷ []), length-take_le pg k (omega arith)));
        last = append-LastStays (take k pg) y x t;
        worse = tt;
      }
      | inr t ↦
          (let p = find_place-Placed pg x k (omega arith) in
            record {
              before = p.before;
              after = p.after ++ y ∷ [];
              parts =
                  take-suc pg k y e
                  ∙ ap (λ l. l ++ y ∷ []) p.parts
                  ∙ append_assoc p.before p.after (y ∷ []);
              place = rw (find_place-suc pg x y k e, t) p.place;
              last = p.last;
              worse = All-append (λ y. stays_before y x ≡ false) p.after (y ∷ []) p.worse (t, tt);
            })
    ]

take-append_left : (p r : List PathGroup) (i : ℕ) → length p ≡ i → take i (p ++ r) ≡ p
take-append_left [] r zero e = refl
take-append_left [] r (suc i) e = absurd (omega arith)
take-append_left (x ∷ p) r zero e = absurd (omega arith)
take-append_left (x ∷ p) r (suc i) e = ap (◌∷◌ x) (take-append_left p r i (omega arith))

sort_round-eq :
    (h : Heap) (a b : List PathGroup) (g : PathGroup) (r : List PathGroup) (i : ℕ)
    → length (a ++ b) ≡ i
    → find_place ((a ++ b) ++ path_group_prio_update h g ∷ r) (path_group_prio_update h g) i
      ≡ length a
    → sort_round h ((a ++ b) ++ g ∷ r) i ≡ (a ++ path_group_prio_update h g ∷ b) ++ r
unfolding sort_round
sort_round-eq h a b g r i e f =
    let g' = path_group_prio_update h g in
    let found : get_elem? ((a ++ b) ++ g ∷ r) i ≡ some g =
      rw (← e) (get_elem?-append (a ++ b) r g) in
    let stored : set ((a ++ b) ++ g ∷ r) i g' ≡ (a ++ b) ++ g' ∷ r =
      rw (← e) (set-append (a ++ b) r g g') in
    let moved : vector_move_up ((a ++ b) ++ g' ∷ r) i (length a) ≡ some (a ++ g' ∷ (b ++ r)) =
      rw (← e, length-append a b, append_assoc a b (g' ∷ r)) (vector_move_up_lem a b g' r) in
    rw (found, sort_round)
      (rw stored (rw f (rw (moved, or_same) (sym (append_assoc a (g' ∷ b) r)))))

-- One round inserts the refreshed group into the sorted groups before it.
sort_round_lem :
    (h : Heap) (p : List PathGroup) (g : PathGroup) (r : List PathGroup) (i : ℕ)
    → length p ≡ i
    → IsSorted p
    → (a b : List PathGroup) × (p ≡ a ++ b)
      × (sort_round h (p ++ g ∷ r) i ≡ (a ++ path_group_prio_update h g ∷ b) ++ r)
      × IsSorted (a ++ path_group_prio_update h g ∷ b)
unfolding sort_round
sort_round_lem h p g r i e s =
    let g' = path_group_prio_update h g in
    let q = find_place-Placed (p ++ g' ∷ r) g' i (omega (arith, length-append p (g' ∷ r))) in
    let split : p ≡ q.before ++ q.after = sym (take-append_left p (g' ∷ r) i e) ∙ q.parts in
    let e' : length (q.before ++ q.after) ≡ i = rw (← split) e in
    (
      q.before,
      q.after,
      split,
      rw split (sort_round-eq h q.before q.after g r i e' (rw (← split) q.place)),
      insert-All q.before q.after g' (rw split at s)
          (All-stay q.before g' (IsSorted-append_left q.before q.after (rw split at s)) q.last)
          q.worse,
    )

move_middle-perm :
    (a b t : List PathGroup) (x : PathGroup) → Perm ((a ++ x ∷ b) ++ t) ((a ++ b) ++ x ∷ t)
move_middle-perm a b t x =
    Perm.trans (Perm.append_right t (perm_middle a b)) (Perm.symm (perm_middle (a ++ b) t))

sort_rounds_lem :
    (h : Heap) (p r : List PathGroup) (i n : ℕ)
    → length p ≡ i
    → length r ≡ n
    → IsSorted p
    → IsSorted (sort_rounds h (p ++ r) i n)
      × Perm (sort_rounds h (p ++ r) i n) (p ++ map (path_group_prio_update h) r)
unfolding sort_rounds
sort_rounds_lem h p [] i zero e f s = rw append-nil (s, Perm.refl p)
sort_rounds_lem h p [] i (suc n) e f s = absurd (omega arith)
sort_rounds_lem h p (g ∷ r) i zero e f s = absurd (omega arith)
sort_rounds_lem h p (g ∷ r) i (suc n) e f s =
    let g' = path_group_prio_update h g in
    let (a, b, split, round, sorted) = sort_round_lem h p g r i e s in
    let (s', perm) =
      sort_rounds_lem h (a ++ g' ∷ b) r (suc i) n
        (omega (arith, length-append a (g' ∷ b), length-append a b, ap length split)) (omega arith)
        sorted in
    rw round
      (s', Perm.trans perm (rw split (move_middle-perm a b (map (path_group_prio_update h) r) g')))

-- `sort_pathgroups` leaves the refreshed groups, each as often as before, in an order in which every
-- group may stay before all later ones: normal before marginal, then by falling priority, then by
-- falling number of usable paths.
pub sort_pathgroups_sorts :
    (h : Heap) (pg : List PathGroup)
    → IsSorted (sort_pathgroups h pg)
      × Perm (sort_pathgroups h pg) (map (path_group_prio_update h) pg)
unfolding sort_pathgroups
sort_pathgroups_sorts h pg = sort_rounds_lem h [] pg 0 (length pg) refl refl tt
