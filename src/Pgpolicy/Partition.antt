-- ===== src/Pgpolicy/Partition.antt =====
-- The groups that `group_by_match` makes.
use mathlib.Core.List.{Perm, perm_middle}
use mathlib.Core.List.Perm
use multipath_tools.Base.{
  ◌==◌, if◌then◌else◌, Bool-cases, length, All, ℕ, suc, ◌≡◌, refl, ap, ◌∙◌, inl, inr, Bool, true,
  false, not, ◌&&◌, ◌||◌, some, List, [], ◌∷◌, ◌++◌, append-nil, append_assoc, arith,
}
use multipath_tools.Base.Try.{Outcomes, ◌>>=◌, return, alloc, and_then-eq-some}
use multipath_tools.Structs.{Heap, PathGroup, new_pathgroup}
use multipath_tools.Pgpolicy.{store_path, add_pathgroup}
use multipath_tools.Pgpolicy.Groups.{Match, collect, match_loop, zeros, group_by_match}

pub alloc-eq-some {ℓ} :
    {A : Type ℓ} (a : A) (o : Outcomes) {b : A} {o' : Outcomes} → alloc a o ≡ (some b, o') → b ≡ a
alloc-eq-some a [] h = ground arith
alloc-eq-some a (true ∷ o) h = ground arith
alloc-eq-some a (false ∷ o) h = absurd (ground arith)

pub store_path-eq-some :
    (h : Heap) (v : List ℕ) (a : ℕ) (o : Outcomes) {v' : List ℕ} {o' : Outcomes}
    → store_path h v a o ≡ (some v', o')
    → v' ≡ v ++ a ∷ []
unfolding store_path
store_path-eq-some h v a o e =
    elim (Bool-cases ((length (h a).dev_t == 0) && (length (h a).dev == 0))) [
      | inl t ↦ absurd (ground arith)
      | inr t ↦ alloc-eq-some (v ++ a ∷ []) o (rw (t, store_path) at e)
    ]

-- The paths whose bit is not set.
abbrev pub unset : List ℕ → List Bool → List ℕ
unset [] bits = []
unset (a ∷ paths) [] = []
unset (a ∷ paths) (b ∷ bits) = if b then unset paths bits else a ∷ unset paths bits

-- What the inner loop has done, where it succeeded: it has put a set of the open paths behind `g`,
-- all of which match, and what is left open does not match.
pub record Collected (h : Heap) (f : Match) (pp : ℕ) (paths : List ℕ) (bits : List Bool)
    (g g' : List ℕ) (bits' : List Bool) : Type 0 where
  pub picks : List ℕ
  pub stored : g' ≡ g ++ picks
  pub same_length : length bits' ≡ length paths
  pub split : Perm (picks ++ unset paths bits') (unset paths bits)
  pub matching : All (λ q. f (h pp) (h q) ≡ true) picks
  pub others : All (λ q. f (h pp) (h q) ≡ false) (unset paths bits')
  pub within :
      (p : ℕ → Bool)
      → All (λ q. p q ≡ false) (unset paths bits)
      → All (λ q. p q ≡ false) picks × All (λ q. p q ≡ false) (unset paths bits')

collect_skip :
    (h : Heap) (f : Match) (pp a : ℕ) (paths : List ℕ) (b : Bool) (bits : List Bool) (g g' : List ℕ)
    (bits' : List Bool)
    → (b || not (f (h pp) (h a))) ≡ true
    → Collected h f pp paths bits g g' bits'
    → Collected h f pp (a ∷ paths) (b ∷ bits) g g' (b ∷ bits')
collect_skip h f pp a paths true bits g g' bits' t c = record {
  picks = c.picks;
  stored = c.stored;
  same_length = ap suc c.same_length;
  split = c.split;
  matching = c.matching;
  others = c.others;
  within = λ p k. c.within p k;
}
collect_skip h f pp a paths false bits g g' bits' t c = record {
  picks = c.picks;
  stored = c.stored;
  same_length = ap suc c.same_length;
  split = Perm.trans (perm_middle c.picks (unset paths bits')) (Perm.cons a c.split);
  matching = c.matching;
  others = (ground arith, c.others);
  within = λ p k. ((c.within p k.1).0, (k.0, (c.within p k.1).1));
}

collect_take :
    (h : Heap) (f : Match) (pp a : ℕ) (paths : List ℕ) (b : Bool) (bits : List Bool) (g g' : List ℕ)
    (bits' : List Bool)
    → (b || not (f (h pp) (h a))) ≡ false
    → Collected h f pp paths bits (g ++ a ∷ []) g' bits'
    → Collected h f pp (a ∷ paths) (b ∷ bits) g g' (true ∷ bits')
collect_take h f pp a paths true bits g g' bits' t c = absurd (ground arith)
collect_take h f pp a paths false bits g g' bits' t c = record {
  picks = a ∷ c.picks;
  stored = c.stored ∙ append_assoc g (a ∷ []) c.picks;
  same_length = ap suc c.same_length;
  split = Perm.cons a c.split;
  matching = (ground arith, c.matching);
  others = c.others;
  within = λ p k. ((k.0, (c.within p k.1).0), (c.within p k.1).1);
}

collect-Collected :
    (h : Heap) (f : Match) (pp : ℕ) (paths : List ℕ) (bits : List Bool) (g : List ℕ) (o : Outcomes)
    {g' : List ℕ} {bits' : List Bool} {o' : Outcomes}
    → length bits ≡ length paths
    → collect h f pp paths bits g o ≡ (some (g', bits'), o')
    → Collected h f pp paths bits g g' bits'
unfolding collect
collect-Collected h f pp [] bits g o {g'} {bits'} n e = record {
  picks = [];
  stored = ground (arith, append-nil g);
  same_length = ground arith;
  split = Perm.nil;
  matching = tt;
  others = tt;
  within = λ p k. (tt, tt);
}
collect-Collected h f pp (a ∷ paths) [] g o n e = absurd (omega arith)
collect-Collected h f pp (a ∷ paths) (b ∷ bits) g o {g'} {bits'} n e =
    elim (Bool-cases (b || not (f (h pp) (h a)))) [
      | inl t ↦
          (let (r, o1, c, d) =
              and_then-eq-some (collect h f pp paths bits g o) (λ r. return (r.0, b ∷ r.1))
                (rw (t, collect) at e) in
            let p : g' ≡ r.0 = ground arith in
            let q : bits' ≡ b ∷ r.1 = ground arith in
            rw (p, q)
              (collect_skip h f pp a paths b bits g r.0 r.1 t
                (collect-Collected h f pp paths bits g o (omega arith) c)))
      | inr t ↦
          (let (r, o1, c, d) =
              and_then-eq-some ((store_path h g a >>= λ v. collect h f pp paths bits v) o)
                (λ r. return (r.0, true ∷ r.1)) (rw (t, collect) at e) in
            let (v, o2, c2, d2) =
              and_then-eq-some (store_path h g a o) (λ v. collect h f pp paths bits v) c in
            let p : g' ≡ r.0 = ground arith in
            let q : bits' ≡ true ∷ r.1 = ground arith in
            let w : v ≡ g ++ a ∷ [] = store_path-eq-some h g a o c2 in
            rw (p, q)
              (collect_take h f pp a paths b bits g r.0 r.1 t
                (collect-Collected h f pp paths bits (g ++ a ∷ []) o2 (omega arith) (rw w at d2))))
    ]

-- The paths of the groups, in order.
abbrev pub flat : List PathGroup → List ℕ
flat [] = []
flat (g ∷ gs) = g.paths ++ flat gs

-- The group has a first path, and the others match it.
abbrev pub IsClass : Heap → Match → List ℕ → Type 0
IsClass h f [] = ⊥
IsClass h f (x ∷ xs) = All (λ q. f (h x) (h q) ≡ true) xs

-- No path of the second list matches the first path of the first.
abbrev pub Apart : Heap → Match → List ℕ → List ℕ → Type 0
Apart h f [] ys = Unit
Apart h f (x ∷ xs) ys = All (λ q. f (h x) (h q) ≡ false) ys

-- Each group is a class of its first path, and takes in nothing that a later group has.
abbrev pub IsGrouping : Heap → Match → List PathGroup → Type 0
IsGrouping h f [] = Unit
IsGrouping h f (g ∷ gs) =
    IsClass h f g.paths × All (λ g'. Apart h f g.paths g'.paths) gs × IsGrouping h f gs

record Grouped (h : Heap) (f : Match) (paths : List ℕ) (bits : List Bool) (pg pg' : List PathGroup)
    : Type 0 where
  news : List PathGroup
  stored : pg' ≡ pg ++ news
  split : Perm (flat news) (unset paths bits)
  grouping : IsGrouping h f news
  within :
      (p : ℕ → Bool)
      → All (λ q. p q ≡ false) (unset paths bits)
      → All (λ g. All (λ q. p q ≡ false) g.paths) news

Grouped-step :
    (h : Heap) (f : Match) (pp : ℕ) (paths : List ℕ) (bits : List Bool) (pg pg' : List PathGroup)
    (g0 : PathGroup) (g' : List ℕ) (bits' : List Bool)
    → Collected h f pp paths bits (pp ∷ []) g' bits'
    → Grouped h f paths bits' (pg ++ record g0 { paths = g' } ∷ []) pg'
    → Grouped h f (pp ∷ paths) (false ∷ bits) pg pg'
Grouped-step h f pp paths bits pg pg' g0 g' bits' c r = record {
  news = record g0 { paths = g' } ∷ r.news;
  stored = r.stored ∙ append_assoc pg (record g0 { paths = g' } ∷ []) r.news;
  split = rw c.stored (Perm.cons pp (Perm.trans (Perm.append_left c.picks r.split) c.split));
  grouping = rw c.stored (c.matching, r.within (λ q. f (h pp) (h q)) c.others, r.grouping);
  within = λ p k. rw c.stored ((k.0, (c.within p k.1).0), r.within p (c.within p k.1).1);
}

match_loop-Grouped :
    (h : Heap) (f : Match) (paths : List ℕ) (bits : List Bool) (pg : List PathGroup) (o : Outcomes)
    {pg' : List PathGroup} {o' : Outcomes}
    → length bits ≡ length paths
    → match_loop h f paths bits pg o ≡ (some pg', o')
    → Grouped h f paths bits pg pg'
unfolding match_loop
match_loop-Grouped h f [] bits pg o n e = record {
  news = [];
  stored = ground (arith, append-nil pg);
  split = Perm.nil;
  grouping = tt;
  within = λ p k. tt;
}
match_loop-Grouped h f (pp ∷ paths) [] pg o n e = absurd (omega arith)
match_loop-Grouped h f (pp ∷ paths) (true ∷ bits) pg o n e =
    let r = match_loop-Grouped h f paths bits pg o (omega arith) e in
    record {
      news = r.news;
      stored = r.stored;
      split = r.split;
      grouping = r.grouping;
      within = r.within;
    }
match_loop-Grouped h f (pp ∷ paths) (false ∷ bits) pg o n e =
    let (g0, o1, e1, k1) = and_then-eq-some (alloc new_pathgroup o) _ e in
    let (pg0, o2, e2, k2) = and_then-eq-some (add_pathgroup pg g0 o1) _ k1 in
    let (first, o3, e3, k3) = and_then-eq-some (store_path h [] pp o2) _ k2 in
    let (r, o4, e4, k4) = and_then-eq-some (collect h f pp paths bits first o3) _ k3 in
    let w : first ≡ pp ∷ [] = store_path-eq-some h [] pp o2 e3 in
    let c = collect-Collected h f pp paths bits (pp ∷ []) o3 (omega arith) (rw w at e4) in
    Grouped-step h f pp paths bits pg _ g0 r.0 r.1 c
      (match_loop-Grouped h f paths r.1 (pg ++ record g0 { paths = r.0 } ∷ []) o4 c.same_length k4)

length-zeros : (paths : List ℕ) → length (zeros paths) ≡ length paths
length-zeros [] = refl
length-zeros (a ∷ paths) = ap suc (length-zeros paths)

unset-zeros : (paths : List ℕ) → unset paths (zeros paths) ≡ paths
unset-zeros [] = refl
unset-zeros (a ∷ paths) = ap (◌∷◌ a) (unset-zeros paths)

-- Where `group_by_match` succeeds, it has appended groups that hold the given paths, each as often as
-- it was given, and nothing else; each group is not empty, its paths match its first one, and no path
-- of a later group does.
pub group_by_match_partition :
    (h : Heap) (f : Match) (paths : List ℕ) (pg : List PathGroup) (o : Outcomes)
    {pg' : List PathGroup} {o' : Outcomes}
    → group_by_match h f paths pg o ≡ (some pg', o')
    → (news : List PathGroup) × (pg' ≡ pg ++ news) × Perm (flat news) paths × IsGrouping h f news
unfolding group_by_match
group_by_match_partition h f [] pg o e = absurd (ground arith)
group_by_match_partition h f (a ∷ paths) pg o e =
    let (bits, o1, e1, k1) = and_then-eq-some (alloc (zeros (a ∷ paths)) o) _ e in
    let w : bits ≡ zeros (a ∷ paths) = alloc-eq-some (zeros (a ∷ paths)) o e1 in
    let g =
      match_loop-Grouped h f (a ∷ paths) (zeros (a ∷ paths)) pg o1 (length-zeros (a ∷ paths))
        (rw w at k1) in
    (g.news, g.stored, rw (unset-zeros (a ∷ paths)) at g.split, g.grouping)
