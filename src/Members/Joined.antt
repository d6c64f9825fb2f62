-- ===== src/Members/Joined.antt =====
-- libmultipath/structs_vec.c: which paths `update_mpp_paths` adds to a map.
use multipath_tools.Base.{
  Bool-cases, Option-cases, All, All-append, All-mono, ℕ, ◌≡◌, refl, sym, ap, ◌∙◌, inl, inr, Bool,
  true, false, Option, some, List, [], ◌∷◌, ◌++◌, append-nil, append_assoc, arith,
}
use multipath_tools.Base.Try.{Outcomes}
use multipath_tools.Structs.{Heap, PathGroup, Multipath}
use multipath_tools.Pgpolicy.{store_path}
use multipath_tools.Pgpolicy.Partition.{store_path-eq-some, flat}
use multipath_tools.Members.{
  Joining, try_join, join_path, join_paths, join_groups, update_mpp_paths,
}
use multipath_tools.Members.Known.{
  known, is_wanted, IsDistinct, known-append, known-last, IsDistinct-append,
}

-- What the loops over some paths do to the list of the map.
pub record Joined (h : Heap) (pathvec addrs : List ℕ) (before after : Joining) : Type 0 where
  pub picks : List ℕ
  pub joined : after.1 ≡ before.1 ++ picks
  pub wanted : All (λ a. is_wanted h pathvec a ≡ true) picks
  pub distinct : IsDistinct h before.1 → IsDistinct h after.1
  pub complete :
      after.0 ≡ false
      → All (λ a. is_wanted h pathvec a ≡ true → known h after.1 (h a).dev_t ≡ true) addrs
  pub blamed : before.0 ≡ true → after.0 ≡ true

nothing-Joined :
    (h : Heap) (pathvec : List ℕ) (j : Joining) (a : ℕ)
    → (is_wanted h pathvec a ≡ true → known h j.1 (h a).dev_t ≡ true)
    → Joined h pathvec (a ∷ []) j j
nothing-Joined h pathvec j a w = record {
  picks = [];
  joined = sym (append-nil j.1);
  wanted = tt;
  distinct = λ d. d;
  complete = λ f. (w, tt);
  blamed = λ b. b;
}

pair_of : {A : Type 0} (r : Option A × Outcomes) (x : Option A) → r.0 ≡ x → r ≡ (x, r.1)
pair_of (a, o) x e = ap (λ y. (y, o)) e

try_join-Joined :
    (h : Heap) (pathvec : List ℕ) (a : ℕ) (failed : Bool) (paths : List ℕ) (o : Outcomes)
    → known h paths (h a).dev_t ≡ false
    → is_wanted h pathvec a ≡ true
    → Joined h pathvec (a ∷ []) (failed, paths) (try_join h a (failed, paths) o).0
try_join-Joined h pathvec a failed paths o e w =
    let r = store_path h paths a o in
    elim (Option-cases r.0) [
      | inl n ↦
          rw (try_join, n)
            (record {
              picks = [];
              joined = sym (append-nil paths);
              wanted = tt;
              distinct = λ d. d;
              complete = λ f. absurd (ground arith);
              blamed = λ b. refl;
            })
      | inr (paths', s) ↦
          let k = store_path-eq-some h paths a o (pair_of r (some paths') s) in
          rw (try_join, s, k)
            (record {
              picks = a ∷ [];
              joined = refl;
              wanted = (w, tt);
              distinct = λ d. IsDistinct-append h paths a d e;
              complete = λ f. (λ t. known-last h paths a, tt);
              blamed = λ b. b;
            })
    ]

join_path-Joined :
    (h : Heap) (pathvec : List ℕ) (a : ℕ) (j : Joining) (o : Outcomes)
    → Joined h pathvec (a ∷ []) j (join_path h pathvec a j o).0
unfolding join_path
join_path-Joined h pathvec a (failed, paths) o = elim (Bool-cases (known h paths (h a).dev_t)) [
  | inl e ↦ rw e (nothing-Joined h pathvec (failed, paths) a (λ w. e))
  | inr e ↦ elim (Bool-cases (is_wanted h pathvec a)) [
    | inl w ↦ rw (e, w) (try_join-Joined h pathvec a failed paths o e w)
    | inr w ↦
        rw (e, w)
          (nothing-Joined h pathvec (failed, paths) a
            (λ t. absurd (let z : true ≡ false = sym t ∙ w in ground arith)))
  ]
]

not_blamed :
    {h : Heap} {pathvec ys : List ℕ} (j k : Joining)
    → Joined h pathvec ys j k
    → k.0 ≡ false
    → j.0 ≡ false
not_blamed j k q f = elim (Bool-cases j.0) [
  | inl e ↦ absurd (let z : true ≡ false = sym (q.blamed e) ∙ f in ground arith)
  | inr e ↦ e
]

Joined-trans :
    (h : Heap) (pathvec xs ys : List ℕ) (i j k : Joining)
    → Joined h pathvec xs i j
    → Joined h pathvec ys j k
    → Joined h pathvec (xs ++ ys) i k
Joined-trans h pathvec xs ys i j k p q = record {
  picks = p.picks ++ q.picks;
  joined = q.joined ∙ ap (λ t. t ++ q.picks) p.joined ∙ append_assoc i.1 p.picks q.picks;
  wanted = All-append (λ a. is_wanted h pathvec a ≡ true) p.picks q.picks p.wanted q.wanted;
  distinct = λ d. q.distinct (p.distinct d);
  complete = λ f.
      All-append (λ a. is_wanted h pathvec a ≡ true → known h k.1 (h a).dev_t ≡ true) xs ys
        (All-mono (λ a. is_wanted h pathvec a ≡ true → known h j.1 (h a).dev_t ≡ true)
          (λ a. is_wanted h pathvec a ≡ true → known h k.1 (h a).dev_t ≡ true)
          (λ a w t. rw q.joined (known-append h j.1 q.picks (h a).dev_t (w t))) xs
          (p.complete (not_blamed j k q f)))
        (q.complete f);
  blamed = λ b. q.blamed (p.blamed b);
}

join_paths-Joined :
    (h : Heap) (pathvec addrs : List ℕ) (j : Joining) (o : Outcomes)
    → Joined h pathvec addrs j (join_paths h pathvec addrs j o).0
unfolding join_paths
join_paths-Joined h pathvec [] j o = record {
  picks = [];
  joined = sym (append-nil j.1);
  wanted = tt;
  distinct = λ d. d;
  complete = λ f. tt;
  blamed = λ b. b;
}
join_paths-Joined h pathvec (a ∷ rest) j o =
    let r = join_path h pathvec a j o in
    Joined-trans h pathvec (a ∷ []) rest j r.0 (join_paths h pathvec rest r.0 r.1).0
      (join_path-Joined h pathvec a j o) (join_paths-Joined h pathvec rest r.0 r.1)

join_groups-Joined :
    (h : Heap) (pathvec : List ℕ) (gs : List PathGroup) (j : Joining) (o : Outcomes)
    → Joined h pathvec (flat gs) j (join_groups h pathvec gs j o).0
unfolding join_groups
join_groups-Joined h pathvec [] j o = join_paths-Joined h pathvec [] j o
join_groups-Joined h pathvec (g ∷ gs) j o =
    let r = join_paths h pathvec g.paths j o in
    Joined-trans h pathvec g.paths (flat gs) j r.0 (join_groups h pathvec gs r.0 r.1).0
      (join_paths-Joined h pathvec g.paths j o) (join_groups-Joined h pathvec gs r.0 r.1)

-- `update_mpp_paths` on a map with groups, whatever memory there is: it appends to the paths of the map
-- only paths that are in the path vector by their device number and are not removed; device numbers
-- stay distinct if they were; and if it reports no failure, every such path of a group is in the map by
-- its device number.
pub update_mpp_paths_joins :
    (h : Heap) (pathvec : List ℕ) (mpp : Multipath) (gs : List PathGroup) (o : Outcomes)
    → mpp.pg ≡ some gs
    → let (failed, mpp', o') = update_mpp_paths h pathvec mpp o in
      ((picks : List ℕ) × (mpp'.paths ≡ mpp.paths ++ picks)
        × All (λ a. is_wanted h pathvec a ≡ true) picks)
      × (IsDistinct h mpp.paths → IsDistinct h mpp'.paths)
      × (failed ≡ false
          → All
              (λ a. is_wanted h pathvec a ≡ true → known h mpp'.paths (h a).dev_t ≡ true)
              (flat gs))
unfolding update_mpp_paths
update_mpp_paths_joins h pathvec mpp gs o e =
    let j = join_groups-Joined h pathvec gs (false, mpp.paths) o in
    rw (update_mpp_paths, e) ((j.picks, j.joined, j.wanted), j.distinct, j.complete)
