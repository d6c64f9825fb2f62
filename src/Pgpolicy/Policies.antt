-- ===== src/Pgpolicy/Policies.antt =====
-- What every policy guarantees, and `group_paths` with it.
use mathlib.Core.List.{Perm, Permᴰ, Perm-prop, perm_middle, perm_append_comm}
use mathlib.Core.Logic.{∥∥₁_elim}
use mathlib.Core.List.Perm
use multipath_tools.Base.{
  Bool-cases, ℕ, ◌≡◌, refl, sym, ap, ◌∙◌, subst, inl, inr, Bool, true, false, not, ◌&&◌, Option,
  none, some, List, [], ◌∷◌, ◌++◌, map, append-nil, append_assoc, arith,
}
use multipath_tools.Base.Try.{Outcomes, Try, and_then, return, alloc, and_then-eq-some}
use multipath_tools.Structs.{Heap, PathGroup, new_pathgroup}
use multipath_tools.Switchgroup.{path_group_prio_update}
use multipath_tools.Pgpolicy.{
  or_same, sort_pathgroups, store_path, add_pathgroup, PgPolicyId, iopolicy_undef, failover,
  multibus, group_by_serial, group_by_prio, group_by_node_name, group_by_tpg, node_names_match,
  serials_match, prios_match, tpg_match,
}
use multipath_tools.Pgpolicy.Groups.{
  Match, group_by_match, one_path_per_group, store_all, one_group, PgPolicy, policy_fn, any_path,
  split_loop, split_marginal_paths, by_kind, group_split, reset_pgindex, regroup, group_paths,
}
use multipath_tools.Pgpolicy.Sort.{IsSorted, sort_pathgroups_sorts}
use multipath_tools.Pgpolicy.Partition.{
  alloc-eq-some, store_path-eq-some, flat, group_by_match_partition,
}

-- A success of the policy has put the given paths, each as often, behind those of the old groups.
abbrev Keeps : PgPolicy → Type 0
Keeps policy =
    (h : Heap) (paths : List ℕ) (pg : List PathGroup) (o : Outcomes) (pg' : List PathGroup)
    (o' : Outcomes)
    → policy h paths pg o ≡ (some pg', o')
    → Perm (flat pg') (flat pg ++ paths)

flat-append : (a b : List PathGroup) → flat (a ++ b) ≡ flat a ++ flat b
flat-append [] b = refl
flat-append (g ∷ a) b =
    ap (◌++◌ g.paths) (flat-append a b) ∙ sym (append_assoc g.paths (flat a) (flat b))

group_by_match-Keeps : (f : Match) → Keeps (λ h. group_by_match h f)
group_by_match-Keeps f h paths pg o pg' o' e =
    let (news, stored, perm, _) = group_by_match_partition h f paths pg o e in
    rw (stored, flat-append pg news) (Perm.append_left (flat pg) perm)

one_path_per_group-Keeps : Keeps one_path_per_group
unfolding one_path_per_group
one_path_per_group-Keeps h [] pg o pg' o' e =
    let w : pg' ≡ pg = ground arith in rw (w, append-nil (flat pg)) (Perm.refl (flat pg))
one_path_per_group-Keeps h (pp ∷ paths) pg o pg' o' e =
    let (g0, o1, e1, k1) = and_then-eq-some (alloc new_pathgroup o) _ e in
    let (pg0, o2, e2, k2) = and_then-eq-some (add_pathgroup pg g0 o1) _ k1 in
    let (ps, o3, e3, k3) = and_then-eq-some (store_path h [] pp o2) _ k2 in
    let w : ps ≡ pp ∷ [] = store_path-eq-some h [] pp o2 e3 in
    let rest =
      one_path_per_group-Keeps h paths (pg ++ record g0 { paths = ps } ∷ []) o3 pg' o' k3 in
    let q : flat (pg ++ record g0 { paths = ps } ∷ []) ++ paths ≡ flat pg ++ pp ∷ paths =
      rw (flat-append pg (record g0 { paths = ps } ∷ []), w)
        (append_assoc (flat pg) (pp ∷ []) paths) in
    rw q at rest

store_all_lem :
    (h : Heap) (g paths : List ℕ) (o : Outcomes) {g' : List ℕ} {o' : Outcomes}
    → store_all h g paths o ≡ (some g', o')
    → g' ≡ g ++ paths
unfolding store_all
store_all_lem h g [] o e = ground (arith, append-nil g)
store_all_lem h g (pp ∷ paths) o e =
    let (v, o1, e1, k1) = and_then-eq-some (store_path h g pp o) _ e in
    let w : v ≡ g ++ pp ∷ [] = store_path-eq-some h g pp o e1 in
    store_all_lem h v paths o1 k1 ∙ ap (λ l. l ++ paths) w ∙ append_assoc g (pp ∷ []) paths

one_group-Keeps : Keeps one_group
unfolding one_group
one_group-Keeps h paths pg o pg' o' e =
    let (g0, o1, e1, k1) = and_then-eq-some (alloc new_pathgroup o) _ e in
    let (pg0, o2, e2, k2) = and_then-eq-some (add_pathgroup pg g0 o1) _ k1 in
    let (ps, o3, e3, k3) = and_then-eq-some (store_all h [] paths o2) _ k2 in
    let w : ps ≡ paths = store_all_lem h [] paths o2 e3 in
    let v : pg' ≡ pg ++ record g0 { paths = ps } ∷ [] = ground arith in
    rw (v, flat-append pg (record g0 { paths = ps } ∷ []), append-nil ps, w)
      (Perm.refl (flat pg ++ paths))

some_eq {ℓ} : {A : Type ℓ} {a b : A} → some a ≡ some b → a ≡ b
some_eq {a} p = ap (λ o. or_same o a) p

policy_fn-Keeps : (id : PgPolicyId) (policy : PgPolicy) → policy_fn id ≡ some policy → Keeps policy
unfolding policy_fn
policy_fn-Keeps iopolicy_undef policy e = absurd (ground arith)
policy_fn-Keeps failover policy e = subst Keeps (some_eq e) one_path_per_group-Keeps
policy_fn-Keeps multibus policy e = subst Keeps (some_eq e) one_group-Keeps
policy_fn-Keeps group_by_serial policy e =
    subst Keeps (some_eq e) (group_by_match-Keeps serials_match)
policy_fn-Keeps group_by_prio policy e = subst Keeps (some_eq e) (group_by_match-Keeps prios_match)
policy_fn-Keeps group_by_node_name policy e =
    subst Keeps (some_eq e) (group_by_match-Keeps node_names_match)
policy_fn-Keeps group_by_tpg policy e = subst Keeps (some_eq e) (group_by_match-Keeps tpg_match)

split_loop_lem :
    (h : Heap) (paths normal marginal : List ℕ) (o : Outcomes) {n m : List ℕ} {o' : Outcomes}
    → split_loop h paths normal marginal o ≡ (some (n, m), o')
    → Perm (n ++ m) ((normal ++ marginal) ++ paths)
unfolding split_loop
split_loop_lem h [] normal marginal o {n} {m} e =
    let p : n ≡ normal = ground arith in
    let q : m ≡ marginal = ground arith in
    rw (p, q, append-nil (normal ++ marginal)) (Perm.refl (normal ++ marginal))
split_loop_lem h (pp ∷ paths) normal marginal o e = elim (Bool-cases ((h pp).marginal)) [
  | inl t ↦
      (let (v, o1, e1, k1) =
          and_then-eq-some (store_path h marginal pp o) _ (rw (t, split_loop) at e) in
        let w : v ≡ marginal ++ pp ∷ [] = store_path-eq-some h marginal pp o e1 in
        let q : (normal ++ (marginal ++ pp ∷ [])) ++ paths ≡ (normal ++ marginal) ++ pp ∷ paths =
          simp append_assoc in
        rw (w, q) at (split_loop_lem h paths normal v o1 k1))
  | inr t ↦
      (let (v, o1, e1, k1) =
          and_then-eq-some (store_path h normal pp o) _ (rw (t, split_loop) at e) in
        let w : v ≡ normal ++ pp ∷ [] = store_path-eq-some h normal pp o e1 in
        let p : ((normal ++ pp ∷ []) ++ marginal) ++ paths ≡ normal ++ pp ∷ (marginal ++ paths) =
          simp append_assoc in
        let q : normal ++ (marginal ++ pp ∷ paths) ≡ (normal ++ marginal) ++ pp ∷ paths =
          simp append_assoc in
        Perm.trans (rw (w, p) at (split_loop_lem h paths v marginal o1 k1))
          (rw q at (Perm.append_left normal (Perm.symm (perm_middle {a = pp} marginal paths)))))
]

split_marginal_paths_lem :
    (h : Heap) (paths : List ℕ) (o : Outcomes) {s : List ℕ × List ℕ} {o' : Outcomes}
    → split_marginal_paths h paths o ≡ (some s, o')
    → Perm (s.0 ++ s.1) paths
unfolding split_marginal_paths
split_marginal_paths_lem h paths o {s} e =
    elim (Bool-cases
      (any_path h (λ p. p.marginal) paths && any_path h (λ p. not p.marginal) paths)) [
        | inr t ↦ absurd (ground arith)
        | inl t ↦
            (let (n, o1, e1, k1) =
                and_then-eq-some (alloc [] o) _ (rw (t, split_marginal_paths) at e) in
              let (m, o2, e2, k2) = and_then-eq-some (alloc [] o1) _ k1 in
              let p : n ≡ [] = alloc-eq-some [] o e1 in
              let q : m ≡ [] = alloc-eq-some [] o1 e2 in
              rw (p, q) at (split_loop_lem h paths n m o2 k2))
      ]

by_kind-Keeps :
    (policy : PgPolicy)
    → Keeps policy
    → (h : Heap) (paths : List ℕ) (pg : List PathGroup) → (r : Option (List ℕ × List ℕ) × Outcomes)
    → ((s : List ℕ × List ℕ) → r.0 ≡ some s → Perm (s.0 ++ s.1) paths)
    → {pg' : List PathGroup} {o' : Outcomes} → by_kind policy h paths pg r ≡ (some pg', o')
    → Perm (flat pg') (flat pg ++ paths)
by_kind-Keeps policy keeps h paths pg (none, o) perm {pg'} {o'} e = keeps h paths pg o pg' o' e
by_kind-Keeps policy keeps h paths pg (some s, o) perm {pg'} {o'} e =
    let (pg1, o1, e1, k1) = and_then-eq-some (policy h s.0 pg o) (policy h s.1) e in
    let first = keeps h s.0 pg o pg1 o1 e1 in
    let second = keeps h s.1 pg1 o1 pg' o' k1 in
    Perm.trans second (
      Perm.trans (Perm.append_right s.1 first)
        (rw (append_assoc (flat pg) s.0 s.1) (Perm.append_left (flat pg) (perm s refl))))

group_split-Keeps : (policy : PgPolicy) → Keeps policy → Keeps (group_split policy)
unfolding group_split
group_split-Keeps policy keeps h paths pg o pg' o' e =
    by_kind-Keeps policy keeps h paths pg (split_marginal_paths h paths o)
      (λ s t.
        split_marginal_paths_lem h paths o {s = s} {o' = (split_marginal_paths h paths o).1}
          (ground arith))
      e

flat-map_update :
    (h : Heap) (gs : List PathGroup) → flat (map (path_group_prio_update h) gs) ≡ flat gs
unfolding path_group_prio_update
flat-map_update h [] = refl
flat-map_update h (g ∷ gs) = ap (◌++◌ g.paths) (flat-map_update h gs)

flat-perm : {a b : List PathGroup} → Permᴰ a b → Perm (flat a) (flat b)
flat-perm Permᴰ.nil = Perm.nil
flat-perm (Permᴰ.cons {a = x} {b = y} e p) =
    rw (ap (λ (g : PathGroup). g.paths) e) (Perm.append_left y.paths (flat-perm p))
flat-perm (Permᴰ.swap {a = x} {b = y} {l = l} e f) =
    let p = ap (λ (g : PathGroup). g.paths) e in
    let q = ap (λ (g : PathGroup). g.paths) f in
    rw (← p, ← q, ← append_assoc x.paths y.paths (flat l), ← append_assoc y.paths x.paths (flat l))
      (Perm.append_right (flat l) (perm_append_comm x.paths y.paths))
flat-perm (Permᴰ.trans p q) = Perm.trans (flat-perm p) (flat-perm q)

abbrev finish : Heap → List PathGroup → Try (Heap × List PathGroup)
finish h groups = return (h, sort_pathgroups h groups)

sorted_lem :
    (policy : PgPolicy)
    → Keeps policy
    → (h : Heap) (paths : List ℕ) (pg : List PathGroup) (o : Outcomes)
    → {h' : Heap} {pg' : List PathGroup} {o' : Outcomes}
    → and_then (policy h paths pg o) (finish h) ≡ (some (h', pg'), o')
    → Perm (flat pg') (flat pg ++ paths) × IsSorted pg' × (h' ≡ h)
sorted_lem policy keeps h paths pg o {h'} {pg'} e =
    let (groups, o1, e1, k1) = and_then-eq-some (policy h paths pg o) _ e in
    let p : pg' ≡ sort_pathgroups h groups = ground arith in
    let q : h' ≡ h = ground arith in
    let (sorted, perm) = sort_pathgroups_sorts h groups in
    let kept : Perm (flat (sort_pathgroups h groups)) (flat groups) =
      rw (flat-map_update h groups) at (∥∥₁_elim perm Perm-prop flat-perm) in
    (rw p (Perm.trans kept (keeps h paths pg o groups o1 e1)), rw p sorted, q)

regroup_keeps :
    (id : PgPolicyId) (policy : PgPolicy) (marginal_pathgroups : Bool) (h : Heap) (paths : List ℕ)
    (pg : List PathGroup) (o : Outcomes) {h' : Heap} {pg' : List PathGroup} {o' : Outcomes}
    → policy_fn id ≡ some policy
    → regroup (some policy) marginal_pathgroups h paths pg o ≡ (some (h', pg'), o')
    → Perm (flat pg') (flat pg ++ paths) × IsSorted pg' × (h' ≡ reset_pgindex h paths)
unfolding regroup
regroup_keeps id policy true h paths pg o e r =
    sorted_lem (group_split policy) (group_split-Keeps policy (policy_fn-Keeps id policy e))
      (reset_pgindex h paths) paths pg o r
regroup_keeps id policy false h paths pg o e r =
    sorted_lem policy (policy_fn-Keeps id policy e) (reset_pgindex h paths) paths pg o r

-- The groups of a group vector, of which there are none where it is NULL.
abbrev pub groups_in : Option (List PathGroup) → List PathGroup
groups_in none = []
groups_in (some pg) = pg

-- Where `group_paths` succeeds on a map that has paths, with a group vector or without one, and the
-- configured policy is any of the six, the group vector holds the paths of the map behind those of the
-- groups that were there, each as often as it was given and nothing else; the groups are sorted; and the
-- path cells are as `reset_pgindex` leaves them.
pub group_paths_keeps :
    (id : PgPolicyId) (policy : PgPolicy) (marginal_pathgroups : Bool) (h : Heap) (a : ℕ)
    (rest : List ℕ) (old : Option (List PathGroup)) (o : Outcomes) {h' : Heap}
    {pg' : List PathGroup} {o' : Outcomes}
    → policy_fn id ≡ some policy
    → group_paths (some policy) marginal_pathgroups h (a ∷ rest) old o ≡ (some (h', pg'), o')
    → Perm (flat pg') (flat (groups_in old) ++ a ∷ rest)
      × IsSorted pg'
      × (h' ≡ reset_pgindex h (a ∷ rest))
unfolding group_paths
group_paths_keeps id policy b h a rest (some pg) o e r =
    regroup_keeps id policy b h (a ∷ rest) pg o e r
group_paths_keeps id policy b h a rest none [] e r =
    regroup_keeps id policy b h (a ∷ rest) [] [] e r
group_paths_keeps id policy b h a rest none (true ∷ o) e r =
    regroup_keeps id policy b h (a ∷ rest) [] o e r
group_paths_keeps id policy b h a rest none (false ∷ o) e r = absurd (ground arith)
