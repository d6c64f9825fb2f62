-- ===== src/Pgpolicy/Success.antt =====
-- libmultipath/pgpolicies.c: with enough memory the paths are grouped.
use multipath_tools.Base.{
  ltb, ◌==◌, ltb→lt, lt→ltb, ==→eq, Bool-cases, length, All, All-append, All-mono, ℕ, ◌<◌, ◌≡◌,
  refl, ap, subst, inl, inr, Bool, true, false, not, ◌&&◌, ◌||◌, Option, none, some, List, [], ◌∷◌,
  ◌++◌, arith,
}
use multipath_tools.Structs.{Heap, write, PathGroup, new_pathgroup}
use multipath_tools.Pgpolicy.{
  or_same, sort_pathgroups, store_path, add_pathgroup, PgPolicyId, iopolicy_undef, failover,
  multibus, group_by_serial, group_by_prio, group_by_node_name, group_by_tpg, node_names_match,
  serials_match, prios_match, tpg_match,
}
use multipath_tools.Pgpolicy.Groups.{
  Match, collect, match_loop, zeros, group_by_match, one_path_per_group, store_all, one_group,
  PgPolicy, policy_fn, any_path, split_loop, split_marginal_paths, group_split, reset_pgindex,
  regroup, group_paths,
}

-- The path has a device number or a name, as `store_path` asks for.
abbrev pub HasName : Heap → ℕ → Type 0
HasName h a = ((length (h a).dev_t == 0) && (length (h a).dev == 0)) ≡ false

-- With enough memory the policy groups the paths, if there are any.
abbrev Succeeds : PgPolicy → Type 0
Succeeds policy =
    (h : Heap) (paths : List ℕ) (pg : List PathGroup)
    → 0 < length paths
    → All (HasName h) paths
    → (pg' : List PathGroup) × (policy h paths pg [] ≡ (some pg', []))

store_path-some :
    (h : Heap) (v : List ℕ) (a : ℕ) → HasName h a → store_path h v a [] ≡ (some (v ++ a ∷ []), [])
unfolding store_path
store_path-some h v a e = rw e refl

collect-some :
    (h : Heap) (f : Match) (pp : ℕ) (paths : List ℕ) (bits : List Bool) (g : List ℕ)
    → All (HasName h) paths
    → (r : List ℕ × List Bool) × (collect h f pp paths bits g [] ≡ (some r, []))
unfolding collect
collect-some h f pp [] bits g n = ((g, bits), refl)
collect-some h f pp (a ∷ paths) [] g n = ((g, []), refl)
collect-some h f pp (a ∷ paths) (b ∷ bits) g (n, ns) =
    elim (Bool-cases (b || not (f (h pp) (h a)))) [
      | inl t ↦ let (r, e) = collect-some h f pp paths bits g ns in ((r.0, b ∷ r.1), rw (t, e) refl)
      | inr t ↦
          let (r, e) = collect-some h f pp paths bits (g ++ a ∷ []) ns in
          ((r.0, true ∷ r.1), rw (t, store_path-some h g a n, e) refl)
    ]

match_loop-some :
    (h : Heap) (f : Match) (paths : List ℕ) (bits : List Bool) (pg : List PathGroup)
    → All (HasName h) paths
    → (r : List PathGroup) × (match_loop h f paths bits pg [] ≡ (some r, []))
unfolding match_loop add_pathgroup
match_loop-some h f [] bits pg n = (pg, refl)
match_loop-some h f (pp ∷ paths) [] pg n = (pg, refl)
match_loop-some h f (pp ∷ paths) (true ∷ bits) pg (n, ns) = match_loop-some h f paths bits pg ns
match_loop-some h f (pp ∷ paths) (false ∷ bits) pg (n, ns) =
    let (r, e) = collect-some h f pp paths bits (pp ∷ []) ns in
    let (s, k) =
      match_loop-some h f paths r.1 (pg ++ record new_pathgroup { paths = r.0 } ∷ []) ns in
    (s, rw (store_path-some h [] pp n, e) k)

group_by_match-Succeeds : (f : Match) → Succeeds (λ h. group_by_match h f)
unfolding group_by_match
group_by_match-Succeeds f h [] pg l n = absurd (omega arith)
group_by_match-Succeeds f h (a ∷ rest) pg l n =
    match_loop-some h f (a ∷ rest) (zeros (a ∷ rest)) pg n

one_path_per_group-some :
    (h : Heap) (paths : List ℕ) (pg : List PathGroup)
    → All (HasName h) paths
    → (r : List PathGroup) × (one_path_per_group h paths pg [] ≡ (some r, []))
unfolding one_path_per_group add_pathgroup
one_path_per_group-some h [] pg n = (pg, refl)
one_path_per_group-some h (a ∷ paths) pg (n, ns) =
    let (s, k) =
      one_path_per_group-some h paths (pg ++ record new_pathgroup { paths = a ∷ [] } ∷ []) ns in
    (s, rw (store_path-some h [] a n) k)

store_all-some :
    (h : Heap) (g paths : List ℕ)
    → All (HasName h) paths
    → (r : List ℕ) × (store_all h g paths [] ≡ (some r, []))
unfolding store_all
store_all-some h g [] n = (g, refl)
store_all-some h g (a ∷ paths) (n, ns) =
    let (r, e) = store_all-some h (g ++ a ∷ []) paths ns in (r, rw (store_path-some h g a n) e)

one_group-Succeeds : Succeeds one_group
unfolding one_group add_pathgroup
one_group-Succeeds h paths pg l n =
    let (r, e) = store_all-some h [] paths n in
    (pg ++ record new_pathgroup { paths = r } ∷ [], rw e refl)

some_eq {ℓ} : {A : Type ℓ} {a b : A} → some a ≡ some b → a ≡ b
some_eq {a} p = ap (λ o. or_same o a) p

policy_fn-Succeeds :
    (id : PgPolicyId) (policy : PgPolicy) → policy_fn id ≡ some policy → Succeeds policy
unfolding policy_fn
policy_fn-Succeeds iopolicy_undef policy e = absurd (ground arith)
policy_fn-Succeeds failover policy e =
    subst Succeeds (some_eq e) (λ h paths pg l n. one_path_per_group-some h paths pg n)
policy_fn-Succeeds multibus policy e = subst Succeeds (some_eq e) one_group-Succeeds
policy_fn-Succeeds group_by_serial policy e =
    subst Succeeds (some_eq e) (group_by_match-Succeeds serials_match)
policy_fn-Succeeds group_by_prio policy e =
    subst Succeeds (some_eq e) (group_by_match-Succeeds prios_match)
policy_fn-Succeeds group_by_node_name policy e =
    subst Succeeds (some_eq e) (group_by_match-Succeeds node_names_match)
policy_fn-Succeeds group_by_tpg policy e =
    subst Succeeds (some_eq e) (group_by_match-Succeeds tpg_match)

write_pgindex-HasName :
    (h : Heap) (a b : ℕ) → HasName h b → HasName (write h a (record (h a) { pgindex = 0 })) b
write_pgindex-HasName h a b n = elim (Bool-cases (b == a)) [
  | inl e ↦ rw e (subst (HasName h) (==→eq b a e) n)
  | inr e ↦ rw e n
]

reset_pgindex-HasName :
    (h : Heap) (paths : List ℕ) (b : ℕ) → HasName h b → HasName (reset_pgindex h paths) b
unfolding reset_pgindex
reset_pgindex-HasName h [] b n = n
reset_pgindex-HasName h (a ∷ paths) b n =
    reset_pgindex-HasName (write h a (record (h a) { pgindex = 0 })) paths b
      (write_pgindex-HasName h a b n)

drop_head : (b c d : Bool) → b ≡ false → ((b || c) || d) ≡ true → (c || d) ≡ true
drop_head false c d e f = f
drop_head true c d e f = absurd (ground arith)

grown : (c : Bool) (l : List ℕ) (a : ℕ) → (c || ltb 0 (length (l ++ a ∷ []))) ≡ true
grown true l a = refl
grown false [] a = refl
grown false (b ∷ l) a = lt→ltb 0 (length (b ∷ l ++ a ∷ [])) (omega arith)

-- The two lists get what they had and the paths; a list is not empty, if there is a path for it or it
-- was not empty.
split_loop-some :
    (h : Heap) (paths normal marginal : List ℕ)
    → All (HasName h) paths
    → All (HasName h) normal
    → All (HasName h) marginal
    → (any_path h (λ p. not p.marginal) paths || ltb 0 (length normal)) ≡ true
    → (any_path h (λ p. p.marginal) paths || ltb 0 (length marginal)) ≡ true
    → (r : List ℕ × List ℕ) × (split_loop h paths normal marginal [] ≡ (some r, []))
      × (All (HasName h) r.0 × All (HasName h) r.1)
      × ((0 < length r.0) × (0 < length r.1))
unfolding split_loop
split_loop-some h [] normal marginal n x y p q =
    ((normal, marginal), refl, (x, y), (ltb→lt 0 (length normal) p, ltb→lt 0 (length marginal) q))
split_loop-some h (a ∷ paths) normal marginal (n, ns) x y p q = elim (Bool-cases (h a).marginal) [
  | inl t ↦
      let (r, e, named, filled) =
        split_loop-some h paths normal (marginal ++ a ∷ []) ns x
          (All-append (HasName h) marginal (a ∷ []) y (n, tt))
          (drop_head (not (h a).marginal) _ _ (ap not t) p) (grown _ marginal a) in
      (r, rw (t, store_path-some h marginal a n) e, named, filled)
  | inr t ↦
      let (r, e, named, filled) =
        split_loop-some h paths (normal ++ a ∷ []) marginal ns
          (All-append (HasName h) normal (a ∷ []) x (n, tt)) y (grown _ normal a)
          (drop_head (h a).marginal _ _ t q) in
      (r, rw (t, store_path-some h normal a n) e, named, filled)
]

and_parts : (a b : Bool) → (a && b) ≡ true → ((a || false) ≡ true) × ((b || false) ≡ true)
and_parts true true e = (refl, refl)
and_parts a b e = absurd (ground arith)

-- Paths that are not of both kinds are not split.
group_split-Succeeds : (policy : PgPolicy) → Succeeds policy → Succeeds (group_split policy)
unfolding group_split split_marginal_paths
group_split-Succeeds policy f h paths pg l n =
    elim (Bool-cases
      (any_path h (λ p. p.marginal) paths && any_path h (λ p. not p.marginal) paths)) [
        | inr t ↦ let (groups, k) = f h paths pg l n in (groups, rw t k)
        | inl t ↦
            let (m, o) =
              and_parts (any_path h (λ p. p.marginal) paths)
                (any_path h (λ p. not p.marginal) paths) t in
            let (r, e, named, filled) = split_loop-some h paths [] [] n tt tt o m in
            let (first, u) = f h r.0 pg filled.0 named.0 in
            let (groups, v) = f h r.1 first filled.1 named.1 in (groups, rw (t, e, u) v)
      ]

regroup_succeeds :
    (id : PgPolicyId) (policy : PgPolicy) (b : Bool) (h : Heap) (a : ℕ) (rest : List ℕ)
    (pg : List PathGroup)
    → policy_fn id ≡ some policy
    → All (HasName h) (a ∷ rest)
    → (r : Heap × List PathGroup) × (regroup (some policy) b h (a ∷ rest) pg [] ≡ (some r, []))
unfolding regroup
regroup_succeeds id policy b h a rest pg e n =
    let h' = reset_pgindex h (a ∷ rest) in
    let named =
      All-mono (HasName h) (HasName h') (reset_pgindex-HasName h (a ∷ rest)) (a ∷ rest) n in
    let f = policy_fn-Succeeds id policy e in
    elim (Bool-cases b) [
      | inl t ↦
          let (groups, k) = group_split-Succeeds policy f h' (a ∷ rest) pg (omega arith) named in
          ((h', sort_pathgroups h' groups), rw (t, k) refl)
      | inr t ↦
          let (groups, k) = f h' (a ∷ rest) pg (omega arith) named in
          ((h', sort_pathgroups h' groups), rw (t, k) refl)
    ]

-- With enough memory `group_paths` succeeds on a map that has paths, whether it has a group vector or
-- none, whether marginal paths get groups of their own or not, and for each of the six policies, if
-- every path has a device number or a name.
pub group_paths_succeeds :
    (id : PgPolicyId) (policy : PgPolicy) (marginal_pathgroups : Bool) (h : Heap) (a : ℕ)
    (rest : List ℕ) (old : Option (List PathGroup))
    → policy_fn id ≡ some policy
    → All (HasName h) (a ∷ rest)
    → (r : Heap × List PathGroup) × (group_paths
          (some policy)
          marginal_pathgroups
          h
          (a ∷ rest)
          old
          []
        ≡ (some r, []))
unfolding group_paths
group_paths_succeeds id policy b h a rest none e n = regroup_succeeds id policy b h a rest [] e n
group_paths_succeeds id policy b h a rest (some pg) e n =
    regroup_succeeds id policy b h a rest pg e n
