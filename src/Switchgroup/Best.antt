-- ===== src/Switchgroup/Best.antt =====
-- What `select_path_group` chooses.
use multipath_tools.Base.{
  ltb, Bool-cases, length, get_elem?, length-append, All, get_elem?-append, All-append, All-mono,
  ◌<ℤ◌, ℕ, zero, suc, ◌≤◌, ◌≡◌, refl, ◌∙◌, ◌⊎◌, inl, inr, Bool, true, false, not, ◌&&◌, ◌||◌, some,
  List, [], ◌∷◌, ◌++◌, map, append-nil, append_assoc, arith,
}
use multipath_tools.Structs.{Heap, PathGroup}
use multipath_tools.Switchgroup.{
  path_group_prio_update, Choice, no_choice, take_group, select_step, select_groups,
  select_path_group,
}

-- A group that is not marginal and has a path to use.
abbrev pub is_normal : PathGroup → Bool
is_normal g = not g.marginal && ltb 0 g.enabled_paths

abbrev pub any_normal : List PathGroup → Bool
any_normal [] = false
any_normal (g ∷ gs) = is_normal g || any_normal gs

-- `g` is at least as good as `x`: a higher priority, or the same and no fewer usable paths.
abbrev pub AtLeast : PathGroup → PathGroup → Type 0
AtLeast g x =
    (x.priority <ℤ g.priority) ⊎ ((x.priority ≡ g.priority) × (x.enabled_paths ≤ g.enabled_paths))

abbrev pub Bounded : PathGroup → PathGroup → Type 0
Bounded g x = is_normal x ≡ true → AtLeast g x

-- The group that the choice names, among those seen.
pub record Picks (gs : List PathGroup) (c : Choice) : Type 0 where
  pub group : PathGroup
  pub index : ℕ
  pub at : get_elem? gs index ≡ some group
  pub named : c.bestpg ≡ suc index
  pub normal : is_normal group ≡ true
  pub priority_eq : group.priority ≡ c.max_priority
  pub enabled_eq : group.enabled_paths ≡ c.max_enabled_paths
  pub best : All (Bounded group) gs

abbrev Seen : List PathGroup → Choice → Type 0
Seen gs c =
    ((c.normal_pgp ≡ false) × (any_normal gs ≡ false)) ⊎ ((c.normal_pgp ≡ true) × Picks gs c)

AtLeast-trans : (a b x : PathGroup) → AtLeast a b → AtLeast b x → AtLeast a x
AtLeast-trans a b x h k = ground arith

get_elem?-append_left :
    (gs : List PathGroup) (g x : PathGroup) (i : ℕ)
    → get_elem? gs i ≡ some x
    → get_elem? (gs ++ g ∷ []) i ≡ some x
get_elem?-append_left [] g x i h = cc
get_elem?-append_left (y ∷ gs) g x zero h = h
get_elem?-append_left (y ∷ gs) g x (suc i) h = get_elem?-append_left gs g x i h

any_normal-append :
    (gs : List PathGroup) (g : PathGroup)
    → any_normal gs ≡ false
    → any_normal (gs ++ g ∷ []) ≡ is_normal g
any_normal-append [] g h = ground arith
any_normal-append (x ∷ gs) g h = ground (arith, any_normal-append gs g)

no_normal-All : (g : PathGroup) (gs : List PathGroup) → any_normal gs ≡ false → All (Bounded g) gs
no_normal-All g [] h = tt
no_normal-All g (x ∷ gs) h = ground (arith, no_normal-All g gs)

-- One round before a normal group has been seen.
step_before :
    (i : ℕ) (g : PathGroup) (c : Choice)
    → c.normal_pgp ≡ false
    → is_normal g ≡ false
    → (select_step i g c).normal_pgp ≡ false
unfolding select_step
step_before i g c h n = ground arith

step_first :
    (i : ℕ) (g : PathGroup) (c : Choice)
    → c.normal_pgp ≡ false
    → is_normal g ≡ true
    → select_step i g c ≡ record (take_group i g c) { normal_pgp = true }
unfolding select_step
step_first i g c h n = ground arith

-- One round after: the choice stays, or goes over to a normal group that is better.
step_after :
    (i : ℕ) (g x : PathGroup) (c : Choice)
    → c.normal_pgp ≡ true
    → x.priority ≡ c.max_priority
    → x.enabled_paths ≡ c.max_enabled_paths
    → ((select_step i g c ≡ c) × Bounded x g)
      ⊎ ((select_step i g c ≡ take_group i g c) × (is_normal g ≡ true) × AtLeast g x)
unfolding select_step
step_after i g x c h p e = ground arith

AtLeast-refl : (g : PathGroup) → AtLeast g g
AtLeast-refl g = inr (refl, omega arith)

take-Picks :
    (gs : List PathGroup) (g : PathGroup) (c : Choice)
    → is_normal g ≡ true
    → All (Bounded g) gs
    → Picks (gs ++ g ∷ []) (take_group (length gs) g c)
take-Picks gs g c n b = record {
  group = g;
  index = length gs;
  at = get_elem?-append gs [] g;
  named = refl;
  normal = n;
  priority_eq = refl;
  enabled_eq = refl;
  best = All-append (Bounded g) gs (g ∷ []) b ((λ _. AtLeast-refl g), tt);
}

keep-Picks :
    (gs : List PathGroup) (g : PathGroup) (c : Choice) (p : Picks gs c)
    → Bounded p.group g
    → Picks (gs ++ g ∷ []) c
keep-Picks gs g c p b = record {
  group = p.group;
  index = p.index;
  at = get_elem?-append_left gs g p.group p.index p.at;
  named = p.named;
  normal = p.normal;
  priority_eq = p.priority_eq;
  enabled_eq = p.enabled_eq;
  best = All-append (Bounded p.group) gs (g ∷ []) p.best (b, tt);
}

step_after-Seen :
    (gs : List PathGroup) (g : PathGroup) (c : Choice)
    → c.normal_pgp ≡ true
    → Picks gs c
    → Seen (gs ++ g ∷ []) (select_step (length gs) g c)
step_after-Seen gs g c h p =
    elim (step_after (length gs) g p.group c h p.priority_eq p.enabled_eq) [
      | inl (e, b) ↦ rw e (inr (h, keep-Picks gs g c p b))
      | inr (e, n, b) ↦ rw e (
          inr (
            h,
            take-Picks gs g c n (
                All-mono (Bounded p.group) (Bounded g) (λ x k m. AtLeast-trans g p.group x b (k m))
                  gs p.best),
          ))
    ]

step-Seen :
    (gs : List PathGroup) (g : PathGroup) (c : Choice)
    → Seen gs c
    → Seen (gs ++ g ∷ []) (select_step (length gs) g c)
step-Seen gs g c (inl (h, n)) = elim (Bool-cases (is_normal g)) [
  | inl e ↦
      rw (step_first (length gs) g c h e)
        (inr (refl, take-Picks gs g (record c { normal_pgp = true }) e (no_normal-All g gs n)))
  | inr e ↦ inl (step_before (length gs) g c h e, any_normal-append gs g n ∙ e)
]
step-Seen gs g c (inr (h, p)) = step_after-Seen gs g c h p

select_groups-Seen :
    (gs rest : List PathGroup) (i : ℕ) (c : Choice)
    → length gs ≡ i
    → Seen gs c
    → Seen (gs ++ rest) (select_groups i rest c)
unfolding select_groups
select_groups-Seen gs [] i c e s = rw append-nil s
select_groups-Seen gs (g ∷ rest) i c e s = rw append_assoc at (
    select_groups-Seen (gs ++ g ∷ []) rest (suc i) (select_step i g c)
      (omega (arith, length-append gs (g ∷ []))) (rw e at (step-Seen gs g c s)))

Seen-Picks : (gs : List PathGroup) (c : Choice) → any_normal gs ≡ true → Seen gs c → Picks gs c
Seen-Picks gs c n (inl (h, m)) = cc
Seen-Picks gs c n (inr (h, p)) = p

-- If some group is normal, the number that `select_path_group` returns names a group, of the groups as
-- it has refreshed them, that is normal and at least as good as every normal group.
pub select_path_group_best :
    (h : Heap) (gs : List PathGroup)
    → let gs' = map (path_group_prio_update h) gs in
      any_normal gs' ≡ true
      → (i : ℕ) × (g : PathGroup) × ((select_path_group h (some gs)).0 ≡ suc i)
        × (get_elem? gs' i ≡ some g)
        × (is_normal g ≡ true)
        × All (Bounded g) gs'
unfolding select_path_group
select_path_group_best h gs n =
    let gs' = map (path_group_prio_update h) gs in
    let p =
      Seen-Picks gs' (select_groups 0 gs' no_choice) n
        (select_groups-Seen [] gs' 0 no_choice refl (inl (refl, refl))) in
    (p.index, p.group, p.named, p.at, p.normal, p.best)
