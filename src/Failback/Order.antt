-- ===== src/Failback/Order.antt =====
-- multipathd/main.c, `path_groups_in_order`, on groups that `sort_pathgroups` has sorted.
use multipath_tools.Base.{
  ltb, Bool-cases, length, All, All-mono, ℤ, ◌≤ℤ◌, ltb_ℤ, eqb_ℤ, ◌≡◌, refl, inl, inr, Bool, true,
  false, List, [], ◌∷◌, arith,
}
use multipath_tools.Structs.{prio_undef, Heap, PathGroup}
use multipath_tools.Pgpolicy.{stays_before, sort_pathgroups}
use multipath_tools.Pgpolicy.Sort.{IsSorted, sort_pathgroups_sorts}
use multipath_tools.Failback.{in_order, int_max, path_groups_in_order}

-- What the loop may still meet: only marginal groups if it has seen one, and no priority above the
-- last one of the same kind.
abbrev Fits : Bool → ℤ → PathGroup → Type 0
Fits true last z = (z.marginal ≡ true) × (z.priority ≤ℤ last)
Fits false last z = z.marginal ≡ false → z.priority ≤ℤ last

fits_normal :
    (g z : PathGroup)
    → g.marginal ≡ false
    → stays_before g z ≡ true
    → z.marginal ≡ false
    → z.priority ≤ℤ g.priority
fits_normal g z m h n = ground arith

fits_marginal :
    (g z : PathGroup)
    → g.marginal ≡ true
    → stays_before g z ≡ true
    → (z.marginal ≡ true) × (z.priority ≤ℤ g.priority)
fits_marginal g z m h = ground arith

not_above : (p last : ℤ) → p ≤ℤ last → ltb_ℤ last p ≡ false
not_above p last h = ground arith

in_order_sorted :
    (seen : Bool) (last : ℤ) (gs : List PathGroup)
    → IsSorted gs
    → All (Fits seen last) gs
    → in_order seen last gs ≡ true
unfolding in_order
in_order_sorted seen last [] s f = refl
in_order_sorted true last (g ∷ gs) (b, s) ((m, le), f) =
    let skipped = in_order_sorted true last gs s f in
    let further = in_order_sorted true g.priority gs s (
      All-mono (λ z. stays_before g z ≡ true) (Fits true g.priority) (λ z. fits_marginal g z m) gs
        b) in
    let no_rise : ltb_ℤ last g.priority ≡ false = not_above g.priority last le in
    rw (m, no_rise)
      (elim (Bool-cases (eqb_ℤ g.priority prio_undef)) [
        | inl e ↦ rw e skipped
        | inr e ↦ rw e further
      ])
in_order_sorted false last (g ∷ gs) (b, s) (le, f) =
    let skipped = in_order_sorted false last gs s f in
    elim (Bool-cases (eqb_ℤ g.priority prio_undef)) [
      | inl e ↦ rw e skipped
      | inr e ↦ elim (Bool-cases g.marginal) [
        | inl m ↦
            rw (e, m)
              (in_order_sorted true g.priority gs s (
                All-mono (λ z. stays_before g z ≡ true) (Fits true g.priority)
                  (λ z. fits_marginal g z m) gs b))
        | inr m ↦
            let no_rise : ltb_ℤ last g.priority ≡ false = not_above g.priority last (le m) in
            rw (e, m, no_rise)
              (in_order_sorted false g.priority gs s (
                All-mono (λ z. stays_before g z ≡ true) (Fits false g.priority)
                  (λ z. fits_normal g z m) gs b))
      ]
    ]

-- After `sort_pathgroups`, with no priority above `INT_MAX`, `path_groups_in_order` holds: a map that
-- was just sorted is not reloaded for its order.
pub path_groups_in_order-sort_pathgroups :
    (h : Heap) (pg : List PathGroup)
    → All (λ g. g.priority ≤ℤ int_max) (sort_pathgroups h pg)
    → path_groups_in_order (sort_pathgroups h pg) ≡ true
unfolding path_groups_in_order
path_groups_in_order-sort_pathgroups h pg bound =
    let gs = sort_pathgroups h pg in
    let ordered =
      in_order_sorted false int_max gs (sort_pathgroups_sorts h pg).0
        (All-mono (λ g. g.priority ≤ℤ int_max) (Fits false int_max) (λ g le m. le) gs bound) in
    elim (Bool-cases (ltb (length gs) 2)) [ inl e ↦ rw e refl | inr e ↦ rw e ordered ]
