-- ===== src/Dmparser/Unharmed.antt =====
-- libmultipath/dmparser.c: what `disassemble_status` does not touch, whatever the line is, and that it stays in bounds.
use multipath_tools.Base.{
  ltb, ◌==◌, if◌then◌else◌, ==→eq, tests, Bool-cases, length, All, ℤ, pos, pos_part, eqb_ℤ, ℕ, zero,
  suc, ◌≤◌, ◌≡◌, refl, sym, ap, ◌∙◌, inl, inr, Bool, true, false, Option, none, some, List, [], ◌∷◌,
  arith,
}
use multipath_tools.Base.Text.{Text}
use multipath_tools.Structs.{DmState, PathInfo, Heap, write, PathGroup}
use multipath_tools.Dmparser.{get_word, skip_words}
use multipath_tools.Dmparser.Disassemble.{atoi}
use multipath_tools.Dmparser.Status.{
  Outcome, accepted, rejected, out_of_bounds, Going, with_word, behind, first_letter, pg_status,
  path_dmstate, set_dmstate, set_failcount, status_path, go_on, status_paths, status_counts, Told,
  tell_group, status_groups, status_features, status_handler, disassemble_status,
}

abbrev pub is_inside : Outcome → Bool
is_inside accepted = true
is_inside rejected = true
is_inside out_of_bounds = false

-- The paths are as before but for what a status line tells, and those outside a set are as before.
abbrev pub SamePaths : (ℕ → Bool) → Heap → Heap → Type 0
SamePaths s h k =
    (a : ℕ)
    → (k a ≡ record (h a) { dmstate = (k a).dmstate; failcount = (k a).failcount })
      × (s a ≡ false → k a ≡ h a)

abbrev pub SameGroups : List PathGroup → List PathGroup → Type 0
SameGroups [] [] = Unit
SameGroups [] (d ∷ cpg) = ⊥
SameGroups (c ∷ pg) [] = ⊥
SameGroups (c ∷ pg) (d ∷ cpg) = (d ≡ record c { status = d.status }) × SameGroups pg cpg

SameGroups-refl : (pg : List PathGroup) → SameGroups pg pg
SameGroups-refl [] = tt
SameGroups-refl (g ∷ pg) = (refl, SameGroups-refl pg)

word_case :
    {B : Type 0} (P : B → Type 0) (o : Option Text) (b : B) (f : Text → B)
    → P b
    → ((w : Text) → P (f w))
    → P (with_word o b f)
word_case P none b f x y = x
word_case P (some w) b f x y = y w

if_case :
    {B : Type 0} (P : B → Type 0) (t : Bool) (x y : B)
    → P x
    → (t ≡ false → P y)
    → P (if t then x else y)
if_case P true x y u v = u
if_case P false x y u v = v refl

not_both : {A : Type 0} (b : Bool) → b ≡ true → b ≡ false → A
not_both b e f = absurd (ground arith)

enough : (l n : ℕ) → ltb l n ≡ false → n ≤ l
enough l n e = grind (arith, tests)

-- The path is in the set.
abbrev pub Holds : (ℕ → Bool) → ℕ → Type 0
Holds s a = s a ≡ true

abbrev pub HoldsAll : (ℕ → Bool) → PathGroup → Type 0
HoldsAll s g = All (Holds s) g.paths

module _ (s : ℕ → Bool) where
  SamePaths-refl : (h : Heap) → SamePaths s h h
  SamePaths-refl h a = (refl, λ _. refl)

  SamePaths-trans : (h k l : Heap) → SamePaths s h k → SamePaths s k l → SamePaths s h l
  SamePaths-trans h k l x y a = (
    (y a).0
        ∙ ap (λ (p : PathInfo). record p { dmstate = (l a).dmstate; failcount = (l a).failcount })
            (x a).0,
    λ e. (y a).1 e ∙ (x a).1 e,
  )

  SamePaths-write :
      (h : Heap) (a : ℕ) (d : DmState) (n : ℤ)
      → s a ≡ true
      → SamePaths s h (write h a (record (h a) { dmstate = d; failcount = n }))
  SamePaths-write h a d n m b = elim (Bool-cases (b == a)) [
    | inl e ↦
        let same = ==→eq b a e in
        rw e (
          ap (λ c. record (h c) { dmstate = d; failcount = n }) (sym same),
          λ f. not_both (s b) (ap s same ∙ m) f,
        )
    | inr e ↦ rw e (refl, λ _. refl)
  ]

  -- What a part leaves of the paths, without going out of bounds.
  abbrev Kept : Heap → Going → Type 0
  Kept h r = SamePaths s h r.1 × (is_inside r.0 ≡ true)

  abbrev IsUnharmed : List PathGroup → Heap → Told → Type 0
  IsUnharmed pg h r = SamePaths s h r.1 × SameGroups pg r.2 × (is_inside r.0 ≡ true)

  status_path-Kept :
      (args a : ℕ) (h : Heap) (p : Text) → s a ≡ true → Kept h (status_path args a h p)
  unfolding status_path
  status_path-Kept args a h p m =
      word_case (Kept h) (get_word (skip_words 1 p)).0 _ _ (SamePaths-refl h, refl)
        λ w.
          let h1 = set_dmstate a w h in
          let r =
            SamePaths-write h a (path_dmstate (first_letter w) (h a).dmstate) (h a).failcount m in
          word_case (Kept h) (get_word (behind (skip_words 1 p))).0 _ _ (r, refl)
            λ v. (
              SamePaths-trans h h1 (set_failcount a v h1) r
                  (SamePaths-write h1 a (h1 a).dmstate (atoi v) m),
              refl,
            )

  go_on-Kept : (h : Heap) (r rest : Going) → Kept h r → Kept r.1 rest → Kept h (go_on r rest)
  go_on-Kept h (accepted, k, p) rest (x, i) (y, j) = (SamePaths-trans h k rest.1 x y, j)
  go_on-Kept h (rejected, k, p) rest x y = x
  go_on-Kept h (out_of_bounds, k, p) rest x y = x

  status_paths-Kept :
      (args n : ℕ) (paths : List ℕ) (h : Heap) (p : Text)
      → n ≤ length paths
      → All (Holds s) paths
      → Kept h (status_paths args n paths h p)
  status_paths-Kept args zero paths h p l m = (SamePaths-refl h, refl)
  status_paths-Kept args (suc n) [] h p l m = absurd (omega arith)
  status_paths-Kept args (suc n) (a ∷ paths) h p l (m, ms) =
      let r : Going = status_path args a h p in
      go_on-Kept h r (status_paths args n paths r.1 r.2) (status_path-Kept args a h p m)
        (status_paths-Kept args n paths r.1 r.2 (omega arith) ms)

  status_counts-Kept :
      (paths : List ℕ) (h : Heap) (p : Text)
      → All (Holds s) paths
      → Kept h (status_counts paths h p)
  unfolding status_counts
  status_counts-Kept paths h p m =
      word_case (Kept h) (get_word p).0 _ _ (SamePaths-refl h, refl)
        λ a.
          let p1 = skip_words (pos_part (atoi a)) (behind p) in
          word_case (Kept h) (get_word p1).0 _ _ (SamePaths-refl h, refl)
            λ b.
              let p2 = behind p1 in
              let n = pos_part (atoi b) in
              word_case (Kept h) (get_word p2).0 _ _ (SamePaths-refl h, refl)
                λ c.
                  if_case (Kept h) (ltb (length paths) n) (rejected, h, behind p2) _
                    (SamePaths-refl h, refl)
                    λ e.
                      status_paths-Kept (pos_part (atoi c)) n paths h (behind p2)
                        (enough (length paths) n e) m

  unharmed : (pg : List PathGroup) (h : Heap) → IsUnharmed pg h (rejected, h, pg)
  unharmed pg h = (SamePaths-refl h, SameGroups-refl pg, refl)

  tell_group-IsUnharmed :
      (g g' : PathGroup) (pg : List PathGroup) (h : Heap) (r : Going) (rest : Heap → Text → Told)
      → g' ≡ record g { status = g'.status }
      → Kept h r
      → ((k : Heap) (p : Text) → IsUnharmed pg k (rest k p))
      → IsUnharmed (g ∷ pg) h (tell_group g' pg r rest)
  tell_group-IsUnharmed g g' pg h (accepted, k, p) rest e (x, i) f =
      let (y, z, j) = f k p in (SamePaths-trans h k (rest k p).1 x y, (e, z), j)
  tell_group-IsUnharmed g g' pg h (rejected, k, p) rest e (x, i) f = (x, (e, SameGroups-refl pg), i)
  tell_group-IsUnharmed g g' pg h (out_of_bounds, k, p) rest e (x, i) f =
      (x, (e, SameGroups-refl pg), i)

  status_groups-IsUnharmed :
      (n : ℕ) (pg : List PathGroup) (h : Heap) (p : Text)
      → n ≤ length pg
      → All (HoldsAll s) pg
      → IsUnharmed pg h (status_groups n pg h p)
  unfolding status_groups
  status_groups-IsUnharmed zero pg h p l m = (SamePaths-refl h, SameGroups-refl pg, refl)
  status_groups-IsUnharmed (suc n) [] h p l m = absurd (omega arith)
  status_groups-IsUnharmed (suc n) (g ∷ pg) h p l (m, ms) =
      word_case (IsUnharmed (g ∷ pg) h) (get_word p).0 _ _ (unharmed (g ∷ pg) h) λ w.
        tell_group-IsUnharmed g (record g { status = pg_status (first_letter w) }) pg h
          (status_counts g.paths h (behind p)) (status_groups n pg) refl
          (status_counts-Kept g.paths h (behind p) m)
          λ k q. status_groups-IsUnharmed n pg k q (omega arith) ms

  status_handler-IsUnharmed :
      (pg : List PathGroup) (h : Heap) (p : Text)
      → All (HoldsAll s) pg
      → IsUnharmed pg h (status_handler pg h p)
  status_handler-IsUnharmed pg h p m =
      let P : Told → Type 0 = IsUnharmed pg h in
      let u = unharmed pg h in
      word_case P (get_word p).0 _ _ u λ v.
        let p1 = skip_words (pos_part (atoi v)) (behind p) in
        word_case P (get_word p1).0 _ _ u λ x.
          if_case P (eqb_ℤ (atoi x) (pos 0)) (accepted, h, pg) _
            (SamePaths-refl h, SameGroups-refl pg, refl)
            λ z.
              if_case P (ltb (length pg) (pos_part (atoi x))) (rejected, h, pg) _ u
                λ e.
                  status_groups-IsUnharmed (pos_part (atoi x)) pg h (skip_words 1 (behind p1))
                    (enough (length pg) (pos_part (atoi x)) e) m

-- Whatever the status line is, and whether `disassemble_status` accepts it or not, it uses no slot that
-- a vector does not have. Of the paths it changes nothing but the states in the kernel and the fail
-- counts, and nothing at all of a path that no group has; and of the groups nothing but their states,
-- so each group has the paths that it had. The set `s` is any that holds the paths of the groups. What
-- it makes of the number of queued I/Os is not stated.
pub disassemble_status-IsUnharmed :
    (s : ℕ → Bool) (params : Text) (queuedio : ℤ) (pg : List PathGroup) (h : Heap)
    → All (HoldsAll s) pg
    → let told = (disassemble_status params queuedio pg h).1 in
      SamePaths s h told.1 × SameGroups pg told.2 × (is_inside told.0 ≡ true)
unfolding disassemble_status
disassemble_status-IsUnharmed s params queuedio pg h m =
    let u = unharmed s pg h in
    word_case (λ (r : ℤ × Told). IsUnharmed s pg h r.1) (get_word params).0 _ _ u
      λ w.
        let r = status_features (pos_part (atoi w)) queuedio (behind params) in
        word_case (IsUnharmed s pg h) r.1 _ _ u λ p. status_handler-IsUnharmed s pg h p m
