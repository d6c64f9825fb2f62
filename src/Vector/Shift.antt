-- ===== src/Vector/Shift.antt =====
-- The loops of the vector operations, stated on a vector that is split at the places they touch.
use multipath_tools.Base.{
  ltb, leb, ◌==◌, length, get_elem?, set, take, length-append, get_elem?-append, set-append, ℕ,
  zero, suc, ◌+◌, ◌-◌, ◌≡◌, refl, sym, ap, ◌∙◌, true, false, ◌||◌, Option, none, some, List, [],
  ◌∷◌, ◌++◌, map, append-nil, append_assoc, arith,
}
use multipath_tools.Vector.{
  copy_slot, shift_up, shift_down, vector_move_up, vector_alloc_slot, vector_set_slot,
  vector_del_slot, vector_insert_slot,
}

module _ {ℓ} {A : Type ℓ} where
  abbrev rev_append : List A → List A → List A
  rev_append [] c = c
  rev_append (w ∷ r) c = rev_append r (w ∷ c)

  rev_append_twice : (b r c : List A) → rev_append (rev_append b r) c ≡ rev_append r (b ++ c)
  rev_append_twice [] r c = refl
  rev_append_twice (x ∷ b) r c = rev_append_twice b (x ∷ r) c

  length-rev_append : (r c : List A) → length (rev_append r c) ≡ length r + length c
  length-rev_append [] c = omega arith
  length-rev_append (w ∷ r) c = omega (arith, length-rev_append r (w ∷ c))

  rev_append-split : (r c : List A) → rev_append r c ≡ rev_append r [] ++ c
  rev_append-split [] c = refl
  rev_append-split (w ∷ r) c =
      rev_append-split r (w ∷ c)
      ∙ sym (
          ap (λ l. l ++ c) (rev_append-split r (w ∷ []))
          ∙ append_assoc (rev_append r []) (w ∷ []) c)

  set-append_next :
      (p c : List A) (w y v : A) → set (p ++ w ∷ y ∷ c) (suc (length p)) v ≡ p ++ w ∷ v ∷ c
  set-append_next [] c w y v = refl
  set-append_next (x ∷ p) c w y v = ap (◌∷◌ x) (set-append_next p c w y v)

  copy_slot-up :
      (p : List A) (w y : A) (c : List A) (i : ℕ)
      → length p ≡ i
      → copy_slot (p ++ w ∷ y ∷ c) i (suc i) ≡ p ++ w ∷ w ∷ c
  unfolding copy_slot
  copy_slot-up p w y c i e =
      rw (← e) (rw (get_elem?-append p (y ∷ c) w, copy_slot) (set-append_next p c w y w))

  copy_slot-up_rev :
      (a r : List A) (w y : A) (c : List A) (i : ℕ)
      → length a + length r ≡ i
      → copy_slot (a ++ rev_append r (w ∷ y ∷ c)) i (suc i) ≡ a ++ rev_append r (w ∷ w ∷ c)
  copy_slot-up_rev a r w y c i e =
      rw (rev_append-split r (w ∷ y ∷ c), rev_append-split r (w ∷ w ∷ c))
        (rw
          (
            ← append_assoc a (rev_append r []) (w ∷ y ∷ c),
            ← append_assoc a (rev_append r []) (w ∷ w ∷ c),
          )
          (copy_slot-up (a ++ rev_append r []) w y c i
            (omega (arith, length-append a (rev_append r []), length-rev_append r []))))

  shift_up_rev :
      (a r : List A) (y : A) (c : List A) (d k : ℕ)
      → length a ≡ d
      → length r ≡ k
      → (y' : A) × (shift_up (a ++ rev_append r (y ∷ c)) d k ≡ a ++ y' ∷ rev_append r c)
  unfolding shift_up
  shift_up_rev a [] y c d zero e f = (y, refl)
  shift_up_rev a [] y c d (suc k) e f = absurd (omega arith)
  shift_up_rev a (w ∷ r) y c d zero e f = absurd (omega arith)
  shift_up_rev a (w ∷ r) y c d (suc k) e f =
      let (y', q) = shift_up_rev a r w (w ∷ c) d k e (omega arith) in
      (y', rw (copy_slot-up_rev a r w y c (d + k) (omega arith)) q)

  -- The block `b` moves up by one place, over `y`.
  shift_up-append :
      (a b : List A) (y : A) (c : List A) (d k : ℕ)
      → length a ≡ d
      → length b ≡ k
      → (y' : A) × (shift_up (a ++ (b ++ y ∷ c)) d k ≡ a ++ y' ∷ (b ++ c))
  shift_up-append a b y c d k e f =
      let (y', q) =
        shift_up_rev a (rev_append b []) y c d k e (omega (arith, length-rev_append b [])) in
      (y', rw (rev_append_twice b [] (y ∷ c), rev_append_twice b [] c) at q)

  get_elem?-middle :
      (a b : List A) (x : A) (c : List A)
      → get_elem? (a ++ (b ++ x ∷ c)) (length a + length b) ≡ some x
  get_elem?-middle a b x c =
      rw (← append_assoc a b (x ∷ c), ← length-append a b) (get_elem?-append (a ++ b) c x)

  -- What lies between the destination and the source moves up, and the source's value comes before it.
  pub vector_move_up_lem :
      (a b : List A) (x : A) (c : List A)
      → vector_move_up (a ++ (b ++ x ∷ c)) (length a + length b) (length a)
        ≡ some (a ++ x ∷ (b ++ c))
  unfolding vector_move_up
  vector_move_up_lem a [] x c = ground arith
  vector_move_up_lem a (w ∷ b) x c =
      let (y', q) = shift_up-append a (w ∷ b) x c (length a) (suc (length b)) refl refl in
      let k : length a + suc (length b) - length a ≡ suc (length b) = omega arith in
      let same : (length a == length a + suc (length b)) ≡ false = ground arith in
      let inside : (ltb (length a + suc (length b)) (length a)
            || leb (length (a ++ w ∷ (b ++ x ∷ c))) (length a + suc (length b)))
          ≡ false =
        ground (arith, length-append a (w ∷ (b ++ x ∷ c)), length-append b (x ∷ c)) in
      rw same (
        rw inside (
          rw (get_elem?-middle a (w ∷ b) x c, vector_move_up)
            (rw k (rw q (ap some (set-append a (w ∷ (b ++ c)) y' x))))))

  copy_slot-down :
      (a : List A) (y w : A) (b : List A) (d : ℕ)
      → length a ≡ d
      → copy_slot (a ++ y ∷ w ∷ b) (suc d) d ≡ (a ++ w ∷ []) ++ w ∷ b
  unfolding copy_slot
  copy_slot-down a y w b d e =
      let n : length a + 1 ≡ suc d = omega arith in
      let found : get_elem? (a ++ y ∷ w ∷ b) (suc d) ≡ some w =
        rw n at (get_elem?-middle a (y ∷ []) w b) in
      rw (found, copy_slot)
        (rw (← e) (set-append a (w ∷ b) y w ∙ sym (append_assoc a (w ∷ []) (w ∷ b))))

  shift_down-append :
      (a : List A) (y : A) (b : List A) (d k : ℕ)
      → length a ≡ d
      → length b ≡ k
      → (z : A) × (shift_down (a ++ y ∷ b) d k ≡ a ++ (b ++ z ∷ []))
  unfolding shift_down
  shift_down-append a y [] d zero e f = (y, refl)
  shift_down-append a y [] d (suc k) e f = absurd (omega arith)
  shift_down-append a y (w ∷ b) d zero e f = absurd (omega arith)
  shift_down-append a y (w ∷ b) d (suc k) e f =
      let (z, q) =
        shift_down-append (a ++ w ∷ []) w b (suc d) k (omega (arith, length-append a (w ∷ [])))
          (omega arith) in
      (z, rw (copy_slot-down a y w b d e) (q ∙ append_assoc a (w ∷ []) (b ++ z ∷ [])))

  take-append : (a b : List A) (n : ℕ) → length a ≡ n → take n (a ++ b) ≡ a
  take-append [] b zero e = refl
  take-append [] b (suc n) e = absurd (omega arith)
  take-append (x ∷ a) b zero e = absurd (omega arith)
  take-append (x ∷ a) b (suc n) e = ap (◌∷◌ x) (take-append a b n (omega arith))

  -- Deleting a slot closes the gap and keeps the order of the others.
  pub vector_del_slot_lem :
      (a : List A) (x : A) (b : List A) → vector_del_slot (a ++ x ∷ b) (length a) ≡ a ++ b
  unfolding vector_del_slot
  vector_del_slot_lem a x b =
      let (z, q) = shift_down-append a x b (length a) (length b) refl refl in
      let inside : leb (length (a ++ x ∷ b)) (length a) ≡ false =
        ground (arith, length-append a (x ∷ b)) in
      let n : length (a ++ x ∷ b) - 1 ≡ length a + length b =
        omega (arith, length-append a (x ∷ b)) in
      let k : length a + length b - length a ≡ length b = omega arith in
      rw inside (
        rw n (
          rw k (
            rw (q, ← append_assoc a b (z ∷ []))
              (take-append (a ++ b) (z ∷ []) (length a + length b) (length-append a b)))))

module _ {ℓ} {A : Type ℓ} where
  -- The slots of a vector that holds these pointers, none of them NULL.
  abbrev pub filled : List A → List (Option A)
  filled = map some

  length-filled : (v : List A) → length (filled v) ≡ length v
  length-filled [] = refl
  length-filled (x ∷ v) = ap suc (length-filled v)

  filled-append : (a b : List A) → filled (a ++ b) ≡ filled a ++ filled b
  filled-append [] b = refl
  filled-append (x ∷ a) b = ap (◌∷◌ (some x)) (filled-append a b)

  -- Allocating a slot and setting it appends; the two calls are how every vector here grows.
  set_slot-alloc_slot :
      (v : List A) (x : A)
      → vector_set_slot (vector_alloc_slot true (filled v)).1 x ≡ filled (v ++ x ∷ [])
  unfolding vector_set_slot vector_alloc_slot
  set_slot-alloc_slot v x =
      let n : length (filled v ++ none ∷ []) - 1 ≡ length (filled v) =
        omega (arith, length-append (filled v) (none ∷ [])) in
      rw n (set-append (filled v) [] none (some x) ∙ sym (filled-append v (x ∷ [])))

  -- An inserted value stands at its slot, and what was there or behind it moves up by one.
  pub vector_insert_slot_lem :
      (a b : List A) (x : A)
      → vector_insert_slot true (filled (a ++ b)) (length a) x ≡ some (filled (a ++ x ∷ b))
  unfolding vector_insert_slot vector_alloc_slot
  vector_insert_slot_lem a b x =
      let (y', q) =
        shift_up-append (filled a) (filled b) none [] (length a) (length b) (length-filled a)
          (length-filled b) in
      let n : length (filled a ++ (filled b ++ none ∷ [])) - 1 - length a ≡ length b = omega (
        arith,
        length-append (filled a) (filled b ++ none ∷ []),
        length-append (filled b) (none ∷ []),
        length-filled a,
        length-filled b,
      ) in
      rw (filled-append a b, append_assoc (filled a) (filled b) (none ∷ []))
        (rw n (
          rw (q, append-nil (filled b))
            (rw (← length-filled a) (
              ap some
                (set-append (filled a) (filled b) y' (some x) ∙ sym (filled-append a (x ∷ b)))))))
