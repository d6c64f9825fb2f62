-- ===== src/Vector.antt =====
-- libmpathutil/vector.c: a growing array of pointers. A vector is the list of its used slots, so
-- `VECTOR_SIZE` is its length; what `realloc` leaves behind the used slots is not seen by any caller.
-- Each loop that moves slots is written with its single assignments.
pub mod Shift
use multipath_tools.Base.{
  ltb, leb, ◌==◌, if◌then◌else◌, length, get_elem?, set, take, ℕ, zero, suc, ◌+◌, ◌-◌, Bool, true,
  false, ◌||◌, Option, none, some, List, [], ◌∷◌, ◌++◌,
}

module _ {ℓ} {A : Type ℓ} where
  -- `v->slot[j] = v->slot[i]`.
  unfoldable pub copy_slot : List A → ℕ → ℕ → List A
  copy_slot v i j = elim (get_elem? v i) [ none ↦ v | some x ↦ set v j x ]

  -- `for (i = d + k - 1; i >= d; i--) v->slot[i + 1] = v->slot[i];`
  unfoldable pub shift_up : List A → ℕ → ℕ → List A
  unfolding copy_slot
  shift_up v d zero = v
  shift_up v d (suc k) = shift_up (copy_slot v (d + k) (suc (d + k))) d k

  -- `for (i = d + 1; i < d + 1 + k; i++) v->slot[i - 1] = v->slot[i];`
  unfoldable pub shift_down : List A → ℕ → ℕ → List A
  unfolding copy_slot
  shift_down v d zero = v
  shift_down v d (suc k) = shift_down (copy_slot v (suc d) d) (suc d) k

  -- The new vector, or `none` for the return value -1.
  unfoldable pub vector_move_up : List A → ℕ → ℕ → Option (List A)
  unfolding shift_up
  vector_move_up v src dest =
      if dest == src
      then some v
      else if ltb src dest || leb (length v) src
      then none
      else elim (get_elem? v src) [
        | none ↦ none
        | some value ↦ some (set (shift_up v dest (src - dest)) dest value)
      ]

  -- The slot that `vector_alloc_slot` appends holds NULL until it is set.
  unfoldable pub vector_alloc_slot : Bool → List (Option A) → Bool × List (Option A)
  vector_alloc_slot false v = (false, v)
  vector_alloc_slot true v = (true, v ++ none ∷ [])

  -- The last slot is set; the callers have just allocated it.
  unfoldable pub vector_set_slot : List (Option A) → A → List (Option A)
  vector_set_slot v value = set v (length v - 1) (some value)

  -- Out of range nothing happens. If `realloc` fails the used slots are the same.
  unfoldable pub vector_del_slot : List A → ℕ → List A
  unfolding shift_down
  vector_del_slot v slot =
      if leb (length v) slot
      then v
      else take (length v - 1) (shift_down v slot (length v - 1 - slot))

  -- `==` of pointers is a parameter. `none` is the return value -1.
  unfoldable pub find_slot : (A → A → Bool) → List A → A → Option ℕ
  find_slot eq [] addr = none
  find_slot eq (x ∷ v) addr =
      let later = find_slot eq v addr in
      if eq x addr then some 0 else elim later [ none ↦ none | some i ↦ some (suc i) ]

module _ {ℓ} {A : Type ℓ} where
  -- `slot` is at most the size. The flag says whether `realloc` succeeds.
  unfoldable pub vector_insert_slot : Bool → List (Option A) → ℕ → A → Option (List (Option A))
  unfolding vector_alloc_slot shift_up
  vector_insert_slot ok v slot value =
      let (done, v') = vector_alloc_slot ok v in
      if done then some (set (shift_up v' slot (length v' - 1 - slot)) slot (some value)) else none
