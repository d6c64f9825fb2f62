-- ===== src/Tests/Vectors.antt =====
-- Vectors, and the theorems at work on them.
use multipath_tools.Vector.Shift.{vector_del_slot_lem, filled, vector_insert_slot_lem}
use multipath_tools.Vector.{vector_del_slot, vector_insert_slot}
use multipath_tools.Base.{ℕ, ◌≡◌, true, some, [], ◌∷◌}

delete_second : vector_del_slot {A = ℕ} (1 ∷ 2 ∷ 3 ∷ []) 1 ≡ 1 ∷ 3 ∷ []
delete_second = vector_del_slot_lem (1 ∷ []) 2 (3 ∷ [])

insert_second :
    vector_insert_slot {A = ℕ} true (filled (1 ∷ 2 ∷ [])) 1 3 ≡ some (filled (1 ∷ 3 ∷ 2 ∷ []))
insert_second = vector_insert_slot_lem (1 ∷ []) (2 ∷ []) 3
