-- ===== src/Tests/Aliases.antt =====
-- Aliases and bindings, and the theorems at work on them.
use multipath_tools.Base.Text.{codes}
use multipath_tools.Alias.Devname.{format_devname_fits, scan_devname-format_devname}
use multipath_tools.Alias.FreeId.{ids, IsIncreasing, IsFree, get_free_id-IsFree}
use multipath_tools.Alias.{
  format_devname, scan_devname, Binding, strcmp, alias_compar, add_binding, free_loop,
  finish_search, get_free_id,
}
use multipath_tools.Alias.Sorted.{IsOrdered, add_binding-IsOrdered}
use multipath_tools.Base.{length, ℕ, ◌≤◌, ◌≡◌, refl, Bool, true, false, some, List, [], ◌∷◌, arith}

format_devname_703 : format_devname 703 ≡ some (codes "aaa")
unfolding format_devname
format_devname_703 = refl

format_devname_fits_example : length (codes "aaa") ≤ 7
format_devname_fits_example = format_devname_fits 703 (codes "aaa") (omega arith) format_devname_703

scan_devname-format_devname_example : scan_devname (codes "mpathaaa") (codes "mpath") ≡ some 703
scan_devname-format_devname_example =
    scan_devname-format_devname 703 (codes "aaa") (codes "mpath") (omega arith) format_devname_703

-- The aliases of the numbers 1 and 3, and one with another prefix.
abbrev two_bindings : List Binding
two_bindings =
    record { alias = codes "mpatha"; wwid = codes "3600" }
    ∷ record { alias = codes "mpathc"; wwid = codes "3601" }
    ∷ record { alias = codes "storage"; wwid = codes "3602" }
    ∷ []

two_ids : ids (codes "mpath") two_bindings ≡ 1 ∷ 3 ∷ []
unfolding scan_devname
two_ids = refl

two_ids_rise : IsIncreasing 1 (ids (codes "mpath") two_bindings)
two_ids_rise = rw two_ids (omega arith, (omega arith, tt))

-- The device mapper knows no alias.
abbrev not_taken : ℕ → Bool
not_taken n = false

free_id_2 : get_free_id not_taken two_bindings (codes "mpath") ≡ some 2
unfolding get_free_id free_loop finish_search scan_devname
free_id_2 = refl

get_free_id-IsFree_example : IsFree not_taken (ids (codes "mpath") two_bindings) 2
get_free_id-IsFree_example =
    get_free_id-IsFree not_taken two_bindings (codes "mpath") 2 two_ids_rise free_id_2

two_bindings-IsOrdered : IsOrdered two_bindings
unfolding alias_compar strcmp
two_bindings-IsOrdered = (refl, (refl, tt))

add_binding-IsOrdered_example :
    IsOrdered (add_binding true two_bindings (codes "mpathb") (codes "3603")).1
add_binding-IsOrdered_example =
    add_binding-IsOrdered true two_bindings (codes "mpathb") (codes "3603") two_bindings-IsOrdered
