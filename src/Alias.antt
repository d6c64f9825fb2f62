-- ===== src/Alias.antt =====
-- libmultipath/alias.c: user friendly names. An alias is the prefix and the letters of a number, and
-- the bindings of aliases to WWIDs are a vector sorted by alias.
pub mod Devname
pub mod FreeId
pub mod Sorted
pub mod Flipped
use multipath_tools.Base.{
  ltb, leb, ◌==◌, if◌then◌else◌, length, get_elem?, take, drop, pos, ℕ, zero, suc, ◌+◌, ◌-◌, ◌*◌,
  ◌/◌, ◌%◌, ◌<◌, ◌≡◌, refl, Bool, true, false, not, ◌&&◌, ◌||◌, Option, none, some, List, [], ◌∷◌,
  ◌++◌,
}
use multipath_tools.Base.Text.{Text, codes, str_eq, strn_eq, starts_with}

abbrev pub int_max : ℕ
int_max = 2147483647

-- The loop of `format_devname`, `for (; id >= 1; id /= 26) devname[--pos] = 'a' + --id % 26;`. The
-- fuel is the number itself, which falls in every round.
unfoldable pub format_loop : ℕ → ℕ → Text → Text
format_loop zero id s = s
format_loop (suc f) id s =
    let more = format_loop f ((id - 1) / 26) ((97 + (id - 1) % 26) ∷ s) in
    if leb 1 id then more else s

-- The letters; `none` is the return value -1.
unfoldable pub format_devname : ℕ → Option Text
unfolding format_loop
format_devname zero = none
format_devname (suc n) = some (format_loop (suc n) (suc n) [])

-- The loop of `scan_devname`, from a value so far; `none` is the return value -1.
unfoldable pub scan_loop : ℕ → Text → Option ℕ
scan_loop n [] = some n
scan_loop n (c ∷ s) =
    let more = scan_loop (n * 26 + (c - 97) + 1) s in
    if (c == 32) || (c == 9)
    then some n
    else if ltb c 97 || ltb 122 c
    then none
    else if ltb (int_max / 26) n || ((n == int_max / 26) && leb (int_max % 26) (c - 97))
    then none
    else more

unfoldable pub scan_devname : Text → Text → Option ℕ
unfolding scan_loop starts_with
scan_devname alias prefix =
    if not (starts_with prefix alias)
    then none
    else if length alias == length prefix
    then none
    else if ltb (length prefix + 7) (length alias)
    then none
    else scan_loop 0 (drop (length prefix) alias)

scan_devname_runs : scan_devname (codes "mpathab") (codes "mpath") ≡ some 28
unfolding scan_devname
scan_devname_runs = refl

format_devname_runs : format_devname 28 ≡ some (codes "ab")
unfolding format_devname
format_devname_runs = refl

pub record Binding : Type 0 where
  pub alias : Text
  pub wwid : Text

-- `WWID_SIZE`.
abbrev pub wwid_size : ℕ
wwid_size = 128

unfoldable pub get_binding_for_alias : List Binding → Text → Option Binding
unfolding strn_eq
get_binding_for_alias [] alias = none
get_binding_for_alias (b ∷ bindings) alias =
    if strn_eq wwid_size b.alias alias then some b else get_binding_for_alias bindings alias

unfoldable pub get_binding_for_wwid : List Binding → Text → Option Binding
unfolding strn_eq
get_binding_for_wwid [] wwid = none
get_binding_for_wwid (b ∷ bindings) wwid =
    if strn_eq wwid_size b.wwid wwid then some b else get_binding_for_wwid bindings wwid

-- The sign of a comparison.
pub data Sign : Type 0 where
  less same more : Sign

abbrev pub first_sign : Sign → Sign → Sign
first_sign less t = less
first_sign same t = t
first_sign more t = more

abbrev pub sign_ℕ : ℕ → ℕ → Sign
sign_ℕ a b = if ltb a b then less else if a == b then same else more

unfoldable pub strcmp : Text → Text → Sign
strcmp [] [] = same
strcmp [] (d ∷ t) = less
strcmp (c ∷ s) [] = more
strcmp (c ∷ s) (d ∷ t) = first_sign (sign_ℕ c d) (strcmp s t)

-- Shorter aliases come first. The bindings hold no NULL alias.
unfoldable pub alias_compar : Text → Text → Sign
alias_compar alias1 alias2 =
    first_sign (sign_ℕ (length alias1) (length alias2)) (strcmp alias1 alias2)

pub data AddResult : Type 0 where
  binding_exists binding_conflict binding_added binding_error : AddResult

-- The backward loop of `add_binding` from slot `k - 1`: the sign for the slot at which it stops, with
-- the binding there, and one past it; `none` if it runs through.
unfoldable pub last_not_after : List Binding → Text → ℕ → Option (Sign × Binding × ℕ)
last_not_after bindings alias zero = none
last_not_after bindings alias (suc k) =
    let further = last_not_after bindings alias k in
    elim (get_elem? bindings k) [
      | none ↦ further
      | some b ↦ elim (alias_compar b.alias alias) [
        | less ↦ some (less, b, suc k)
        | same ↦ some (same, b, suc k)
        | more ↦ further
      ]
    ]

-- What `vector_insert_slot` does to the bindings.
abbrev pub insert_at {ℓ} : {A : Type ℓ} → List A → ℕ → A → List A
insert_at v k x = take k v ++ x ∷ drop k v

-- `ok` says whether the allocations succeed.
unfoldable pub add_at : Bool → List Binding → ℕ → Binding → AddResult × List Binding
add_at true bindings k b = (binding_added, insert_at bindings k b)
add_at false bindings k b = (binding_error, bindings)

unfoldable pub add_binding : Bool → List Binding → Text → Text → AddResult × List Binding
add_binding ok bindings alias wwid = elim (last_not_after bindings alias (length bindings)) [
  | none ↦ add_at ok bindings 0 (record { alias = alias; wwid = wwid })
  | some (less, b, i) ↦ add_at ok bindings i (record { alias = alias; wwid = wwid })
  | some (more, b, i) ↦ add_at ok bindings i (record { alias = alias; wwid = wwid })
  | some (same, b, i) ↦
      if str_eq b.wwid wwid then (binding_exists, bindings) else (binding_conflict, bindings)
]

-- The flag is true for `BINDING_DELETED` and false for `BINDING_NOTFOUND`.
unfoldable pub delete_binding : List Binding → Text → Bool × List Binding
unfolding strn_eq
delete_binding [] wwid = (false, [])
delete_binding (b ∷ bindings) wwid =
    let (found, rest) = delete_binding bindings wwid in
    if strn_eq wwid_size b.wwid wwid then (true, bindings) else (found, b ∷ rest)

-- `while (id < curr_id && id_already_taken(id)) id++;` with `n` rounds at most.
unfoldable pub skip_taken : (ℕ → Bool) → ℕ → ℕ → ℕ
skip_taken taken zero id = id
skip_taken taken (suc n) id = elim (taken id) [ true ↦ skip_taken taken n (suc id) | false ↦ id ]

-- The loop of `get_free_id` over the bindings: the result, or the first number behind those seen.
pub data Free : Type 0 where
  not_sorted : Free
  found : ℕ → Free
  next : ℕ → Free

unfoldable pub free_loop : (ℕ → Bool) → Text → List Binding → ℕ → Free
unfolding skip_taken
free_loop taken prefix [] id = next id
free_loop taken prefix (b ∷ bindings) id = elim (scan_devname b.alias prefix) [
  | none ↦ free_loop taken prefix bindings id
  | some curr_id ↦
      let rest = free_loop taken prefix bindings (suc curr_id) in
      let id' = skip_taken taken (curr_id - id) id in
      if ltb curr_id id
      then not_sorted
      else if ltb id' curr_id
      then found id'
      else if ltb curr_id int_max
      then rest
      else next (suc int_max)
]

-- What follows the loop over the bindings: a last loop tries the numbers up to `INT_MAX`.
unfoldable pub finish_search : (ℕ → Bool) → Free → Option ℕ
finish_search taken not_sorted = none
finish_search taken (found id) = some id
finish_search taken (next id) =
    let id' = skip_taken taken (suc int_max - id) id in if leb id' int_max then some id' else none

-- `none` is the return value -1; `taken` says whether the device mapper knows the alias of a number
-- already.
unfoldable pub get_free_id : (ℕ → Bool) → List Binding → Text → Option ℕ
get_free_id taken bindings prefix = finish_search taken (free_loop taken prefix bindings 1)
