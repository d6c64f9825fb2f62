-- ===== src/Uevent.antt =====
-- libmultipath/uevent.c: the queue of uevents, its filtering and merging. A queue is a list with the
-- newest event first, as the loops run; so is `merge_node`. `old_tail` splits the queue into the new
-- events and the old ones, of which it is the newest.
pub mod Queue
pub mod Round
pub mod Filtered
pub mod Order
pub mod Kept
pub mod Kin
pub mod Merging
pub mod Uniform
use multipath_tools.Base.{
  ◌==◌, if◌then◌else◌, length, drop, pos, ltb_ℤ, ◌-◌, ◌/◌, Bool, true, false, not, ◌&&◌, ◌||◌,
  Option, none, some, List, [], ◌∷◌,
}
use multipath_tools.Base.Text.{Text, codes, str_eq, strn_eq, starts_with}
use multipath_tools.Blacklist.{is_null}
use multipath_tools.Blacklist.Filter.{Lists, filter_devnode}

-- `struct uevent` without its links.
pub record Event : Type 0 where
  pub kernel : Text
  pub action : Text
  pub wwid : Option Text
  pub envp : List Text

-- An element of the queue with the events merged into it, which have none of their own.
pub record Uevent : Type 0 where
  pub event : Event
  pub merge_node : List Event

abbrev pub alone : Event → Uevent
alone e = record { event = e; merge_node = [] }

-- `var` is `attr`, an equals sign and a value.
unfoldable pub env_value : Text → Text → Option Text
unfolding starts_with
env_value attr var = elim (drop (length attr) var) [
  | [] ↦ none
  | c ∷ value ↦ if starts_with attr var && (c == 61) then some value else none
]

unfoldable pub find_env : Text → List Text → Option Text
unfolding env_value
find_env attr [] = none
find_env attr (var ∷ envp) = elim (env_value attr var) [
  | some value ↦ some value
  | none ↦ find_env attr envp
]

-- NULL and the empty name have no value.
unfoldable pub uevent_get_env_var : Event → Option Text → Option Text
unfolding find_env
uevent_get_env_var uev none = none
uevent_get_env_var uev (some []) = none
uevent_get_env_var uev (some (c ∷ attr)) = find_env (c ∷ attr) uev.envp

-- `uid_attribute` is what `get_uid_attribute_by_attrs` finds for the kernel name.
unfoldable pub uevent_get_wwid : (Text → Option Text) → Event → Event
uevent_get_wwid uid_attribute uev = elim (uevent_get_env_var uev (uid_attribute uev.kernel)) [
  | none ↦ uev
  | some val ↦ record uev { wwid = some val }
]

-- `!strncmp(kernel, "dm-", 3)`.
unfoldable pub is_dm : Event → Bool
unfolding strn_eq
is_dm uev = strn_eq 3 uev.kernel (codes "dm-")

unfoldable pub uevent_can_discard : (Text → Text → Bool) → Lists → Event → Bool
unfolding filter_devnode
uevent_can_discard matches conf uev =
    if is_dm uev
    then false
    else ltb_ℤ (pos 0)
        (filter_devnode matches conf.blist_devnode conf.elist_devnode (some uev.kernel))

unfoldable pub uevent_can_filter : Event → Event → Bool
unfolding str_eq
uevent_can_filter earlier later =
    if is_dm later || not (str_eq earlier.kernel later.kernel)
    then false
    else if str_eq later.action (codes "remove")
    then true
    else str_eq earlier.action (codes "change") && str_eq later.action (codes "add")

-- `!a || !b || …` and `a && b && …` of the WWIDs.
abbrev pub same_wwid : Option Text → Option Text → Bool
same_wwid (some s) (some t) = str_eq s t
same_wwid (some s) none = false
same_wwid none t = false

abbrev pub has_wwid : Event → Bool
has_wwid uev = not (is_null uev.wwid)

unfoldable pub merge_need_stop : Event → Event → Bool
unfolding str_eq
merge_need_stop earlier later =
    if is_dm later
    then true
    else if not (has_wwid earlier) || not (has_wwid later)
    then true
    else not (str_eq earlier.action later.action)
      && not (str_eq earlier.action (codes "change"))
      && not (str_eq later.action (codes "change"))
      && same_wwid earlier.wwid later.wwid

unfoldable pub uevent_can_merge : Event → Event → Bool
unfolding str_eq
uevent_can_merge earlier later =
    has_wwid earlier
    && has_wwid later
    && not (is_dm earlier)
    && str_eq earlier.action later.action
    && (str_eq earlier.action (codes "add") || str_eq earlier.action (codes "remove"))
    && same_wwid earlier.wwid later.wwid
