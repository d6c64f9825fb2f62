-- ===== src/Tests/Uevents.antt =====
-- Queues of uevents, and the theorems at work on them.
use multipath_tools.Uevent.Kin.{IsUniform}
use multipath_tools.Base.{
  length, All, ◌+◌, ◌≡◌, refl, true, false, Option, none, some, List, [], ◌∷◌, ◌++◌,
}
use multipath_tools.Base.Text.{Text, codes, str_eq, strn_eq}
use multipath_tools.Uevent.{
  Event, Uevent, alone, uevent_get_wwid, is_dm, uevent_can_filter, merge_need_stop,
  uevent_can_merge,
}
use multipath_tools.Uevent.Queue.{
  FilterState, filter_merged, filter_earlier, filter_old, uevent_filter, flat, filter_loop,
  merge_earlier, uevent_merge, merge_all, merge_uevq,
}
use multipath_tools.Uevent.Filtered.{Filtered, IsSettled, filter_loop_filters}
use multipath_tools.Uevent.Kept.{Kept}
use multipath_tools.Uevent.Merging.{merge_all_keeps}
use multipath_tools.Uevent.Uniform.{merge_uevq-IsUniform}

abbrev event_of : Text → Text → Option Text → Event
event_of action kernel wwid = record { kernel = kernel; action = action; wwid = wwid; envp = [] }

abbrev add_sda : Event
add_sda = event_of (codes "add") (codes "sda") (some (codes "3600"))

abbrev add_sdb : Event
add_sdb = event_of (codes "add") (codes "sdb") (some (codes "3600"))

abbrev change_sda : Event
change_sda = event_of (codes "change") (codes "sda") (some (codes "3600"))

abbrev remove_sda : Event
remove_sda = event_of (codes "remove") (codes "sda") (some (codes "3600"))

-- `remove sda` is newest; behind it are `change sda` and `add sdb`, both new, and `add sda`, old.
abbrev fresh_events : List Uevent
fresh_events = alone remove_sda ∷ alone change_sda ∷ alone add_sdb ∷ []

abbrev old_events : List Uevent
old_events = record { event = add_sda; merge_node = add_sdb ∷ [] } ∷ []

-- The removal filters what came before it for the same path, and what was merged counts as new.
filter_result :
    filter_loop 5 fresh_events old_events
    ≡ (alone remove_sda ∷ alone add_sdb ∷ alone add_sdb ∷ [], [], 2)
unfolding filter_loop str_eq strn_eq uevent_can_filter is_dm uevent_filter filter_earlier filter_old
    filter_merged
filter_result = refl

filter_loop_filters_example :
    let before = flat (fresh_events ++ old_events) in
    let (fresh', old', n) = filter_loop (length before) fresh_events old_events in
    Filtered [] before (flat (fresh' ++ old'))
    × IsSettled fresh' old'
    × (length (flat (fresh' ++ old')) + n ≡ length before)
filter_loop_filters_example = filter_loop_filters fresh_events old_events

abbrev added_events : List Uevent
added_events = alone add_sda ∷ alone change_sda ∷ alone add_sdb ∷ alone remove_sda ∷ []

-- `add sdb` is merged past `change sda`; `remove sda` stops the loop, and `old_tail` stays.
merge_result : merge_all 4 added_events old_events ≡ (
  record { event = add_sda; merge_node = add_sdb ∷ [] } ∷ alone change_sda ∷ alone remove_sda ∷ [],
  old_events,
  1,
)
unfolding merge_all uevent_merge merge_earlier merge_need_stop uevent_can_merge str_eq strn_eq is_dm
merge_result = refl

merge_all_keeps_example :
    let (fresh', old', n) = merge_all (length added_events) added_events old_events in
    Kept (added_events ++ old_events) (fresh' ++ old') n
unfolding is_dm strn_eq str_eq
merge_all_keeps_example =
    merge_all_keeps added_events old_events (tt, (tt, (tt, (tt, (((refl, refl, refl), tt), tt)))))

abbrev a_round : FilterState
a_round = record {
  fresh = added_events;
  old = old_events;
  added = 0;
  discarded = 0;
  filtered = 0;
  merged = 0;
}

merge_uevq-IsUniform_example :
    let st' = merge_uevq true (λ e. false) (uevent_get_wwid (λ kernel. none)) a_round in
    All IsUniform (st'.fresh ++ st'.old)
unfolding is_dm strn_eq str_eq
merge_uevq-IsUniform_example =
    merge_uevq-IsUniform true (λ e. false) (uevent_get_wwid (λ kernel. none)) a_round
      (refl, (refl, (refl, (refl, tt)))) (((refl, refl, refl), tt), tt)
