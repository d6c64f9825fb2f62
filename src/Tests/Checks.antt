-- ===== src/Tests/Checks.antt =====
-- Checks of a path and the failback of its map, and the theorems at work on them.
use multipath_tools.Tests.Paths.{three_paths, a_map}
use multipath_tools.Structs.{path_disconnected, Heap, pr_unset, switch_group, Multipath}
use multipath_tools.Checking.Update.{update_path_state}
use multipath_tools.Checking.{Conf, Probe}
use multipath_tools.Failback.{need_switch_pathgroup, deferred_failback_tick}
use multipath_tools.Failback.Deferred.{failback_ticks, deferred_failback_waits}
use multipath_tools.Checking.Update.Stored.{update_path_state-IsStored}
use multipath_tools.Checking.Fields.{IsStored}
use multipath_tools.Base.{if◌then◌else◌, pos, ℕ, ◌≡◌, refl, false, not, ◌&&◌, none, [], ◌∷◌, arith}

abbrev a_conf : Conf
a_conf = record {
  checkint = 5;
  max_checkint = 20;
  adjust_int = 20;
  retrigger_tries = pos 3;
  marginal_pathgroups = false;
}

-- The checker of a path says that it is disconnected.
abbrev unmapped : Probe
unmapped = record {
  checker = path_disconnected;
  reread = λ pp. pp;
  uid = none;
  wwid_change = false;
  removed = false;
  io_err = false;
  now = 100;
  implicit = false;
  registration = pr_unset;
}

update_path_state-IsStored_example :
    IsStored a_conf ((update_path_state a_conf unmapped three_paths a_map 1).1 1)
update_path_state-IsStored_example =
    update_path_state-IsStored a_conf unmapped three_paths a_map 1 (omega arith) (λ p h. h)
      (refl, refl, omega arith, omega arith)

-- Failback in three seconds.
abbrev waiting_map : Multipath
waiting_map = record a_map { pgfailback = pos 5; failback_tick = 3 }

deferred_failback_waits_example :
    let r = need_switch_pathgroup three_paths (record waiting_map { failback_tick = 0 }) in
    let last = deferred_failback_tick three_paths (failback_ticks three_paths 2 waiting_map) in
    (failback_ticks three_paths 2 waiting_map ≡ record waiting_map { failback_tick = 1 })
    × (last.0 ≡ (r.0.0 && r.0.1))
    × (last.1.sent ≡ (if r.0.0 && not r.0.1 then switch_group r.1.bestpg ∷ [] else []))
    × (last.1.failback_tick ≡ 0)
    × ((k : Heap) (j : ℕ)
        → (failback_ticks k j last.1 ≡ last.1)
          × ((deferred_failback_tick k (failback_ticks k j last.1)).0 ≡ false))
deferred_failback_waits_example = deferred_failback_waits three_paths waiting_map 2 refl refl
