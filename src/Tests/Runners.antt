-- ===== src/Tests/Runners.antt =====
-- A runner that ends, and one that is released before its thread has started.
use multipath_tools.Runner.Ending.{four_steps, released_runner-ends}
use multipath_tools.Base.{◌≡◌, refl, ◌≢◌, ◌↔◌, ◌⊎◌, true, false}
use multipath_tools.Runner.{
  runner_cancelled, returned, released, System, put_shared_ptr, thread_step, owner_step,
  check_runner, release_runner, thread_moves, owner_moves, owner_checks, owner_releases, Run, here,
  next, given_back, runner, get_runner, new_runner,
}
use multipath_tools.Runner.Safety.{get_runner-IsSafe, is_past_work, check_runner-IsDone}
use multipath_tools.Runner.Stuck.{cancelled_idle-leaks}

new_runner_lem : get_runner true true true ≡ runner new_runner
unfolding get_runner
new_runner_lem = refl

-- Without a thread the context is freed.
no_thread : get_runner true true false ≡ given_back (put_shared_ptr (put_shared_ptr new_runner))
unfolding get_runner
no_thread = refl

-- The function returns, the thread ends, the owner asks.
abbrev finished_runner : System
finished_runner =
    check_runner false (thread_step (thread_step (thread_step (thread_step new_runner))))

finished : Run new_runner finished_runner
unfolding thread_step
finished =
    next (next (next (next (next here thread_moves) thread_moves) thread_moves) thread_moves)
      (owner_checks false refl)

check_runner-IsDone_example :
    (finished_runner.completed ≡ true) × (is_past_work finished_runner.thread ≡ true)
unfolding thread_step check_runner
check_runner-IsDone_example = check_runner-IsDone true true true new_runner_lem finished refl

-- The owner finds it running, its time is up, and it is killed; then it is released.
abbrev killed_runner : System
killed_runner = owner_step (
    owner_step (
      release_runner
        (owner_step (owner_step (owner_step (check_runner true (thread_step new_runner)))))))

killed : Run new_runner killed_runner
unfolding thread_step owner_step check_runner
killed =
    next
      (next
        (next
          (next
            (next (next (next (next here thread_moves) (owner_checks true refl)) owner_moves)
              owner_moves)
            owner_moves)
          (owner_releases refl))
        owner_moves)
      owner_moves

get_runner-IsSafe_example :
    (killed_runner.fault ≡ false)
    × ((killed_runner.freed ≡ true)
        ↔ ((killed_runner.thread ≡ returned) × (killed_runner.owner ≡ released)))
get_runner-IsSafe_example = get_runner-IsSafe true true true new_runner_lem killed

released_runner-ends_example :
    (((four_steps killed_runner).thread ≡ returned)
      × ((four_steps killed_runner).freed ≡ true)
      × ((four_steps killed_runner).fault ≡ false))
    ⊎ ((killed_runner.status ≡ runner_cancelled)
        × (killed_runner.cancel_sent ≡ false)
        × (killed_runner.completed ≡ false))
unfolding owner_step release_runner check_runner thread_step
released_runner-ends_example = released_runner-ends true true true new_runner_lem killed refl

-- It is the first of the two.
killed_ends : (killed_runner.cancel_sent ≡ true) × ((four_steps killed_runner).thread ≡ returned)
unfolding thread_step owner_step check_runner release_runner
killed_ends = (refl, refl)

-- The owner releases the runner before its thread has made a step.
abbrev early_runner : System
early_runner = owner_step (owner_step (owner_step (release_runner new_runner)))

early : Run new_runner early_runner
unfolding owner_step
early = next (next (next (next here (owner_releases refl)) owner_moves) owner_moves) owner_moves

early_released : (early_runner.owner ≡ released) × (early_runner.refcnt ≡ 1)
unfolding owner_step release_runner
early_released = (refl, refl)

abbrev spinning_runner : System
spinning_runner = thread_step (thread_step (thread_step early_runner))

cancelled_idle-leaks_example :
    (spinning_runner.thread ≢ returned)
    × (spinning_runner.completed ≡ false)
    × (spinning_runner.status ≡ runner_cancelled)
    × (spinning_runner.freed ≡ false)
unfolding owner_step release_runner
cancelled_idle-leaks_example =
    cancelled_idle-leaks true true true new_runner_lem early refl refl
      (next (next (next here thread_moves) thread_moves) thread_moves)
