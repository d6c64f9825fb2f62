-- ===== src/Tests/Checkers.antt =====
-- Calls of an asynchronous checker whose runners time out.
use multipath_tools.Base.{All, ◌≤◌, ◌≡◌, refl, true, false, some, List, [], ◌∷◌, ◌++◌, map, arith}
use multipath_tools.Structs.{path_unchecked, path_up, path_pending, path_timeout}
use multipath_tools.Runner.{
  RunnerStatus, runner_idle, runner_running, runner_cancelled, runner_dead, System, thread_step,
  owner_step, check_runner, thread_moves, owner_moves, owner_checks, Run, here, next, get_runner,
  new_runner,
}
use multipath_tools.AsyncChecker.{
  checker_msgid_none, other, Async, Call, check_runner_state, async_check_pending,
  async_check_check,
}
use multipath_tools.AsyncChecker.Zombies.{
  check_all, async_check_check-bounded, states_of, call_of, async_check_check-timeouts,
}

abbrev call_with : RunnerStatus → Call
call_with rc = record {
  answer = rc;
  written = (path_up, other 4);
  is_sync = false;
  created = true;
  direct = (path_up, other 4);
}

abbrev new_context : Async
new_context = record {
  last_runner_state = runner_idle;
  nr_timeouts = 0;
  rtx = false;
  state = path_unchecked;
  msgid = checker_msgid_none;
}

-- Two runners in a row are cancelled; the second one is kept until it ends.
abbrev timeouts : List Call
timeouts =
    call_with runner_running
    ∷ call_with runner_cancelled
    ∷ call_with runner_running
    ∷ call_with runner_cancelled
    ∷ call_with runner_cancelled
    ∷ []

timeouts_states :
    states_of path_unchecked (timeouts ++ call_with runner_dead ∷ []) new_context
    ≡ path_pending ∷ path_timeout ∷ path_pending ∷ path_timeout ∷ path_timeout ∷ path_timeout ∷ []
unfolding async_check_check async_check_pending check_runner_state
timeouts_states = refl

async_check_check-bounded_example :
    ((check_all timeouts (new_context, 0)).1 ≤ 1)
    × ((check_all timeouts (new_context, 0)).0.nr_timeouts ≤ 2)
async_check_check-bounded_example = async_check_check-bounded timeouts new_context refl

-- The time is up before the thread has made a step.
abbrev late_runner : System
late_runner = owner_step (owner_step (check_runner true new_runner))

late : Run new_runner late_runner
unfolding owner_step check_runner
late = next (next (next here (owner_checks true refl)) owner_moves) owner_moves

late_answer : (check_runner true (thread_step late_runner)).answer ≡ some runner_cancelled
unfolding owner_step check_runner thread_step
late_answer = refl

abbrev kept_context : Async
kept_context = record new_context { nr_timeouts = 2; rtx = true; state = path_timeout }

async_check_check-timeouts_example :
    All
      (λ state. state ≡ path_timeout)
      (states_of path_up
        (map call_of ((call_with runner_cancelled, true, thread_step late_runner) ∷ []))
        kept_context)
unfolding get_runner owner_step check_runner
async_check_check-timeouts_example =
    async_check_check-timeouts true true true path_up
      ((call_with runner_cancelled, true, thread_step late_runner) ∷ []) kept_context refl late refl
      refl refl (omega arith) ((next here thread_moves, late_answer), tt)
