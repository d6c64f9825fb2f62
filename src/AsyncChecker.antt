-- ===== src/AsyncChecker.antt =====
-- libmultipath/async_checker.c: a path checker that runs in a runner thread. What the runner answers, what
-- it has written, and what the function of the checker returns when it is called directly are arguments
-- of a call. That memory suffices for the context is taken for granted.
pub mod Zombies
use multipath_tools.Base.{
  ltb, ◌==◌, if◌then◌else◌, any, ℕ, ◌+◌, ◌-◌, ◌/◌, Bool, true, false, Option, none, some,
}
use multipath_tools.Structs.{PathState, path_unchecked, path_pending, path_timeout}
use multipath_tools.Runner.{
  RunnerStatus, runner_done, runner_cancelled, runner_dead, check_runner, release_runner, runner,
  get_runner,
}

-- checkers.h, the messages that this file sets; `other` is any other one.
pub data Msgid : Type 0 where
  checker_msgid_none checker_msgid_running checker_msgid_timeout : Msgid
  other : ℕ → Msgid

abbrev pub max_nr_timeouts : ℕ
max_nr_timeouts = 1

-- `struct async_checker_context`; `rtx` says whether there is a runner.
pub record Async : Type 0 where
  pub last_runner_state : RunnerStatus
  pub nr_timeouts : ℕ
  pub rtx : Bool
  pub state : PathState
  pub msgid : Msgid

-- The answer of `check_runner`, what the runner has written, whether the checker is synchronous, whether
-- `get_runner` succeeds, and the state and the message of the function when it is called directly.
pub record Call : Type 0 where
  pub answer : RunnerStatus
  pub written : PathState × Msgid
  pub is_sync : Bool
  pub created : Bool
  pub direct : PathState × Msgid

-- `release_runner`, and what goes with it.
abbrev pub finish_runner : RunnerStatus → Async → Async
finish_runner rc acc = record acc { rtx = false; last_runner_state = rc; nr_timeouts = 0 }

abbrev pub set_timeout : Async → Async
set_timeout acc = record acc { state = path_timeout; msgid = checker_msgid_timeout }

abbrev pub cancelled_runner : Async → Async
cancelled_runner acc =
    let acc' : Async = record (set_timeout acc) { last_runner_state = runner_cancelled } in
    if ltb acc.nr_timeouts max_nr_timeouts
    then record acc' { nr_timeouts = acc.nr_timeouts + 1; rtx = false }
    else if acc.nr_timeouts == max_nr_timeouts
    then record acc' { nr_timeouts = acc.nr_timeouts + 1 }
    else acc'

unfoldable pub check_runner_state : RunnerStatus → PathState × Msgid → Async → Async
check_runner_state runner_dead written acc = finish_runner runner_dead (set_timeout acc)
check_runner_state runner_done written acc =
    finish_runner runner_done (record acc { state = written.0; msgid = written.1 })
check_runner_state runner_cancelled written acc = cancelled_runner acc
check_runner_state _ written acc = record acc { msgid = checker_msgid_running }

-- The state that a call returns, and the context.
unfoldable pub async_check_pending : PathState → Call → Async → PathState × Async
async_check_pending path_state call acc =
    let acc' = check_runner_state call.answer call.written acc in
    if acc.rtx then (acc'.state, acc') else (path_state, acc)

abbrev pub start_check : Call → Async → PathState × Async
start_check call acc =
    let acc' : Async = record acc { state = path_pending; msgid = checker_msgid_running } in
    let called : PathState × Async = (call.direct.0, record acc' { msgid = call.direct.1 }) in
    if call.is_sync
    then called
    else if call.created
    then (path_pending, record acc' { rtx = true })
    else called

unfoldable pub async_check_check : PathState → Call → Option Async → PathState × Option Async
async_check_check path_state call none = (path_unchecked, none)
async_check_check path_state call (some acc) =
    let r = if acc.rtx then async_check_pending path_state call acc else start_check call acc in
    (r.0, some r.1)

unfoldable pub async_check_need_wait : Option Async → Bool
async_check_need_wait none = false
async_check_need_wait (some acc) = acc.rtx
