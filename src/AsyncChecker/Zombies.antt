-- ===== src/AsyncChecker/Zombies.antt =====
-- libmultipath/async_checker.c: threads that hang.
use multipath_tools.Base.{
  if◌then◌else◌, All, ℕ, ◌+◌, ◌≤◌, ◌<◌, ◌≡◌, refl, sym, ap, ◌∙◌, Bool, true, false, not, ◌&&◌,
  Option, none, some, List, [], ◌∷◌, map, arith,
}
use multipath_tools.Structs.{PathState, path_unchecked, path_timeout}
use multipath_tools.Runner.{
  RunnerStatus, runner_done, runner_cancelled, runner_dead, starting, System, touch, check_from,
  check_runner, Run, runner, get_runner,
}
use multipath_tools.Runner.Stuck.{cancelled_idle-leaks}
use multipath_tools.AsyncChecker.{
  Async, Call, check_runner_state, async_check_pending, async_check_check,
}

abbrev pub is_final : RunnerStatus → Bool
is_final runner_done = true
is_final runner_dead = true
is_final _ = false

-- A context, and how many runners that were cancelled and had not ended it has given up since a runner
-- ended.
abbrev pub Watched : Type 0
Watched = Async × ℕ

abbrev pub watch : Async → Call → Async → ℕ → ℕ
watch acc call acc' n =
    if acc.rtx && is_final call.answer then 0 else if acc.rtx && not acc'.rtx then n + 1 else n

abbrev pub context_or : Async → Option Async → Async
context_or acc none = acc
context_or acc (some acc') = acc'

abbrev pub check_watched : Call → Watched → Watched
check_watched call (acc, n) =
    let acc' = context_or acc (async_check_check path_unchecked call (some acc)).1 in
    (acc', watch acc call acc' n)

abbrev pub check_all : List Call → Watched → Watched
check_all [] w = w
check_all (call ∷ calls) w = check_all calls (check_watched call w)

record IsBounded (w : Watched) : Type 0 where
  few : w.1 ≤ 1
  fewer : w.1 ≤ w.0.nr_timeouts
  timeouts : w.0.nr_timeouts ≤ 2

check_answer :
    (rc : RunnerStatus) (call : Call) (acc : Async) (n : ℕ)
    → call.answer ≡ rc
    → IsBounded (acc, n)
    → IsBounded (check_watched call (acc, n))
unfolding async_check_check async_check_pending check_runner_state
check_answer runner_cancelled call acc n e h = ground arith
check_answer rc call acc n e h = ground arith

check_all-IsBounded :
    (calls : List Call) (w : Watched) → IsBounded w → IsBounded (check_all calls w)
check_all-IsBounded [] w h = h
check_all-IsBounded (call ∷ calls) w h =
    check_all-IsBounded calls (check_watched call w) (check_answer call.answer call w.0 w.1 refl h)

-- Whatever the runners of a new context answer to any calls of `async_check_check`: since a runner ended,
-- it has given up at most one runner that had not, and it counts at most two timeouts.
pub async_check_check-bounded :
    (calls : List Call) (acc : Async)
    → acc.nr_timeouts ≡ 0
    → ((check_all calls (acc, 0)).1 ≤ 1) × ((check_all calls (acc, 0)).0.nr_timeouts ≤ 2)
async_check_check-bounded calls acc z =
    let h =
      check_all-IsBounded calls (acc, 0)
        (record { few = omega arith; fewer = omega arith; timeouts = omega arith }) in
    (h.few, h.timeouts)

-- The states that calls return, and the context after them.
abbrev pub states_of : PathState → List Call → Async → List PathState
states_of path_state [] acc = []
states_of path_state (call ∷ calls) acc =
    let r = async_check_check path_state call (some acc) in
    r.0 ∷ states_of path_state calls (context_or acc r.1)

-- A call made when the runner is in a state that it reaches from `t`: it has the answer of
-- `check_runner`, whether the time is up or not.
abbrev pub AnswersFrom : System → Call × Bool × System → Type 0
AnswersFrom t (call, expired, u) = Run t u × ((check_runner expired u).answer ≡ some call.answer)

abbrev pub call_of : Call × Bool × System → Call
call_of r = r.0

check_cancelled :
    (expired : Bool) (u : System)
    → u.status ≡ runner_cancelled
    → (check_runner expired u).answer ≡ some runner_cancelled
unfolding check_runner
check_cancelled expired u e = ap (λ st. (check_from st expired (touch u)).answer) e

kept_runner :
    (path_state : PathState) (call : Call) (acc : Async)
    → call.answer ≡ runner_cancelled
    → acc.rtx ≡ true
    → 0 < acc.nr_timeouts
    → ((async_check_check path_state call (some acc)).0 ≡ path_timeout)
      × ((context_or acc (async_check_check path_state call (some acc)).1).rtx ≡ true)
      × (0 < (context_or acc (async_check_check path_state call (some acc)).1).nr_timeouts)
unfolding async_check_check async_check_pending check_runner_state
kept_runner path_state call acc e r n = ground arith

some_eq : {x y : RunnerStatus} → some x ≡ some y → x ≡ y
some_eq h = cc

-- If the runner of a context is cancelled before its thread has made a step, and the context has given
-- up a runner before and none has ended since: whatever the thread does from then on, every later call
-- returns PATH_TIMEOUT, however many there are. The device itself is never checked again.
pub async_check_check-timeouts :
    (arguments allocated created : Bool) {s t : System} (path_state : PathState)
    (rounds : List (Call × Bool × System)) (acc : Async)
    → get_runner arguments allocated created ≡ runner s
    → Run s t
    → t.thread ≡ starting
    → t.status ≡ runner_cancelled
    → acc.rtx ≡ true
    → 0 < acc.nr_timeouts
    → All (AnswersFrom t) rounds
    → All (λ state. state ≡ path_timeout) (states_of path_state (map call_of rounds) acc)
async_check_check-timeouts a b c ps [] acc e r p q x n h = tt
async_check_check-timeouts a b c ps ((call, expired, u) ∷ rounds) acc e r p q x n ((v, w), h) =
    let (_, _, st, _) = cancelled_idle-leaks a b c e r p q v in
    let answer : call.answer ≡ runner_cancelled = some_eq (sym w ∙ check_cancelled expired u st) in
    let (i, j, k) = kept_runner ps call acc answer x n in
    (i, async_check_check-timeouts a b c ps rounds _ e r p q j k h)
