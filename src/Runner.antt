-- ===== src/Runner.antt =====
-- libmpathutil/runner.c and the shared pointers of libmpathutil/util.c: a thread that works for a caller,
-- and the caller, who asks for its state and may cancel it. Each step makes one access to the shared
-- context; the steps of the thread and of the caller interleave in any order. A cancellation reaches the
-- thread only in its function. Whether a deadline has passed is an argument, and the copies of the data
-- are left out.
pub mod Safety
pub mod Stuck
pub mod Ending
use multipath_tools.Base.{
  ◌==◌, if◌then◌else◌, any, ℕ, zero, suc, ◌+◌, ◌-◌, ◌/◌, ◌≡◌, Bool, true, false, not, ◌||◌, Option,
  none, some,
}

-- runner.h, `enum runner_status`.
pub data RunnerStatus : Type 0 where
  runner_idle runner_running runner_done runner_cancelled runner_dead : RunnerStatus

abbrev pub same_status : RunnerStatus → RunnerStatus → Bool
same_status runner_idle runner_idle = true
same_status runner_running runner_running = true
same_status runner_done runner_done = true
same_status runner_cancelled runner_cancelled = true
same_status runner_dead runner_dead = true
same_status _ _ = false

-- What `uatomic_cmpxchg(&status, old, new)` leaves in the status; it returns what was there.
abbrev pub cmpxchg : RunnerStatus → RunnerStatus → RunnerStatus → RunnerStatus
cmpxchg status old new = if same_status status old then new else status

-- Where the thread stands in `runner_thread` and `cleanup_context`.
pub data ThreadPlace : Type 0 where
  starting : ThreadPlace  -- before its first access
  working : ThreadPlace  -- in the function
  cleaning : ThreadPlace  -- at the head of `cleanup_context`
  yielding : ThreadPlace  -- in its loop
  marking : RunnerStatus → ThreadPlace  -- before the last access to the status
  putting : ThreadPlace  -- before `put_shared_ptr`
  returned : ThreadPlace

-- Who called `cancel_runner`.
pub data Caller : Type 0 where
  from_check from_release : Caller

-- Where the caller stands, in `cancel_runner` with what is left of `retry`.
pub data OwnerPlace : Type 0 where
  outside : OwnerPlace  -- between two calls
  cancelling cancelling_idle : Caller → ℕ → OwnerPlace  -- before the first and the second access
  killing : Caller → OwnerPlace  -- before `pthread_cancel`
  asserting : Caller → OwnerPlace  -- before the access in the assertion
  releasing : OwnerPlace  -- before `put_shared_ptr` in `release_runner`
  released : OwnerPlace

-- The context, the places of its thread and its owner, and what has happened: `completed`, the function
-- has returned; `cancel_sent`, `pthread_cancel` was called; `answer`, what `check_runner` returned last;
-- `fault`, somebody used the context after it was freed, cancelled a thread that had returned, or
-- failed the assertion.
pub record System : Type 0 where
  pub status : RunnerStatus
  pub refcnt : ℕ
  pub freed : Bool
  pub thread : ThreadPlace
  pub owner : OwnerPlace
  pub completed : Bool
  pub cancel_sent : Bool
  pub answer : Option RunnerStatus
  pub fault : Bool

-- An access to the context.
abbrev pub touch : System → System
touch s = record s { fault = s.fault || s.freed }

-- util.c.
abbrev pub get_shared_ptr : System → System
get_shared_ptr s = record s { refcnt = s.refcnt + 1; fault = s.fault || s.freed }

abbrev pub put_shared_ptr : System → System
put_shared_ptr s = record s {
  refcnt = s.refcnt - 1;
  freed = s.freed || (s.refcnt - 1 == 0);
  fault = s.fault || s.freed;
}

-- The end of the first access of `cleanup_context`.
abbrev pub cleanup_from : RunnerStatus → ThreadPlace
cleanup_from runner_running = putting
cleanup_from runner_cancelled = yielding
cleanup_from st = marking st

-- The next step of the thread; in the function, that it returns.
abbrev pub thread_at : ThreadPlace → System → System
thread_at starting s = record (touch s) {
  status = cmpxchg s.status runner_idle runner_running;
  thread = if same_status s.status runner_idle then working else cleaning;
}
thread_at working s = record s { thread = cleaning; completed = true }
thread_at cleaning s = record (touch s) {
  status = cmpxchg s.status runner_running runner_done;
  thread = cleanup_from s.status;
}
thread_at yielding s = record (touch s) {
  thread = if same_status s.status runner_cancelled then yielding else marking runner_cancelled;
}
thread_at (marking st) s = record (touch s) {
  status = cmpxchg s.status st runner_dead;
  thread = putting;
}
thread_at putting s = record (put_shared_ptr s) { thread = returned }
thread_at returned s = s

unfoldable pub thread_step : System → System
thread_step s = thread_at s.thread s

-- The return of `cancel_runner` with a status.
abbrev pub return_to : Caller → RunnerStatus → System → System
return_to from_check st s = record s { owner = outside; answer = some st }
return_to from_release st s = record s { owner = releasing }

-- The `switch` of `cancel_runner` on what the first access has returned.
abbrev pub cancel_from : RunnerStatus → Caller → ℕ → System → System
cancel_from runner_idle c zero s = return_to c runner_idle s
cancel_from runner_idle c (suc retry) s = record s { owner = cancelling_idle c retry }
cancel_from runner_running c retry s = record s { owner = killing c }
cancel_from runner_done c retry s = return_to c runner_dead s
cancel_from runner_cancelled c retry s = return_to c runner_cancelled s
cancel_from runner_dead c retry s = return_to c runner_dead s

abbrev pub has_returned : ThreadPlace → Bool
has_returned returned = true
has_returned _ = false

-- The next step of the owner in `cancel_runner` or `release_runner`.
abbrev pub owner_at : OwnerPlace → System → System
owner_at outside s = s
owner_at (cancelling c retry) s =
    cancel_from s.status c retry
      (record (touch s) { status = cmpxchg s.status runner_running runner_cancelled })
owner_at (cancelling_idle c retry) s =
    let t : System = record (touch s) { status = cmpxchg s.status runner_idle runner_cancelled } in
    if same_status s.status runner_idle
    then return_to c runner_cancelled t
    else record t { owner = cancelling c retry }
owner_at (killing c) s = record s {
  owner = asserting c;
  cancel_sent = true;
  fault = s.fault || s.freed || has_returned s.thread;
}
owner_at (asserting c) s = return_to c runner_cancelled (record s {
  status = cmpxchg s.status runner_cancelled runner_dead;
  fault = s.fault || s.freed || not (same_status s.status runner_cancelled);
})
owner_at releasing s = record (put_shared_ptr s) { owner = released }
owner_at released s = s

unfoldable pub owner_step : System → System
owner_step s = owner_at s.owner s

-- `check_runner` up to its return or to `cancel_runner`; `expired` says whether there is a deadline that
-- has passed.
abbrev pub check_from : RunnerStatus → Bool → System → System
check_from runner_done expired s = record s { answer = some runner_done }
check_from runner_dead expired s = record s { answer = some runner_dead }
check_from runner_cancelled expired s = record s { answer = some runner_cancelled }
check_from _ expired s =
    if expired
    then record s { owner = cancelling from_check 1 }
    else record s { answer = some runner_running }

unfoldable pub check_runner : Bool → System → System
check_runner expired s = check_from s.status expired (touch s)

-- `release_runner` up to `cancel_runner`.
unfoldable pub release_runner : System → System
release_runner s = record s { owner = cancelling from_release 1 }

-- `pthread_cancel` reaches the thread in the function, and runs the cleanup.
unfoldable pub unwind : System → System
unwind s = record s { thread = cleaning }

pub data Step (s : System) : System → Type 0 where
  thread_moves : Step s (thread_step s)
  thread_unwinds : s.thread ≡ working → s.cancel_sent ≡ true → Step s (unwind s)
  owner_moves : Step s (owner_step s)
  owner_checks : (expired : Bool) → s.owner ≡ outside → Step s (check_runner expired s)
  owner_releases : s.owner ≡ outside → Step s (release_runner s)

-- From one state to another by steps in any order.
pub data Run (s : System) : System → Type 0 where
  here : Run s s
  next : {t u : System} → Run s t → Step t u → Run s u

-- A context as `alloc_shared_ptr` gives it.
abbrev pub alloc_shared_ptr : System
alloc_shared_ptr = record {
  status = runner_idle;
  refcnt = 1;
  freed = false;
  thread = starting;
  owner = outside;
  completed = false;
  cancel_sent = false;
  answer = none;
  fault = false;
}

-- What `get_runner` leaves: no context, one that was given back, or a runner.
pub data GetResult : Type 0 where
  no_context : GetResult
  given_back : System → GetResult
  runner : System → GetResult

-- `arguments`, `allocated` and `created` say whether the arguments are legal and whether the calls of
-- `malloc` and `pthread_create` succeed.
unfoldable pub get_runner : Bool → Bool → Bool → GetResult
get_runner arguments allocated created =
    let s : System = get_shared_ptr alloc_shared_ptr in
    if not arguments || not allocated
    then no_context
    else if created
    then runner s
    else given_back (put_shared_ptr (put_shared_ptr s))

-- A new runner.
abbrev pub new_runner : System
new_runner = get_shared_ptr alloc_shared_ptr
