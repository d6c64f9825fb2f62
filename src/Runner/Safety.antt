-- ===== src/Runner/Safety.antt =====
-- libmpathutil/runner.c: what holds whatever the order of the steps.
use multipath_tools.Base.{
  ◌==◌, ℕ, zero, suc, ◌+◌, ◌≡◌, refl, subst, ◌↔◌, Bool, true, false, not, ◌&&◌, ◌||◌, Option, none,
  some, arith,
}
use multipath_tools.Runner.{
  RunnerStatus, runner_idle, runner_running, runner_done, runner_cancelled, runner_dead,
  ThreadPlace, starting, working, cleaning, yielding, marking, putting, returned, from_check,
  from_release, OwnerPlace, outside, cancelling, cancelling_idle, killing, asserting, releasing,
  released, System, touch, thread_at, thread_step, owner_at, owner_step, check_from, check_runner,
  release_runner, unwind, Step, thread_moves, thread_unwinds, owner_moves, owner_checks,
  owner_releases, Run, here, next, runner, get_runner, new_runner,
}

-- The references of the thread and of the owner.
abbrev pub thread_holds : ThreadPlace → ℕ
thread_holds returned = 0
thread_holds _ = 1

abbrev pub owner_holds : OwnerPlace → ℕ
owner_holds released = 0
owner_holds _ = 1

-- Where the thread may stand at a status.
abbrev pub thread_fits : ThreadPlace → RunnerStatus → Bool
thread_fits starting runner_idle = true
thread_fits starting runner_cancelled = true
thread_fits working runner_running = true
thread_fits working runner_cancelled = true
thread_fits working runner_dead = true
thread_fits cleaning runner_running = true
thread_fits cleaning runner_cancelled = true
thread_fits cleaning runner_dead = true
thread_fits yielding runner_cancelled = true
thread_fits yielding runner_dead = true
thread_fits (marking runner_cancelled) runner_dead = true
thread_fits (marking runner_dead) runner_dead = true
thread_fits putting runner_done = true
thread_fits putting runner_dead = true
thread_fits returned runner_done = true
thread_fits returned runner_dead = true
thread_fits _ _ = false

-- Between the first access of `cancel_runner` to a running runner and its last one.
abbrev pub is_killing : OwnerPlace → Bool
is_killing (killing c) = true
is_killing (asserting c) = true
is_killing _ = false

abbrev pub is_cancelled : RunnerStatus → Bool
is_cancelled runner_cancelled = true
is_cancelled _ = false

-- The thread has not started, or is not yet past the point where it could be cancelled.
abbrev pub has_started : ThreadPlace → Bool
has_started starting = false
has_started _ = true

abbrev pub is_before_work : RunnerStatus → Bool
is_before_work runner_idle = true
is_before_work _ = false

abbrev pub is_live : RunnerStatus → Bool
is_live runner_idle = true
is_live runner_running = true
is_live _ = false

-- The status and the thread at a place of the owner: while it kills a thread that has started, the
-- status stays as it has set it; its second try does not find the status idle; and when it lets go, the
-- runner is no longer live.
abbrev pub owner_fits : OwnerPlace → ThreadPlace → RunnerStatus → Bool
owner_fits outside p st = true
owner_fits (cancelling c zero) p st = not (is_before_work st)
owner_fits (cancelling c (suc zero)) p st = true
owner_fits (cancelling c (suc (suc n))) p st = false
owner_fits (cancelling_idle c zero) p st = true
owner_fits (cancelling_idle c (suc n)) p st = false
owner_fits (killing c) p st = is_cancelled st && has_started p
owner_fits (asserting c) p st = is_cancelled st && has_started p
owner_fits releasing p st = not (is_live st)
owner_fits released p st = not (is_live st)

abbrev pub is_asserting : OwnerPlace → Bool
is_asserting (asserting c) = true
is_asserting _ = false

abbrev pub is_dead : RunnerStatus → Bool
is_dead runner_dead = true
is_dead _ = false

abbrev pub is_done : RunnerStatus → Bool
is_done runner_done = true
is_done _ = false

-- The function must have returned where the status is done, or is about to become so.
abbrev pub needs_completed : ThreadPlace → RunnerStatus → Bool
needs_completed cleaning runner_running = true
needs_completed p st = is_done st

-- What `check_runner` may return.
abbrev pub answer_fits : Option RunnerStatus → RunnerStatus → Bool
answer_fits none st = true
answer_fits (some runner_idle) st = false
answer_fits (some runner_done) st = is_done st
answer_fits (some _) st = true

pub record IsSound (s : System) : Type 0 where
  pub counted : s.refcnt ≡ thread_holds s.thread + owner_holds s.owner
  pub kept : s.freed ≡ (s.refcnt == 0)
  pub faultless : s.fault ≡ false
  pub place : thread_fits s.thread s.status ≡ true
  pub owner_place : owner_fits s.owner s.thread s.status ≡ true
  pub sent : (not s.cancel_sent || is_asserting s.owner || is_dead s.status) ≡ true
  pub finished : (not (needs_completed s.thread s.status) || s.completed) ≡ true
  pub fresh : (has_started s.thread || not s.completed) ≡ true
  pub answered : answer_fits s.answer s.status ≡ true

thread_at-IsSound :
    (p : ThreadPlace) (st : RunnerStatus) (s : System)
    → s.thread ≡ p
    → s.status ≡ st
    → IsSound s
    → IsSound (thread_at p s)
thread_at-IsSound starting runner_idle s e f h = ground arith
thread_at-IsSound (marking runner_idle) st s e f h = ground arith
thread_at-IsSound (marking runner_running) st s e f h = ground arith
thread_at-IsSound (marking runner_done) st s e f h = ground arith
thread_at-IsSound (marking runner_cancelled) st s e f h = ground arith
thread_at-IsSound (marking runner_dead) st s e f h = ground arith
thread_at-IsSound _ _ s e f h = ground arith

owner_at-IsSound :
    (p : OwnerPlace) (st : RunnerStatus) (s : System)
    → s.owner ≡ p
    → s.status ≡ st
    → IsSound s
    → IsSound (owner_at p s)
owner_at-IsSound outside st s e f h = h
owner_at-IsSound (cancelling from_check zero) runner_idle s e f h = ground arith
owner_at-IsSound (cancelling from_check (suc zero)) runner_idle s e f h = ground arith
owner_at-IsSound (cancelling from_check (suc (suc n))) runner_idle s e f h = ground arith
owner_at-IsSound (cancelling from_check zero) st s e f h = ground arith
owner_at-IsSound (cancelling from_release zero) st s e f h = ground arith
owner_at-IsSound (cancelling from_check (suc n)) st s e f h = ground arith
owner_at-IsSound (cancelling from_release (suc n)) st s e f h = ground arith
owner_at-IsSound (cancelling_idle from_check n) st s e f h = ground arith
owner_at-IsSound (cancelling_idle from_release n) st s e f h = ground arith
owner_at-IsSound (killing c) st s e f h = ground arith
owner_at-IsSound (asserting from_check) st s e f h = ground arith
owner_at-IsSound (asserting from_release) st s e f h = ground arith
owner_at-IsSound releasing st s e f h = ground arith
owner_at-IsSound released st s e f h = h

check_from-IsSound :
    (st : RunnerStatus) (expired : Bool) (s : System)
    → s.owner ≡ outside
    → s.status ≡ st
    → IsSound s
    → IsSound (check_from st expired (touch s))
check_from-IsSound runner_idle true s e f h = ground arith
check_from-IsSound _ expired s e f h = ground arith

pub Step-IsSound : {s t : System} → Step s t → IsSound s → IsSound t
unfolding thread_step owner_step check_runner release_runner unwind
Step-IsSound {s} thread_moves h = thread_at-IsSound s.thread s.status s refl refl h
Step-IsSound (thread_unwinds e f) h = ground arith
Step-IsSound {s} owner_moves h = owner_at-IsSound s.owner s.status s refl refl h
Step-IsSound {s} (owner_checks expired e) h = check_from-IsSound s.status expired s e refl h
Step-IsSound (owner_releases e) h = ground arith

pub Run-IsSound : {s t : System} → IsSound s → Run s t → IsSound t
Run-IsSound h here = h
Run-IsSound h (next r st) = Step-IsSound st (Run-IsSound h r)

pub new_runner-IsSound : IsSound new_runner
new_runner-IsSound = ground arith

pub get_runner-IsSound :
    (arguments allocated created : Bool) {s t : System}
    → get_runner arguments allocated created ≡ runner s
    → Run s t
    → IsSound t
unfolding get_runner
get_runner-IsSound true true true e r = Run-IsSound (subst IsSound (cc) new_runner-IsSound) r
get_runner-IsSound true true false e r = cc
get_runner-IsSound true false created e r = cc
get_runner-IsSound false allocated created e r = cc

freed_iff :
    (p : ThreadPlace) (o : OwnerPlace) (n : ℕ)
    → n ≡ thread_holds p + owner_holds o
    → ((n == 0) ≡ true) ↔ ((p ≡ returned) × (o ≡ released))
freed_iff returned released n h = ground arith
freed_iff returned o n h = ground arith
freed_iff p o n h = ground arith

-- After `get_runner`, whatever steps the thread and the owner take in any order: nobody has used the
-- context after it was freed, cancelled a thread that had returned or failed the assertion; and the
-- context is freed exactly when the thread has returned and the owner has released it.
pub get_runner-IsSafe :
    (arguments allocated created : Bool) {s t : System}
    → get_runner arguments allocated created ≡ runner s
    → Run s t
    → (t.fault ≡ false) × ((t.freed ≡ true) ↔ ((t.thread ≡ returned) × (t.owner ≡ released)))
get_runner-IsSafe a b c {t} e r =
    let h = get_runner-IsSound a b c e r in
    (h.faultless, rw h.kept (freed_iff t.thread t.owner t.refcnt h.counted))

-- Only the reference of the thread is left to give up, or none.
abbrev pub is_past_work : ThreadPlace → Bool
is_past_work putting = true
is_past_work returned = true
is_past_work _ = false

done_lem :
    (p : ThreadPlace) (st : RunnerStatus) (c : Bool)
    → thread_fits p st ≡ true
    → is_done st ≡ true
    → (not (needs_completed p st) || c) ≡ true
    → (c ≡ true) × (is_past_work p ≡ true)
done_lem starting st c e f g = ground arith
done_lem p st c e f g = ground arith

-- Where what `check_runner` has returned last is that the runner is done, the function has returned, and
-- the thread, whatever it does next, does not enter it again.
pub check_runner-IsDone :
    (arguments allocated created : Bool) {s t : System}
    → get_runner arguments allocated created ≡ runner s
    → Run s t
    → t.answer ≡ some runner_done
    → (t.completed ≡ true) × (is_past_work t.thread ≡ true)
check_runner-IsDone a b c {t} e r d =
    let h = get_runner-IsSound a b c e r in
    let done : is_done t.status ≡ true = subst (λ x. answer_fits x t.status ≡ true) d h.answered in
    done_lem t.thread t.status t.completed h.place done h.finished
