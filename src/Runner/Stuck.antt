-- ===== src/Runner/Stuck.antt =====
-- libmpathutil/runner.c: runners that never end.
use multipath_tools.Base.{◌+◌, ◌≡◌, refl, ◌≢◌, Bool, true, false, not, ◌||◌, arith}
use multipath_tools.Runner.{
  RunnerStatus, runner_cancelled, ThreadPlace, starting, cleaning, yielding, returned, from_check,
  from_release, OwnerPlace, cancelling, cancelling_idle, killing, asserting, System, touch,
  thread_at, thread_step, owner_at, owner_step, check_from, check_runner, release_runner, unwind,
  Step, thread_moves, thread_unwinds, owner_moves, owner_checks, owner_releases, Run, here, next,
  runner, get_runner,
}
use multipath_tools.Runner.Safety.{
  owner_holds, is_killing, owner_fits, is_asserting, is_dead, IsSound, get_runner-IsSound,
}

-- The thread has not run the function, and cannot be told to stop.
abbrev is_idling : ThreadPlace → Bool
is_idling starting = true
is_idling cleaning = true
is_idling yielding = true
is_idling _ = false

pub record IsStuck (s : System) : Type 0 where
  status : s.status ≡ runner_cancelled
  place : is_idling s.thread ≡ true
  owner : is_killing s.owner ≡ false
  counted : s.refcnt ≡ 1 + owner_holds s.owner
  kept : s.freed ≡ false
  pub idle : s.completed ≡ false
  pub spared : s.cancel_sent ≡ false

thread_at-IsStuck :
    (p : ThreadPlace) (s : System) → s.thread ≡ p → IsStuck s → IsStuck (thread_at p s)
thread_at-IsStuck starting s e h = ground arith
thread_at-IsStuck p s e h = ground arith

owner_at-IsStuck : (p : OwnerPlace) (s : System) → s.owner ≡ p → IsStuck s → IsStuck (owner_at p s)
owner_at-IsStuck (cancelling from_check n) s e h = ground arith
owner_at-IsStuck (cancelling from_release n) s e h = ground arith
owner_at-IsStuck (cancelling_idle from_check n) s e h = ground arith
owner_at-IsStuck (cancelling_idle from_release n) s e h = ground arith
owner_at-IsStuck p s e h = ground arith

check_from-IsStuck :
    (st : RunnerStatus) (expired : Bool) (s : System)
    → s.status ≡ st
    → IsStuck s
    → IsStuck (check_from st expired (touch s))
check_from-IsStuck runner_cancelled expired s f h = ground arith
check_from-IsStuck st expired s f h = ground arith

pub Step-IsStuck : {s t : System} → Step s t → IsStuck s → IsStuck t
unfolding thread_step owner_step check_runner release_runner unwind
Step-IsStuck {s} thread_moves h = thread_at-IsStuck s.thread s refl h
Step-IsStuck (thread_unwinds e f) h = ground arith
Step-IsStuck {s} owner_moves h = owner_at-IsStuck s.owner s refl h
Step-IsStuck {s} (owner_checks expired e) h = check_from-IsStuck s.status expired s refl h
Step-IsStuck (owner_releases e) h = ground arith

Run-IsStuck : {s t : System} → IsStuck s → Run s t → IsStuck t
Run-IsStuck h here = h
Run-IsStuck h (next r st) = Step-IsStuck st (Run-IsStuck h r)

not_killing :
    (o : OwnerPlace) (p : ThreadPlace) (st : RunnerStatus)
    → p ≡ starting
    → owner_fits o p st ≡ true
    → is_killing o ≡ false
not_killing (killing c) p st e h = ground arith
not_killing (asserting c) p st e h = ground arith
not_killing o p st e h = refl

not_spared :
    (o : OwnerPlace) (st : RunnerStatus) (sent : Bool)
    → st ≡ runner_cancelled
    → is_killing o ≡ false
    → (not sent || is_asserting o || is_dead st) ≡ true
    → sent ≡ false
not_spared (asserting c) st sent e k h = absurd (ground arith)
not_spared o st sent e k h = ground arith

pub start-IsStuck :
    (s : System) → s.thread ≡ starting → s.status ≡ runner_cancelled → IsSound s → IsStuck s
start-IsStuck s p q h = record {
  status = q;
  place = rw p refl;
  owner = not_killing s.owner s.thread s.status p h.owner_place;
  counted = ground arith;
  kept = ground arith;
  idle = ground arith;
  spared =
      not_spared s.owner s.status s.cancel_sent q
        (not_killing s.owner s.thread s.status p h.owner_place) h.sent;
}

stuck_place : (s : System) → IsStuck s → s.thread ≢ returned
stuck_place s h = ground arith

-- A runner that is cancelled before its thread has made a step, because its time is up or it is released:
-- whatever steps follow, the thread never returns and never runs the function, the status stays as it
-- is, and the context is never freed, also when the owner has released it.
pub cancelled_idle-leaks :
    (arguments allocated created : Bool) {s t u : System}
    → get_runner arguments allocated created ≡ runner s
    → Run s t
    → t.thread ≡ starting
    → t.status ≡ runner_cancelled
    → Run t u
    → (u.thread ≢ returned)
      × (u.completed ≡ false)
      × (u.status ≡ runner_cancelled)
      × (u.freed ≡ false)
cancelled_idle-leaks a b c {t} {u} e r p q v =
    let h = Run-IsStuck (start-IsStuck t p q (get_runner-IsSound a b c e r)) v in
    (stuck_place u h, h.idle, h.status, h.kept)
