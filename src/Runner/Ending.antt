-- ===== src/Runner/Ending.antt =====
-- libmpathutil/runner.c: a runner that its owner has released ends.
use multipath_tools.Base.{
  Bool-cases, zero, suc, ◌≡◌, refl, sym, subst, ◌⊎◌, inl, inr, Bool, true, false, arith,
}
use multipath_tools.Runner.{
  RunnerStatus, runner_idle, runner_cancelled, runner_dead, ThreadPlace, starting, working,
  returned, from_check, from_release, OwnerPlace, outside, cancelling, cancelling_idle, killing,
  asserting, releasing, released, System, touch, thread_at, thread_step, owner_at, owner_step,
  check_from, check_runner, release_runner, unwind, Step, thread_moves, thread_unwinds, owner_moves,
  owner_checks, owner_releases, Run, here, next, runner, get_runner, new_runner,
}
use multipath_tools.Runner.Safety.{
  is_killing, is_cancelled, IsSound, Step-IsSound, Run-IsSound, new_runner-IsSound,
  get_runner-IsSound,
}
use multipath_tools.Runner.Stuck.{IsStuck, Step-IsStuck, start-IsStuck}

-- The steps that the thread has left at most, if the function returns.
abbrev pub four_steps : System → System
four_steps s = thread_step (thread_step (thread_step (thread_step s)))

four_steps-ends :
    (p : ThreadPlace) (st : RunnerStatus) (s : System)
    → s.thread ≡ p
    → s.status ≡ st
    → s.owner ≡ released
    → is_cancelled st ≡ false
    → IsSound s
    → ((four_steps s).thread ≡ returned) × ((four_steps s).freed ≡ true)
unfolding thread_step
four_steps-ends working runner_dead s e f o k h = ground arith
four_steps-ends p st s e f o k h = ground arith

-- A step to a cancelled status that is none of a kill: the runner was cancelled already, or its thread has
-- not started.
abbrev WasCancelled : System → System → Type 0
WasCancelled s t =
    ((s.status ≡ runner_cancelled) × (is_killing s.owner ≡ false)) ⊎ (t.thread ≡ starting)

thread_at-WasCancelled :
    (p : ThreadPlace) (st : RunnerStatus) (s : System)
    → s.status ≡ st
    → (thread_at p s).status ≡ runner_cancelled
    → is_killing s.owner ≡ false
    → WasCancelled s (thread_at p s)
thread_at-WasCancelled starting runner_cancelled s e c k = inl (e, k)
thread_at-WasCancelled p runner_cancelled s e c k = inl (e, k)
thread_at-WasCancelled starting st s e c k = absurd (ground arith)
thread_at-WasCancelled p st s e c k = absurd (ground arith)

owner-thread_at : (p : ThreadPlace) (s : System) → (thread_at p s).owner ≡ s.owner
owner-thread_at p s = ground arith

owner_at-WasCancelled :
    (p : OwnerPlace) (st : RunnerStatus) (s : System)
    → s.owner ≡ p
    → s.status ≡ st
    → IsSound s
    → (owner_at p s).status ≡ runner_cancelled
    → is_killing (owner_at p s).owner ≡ false
    → WasCancelled s (owner_at p s)
owner_at-WasCancelled (cancelling x n) runner_cancelled s o e h c k = inl (e, rw o refl)
owner_at-WasCancelled (cancelling from_check zero) st s o e h c k = absurd (ground arith)
owner_at-WasCancelled (cancelling from_check (suc n)) st s o e h c k = absurd (ground arith)
owner_at-WasCancelled (cancelling from_release zero) st s o e h c k = absurd (ground arith)
owner_at-WasCancelled (cancelling from_release (suc n)) st s o e h c k = absurd (ground arith)
owner_at-WasCancelled (cancelling_idle x n) runner_cancelled s o e h c k = inl (e, rw o refl)
owner_at-WasCancelled (cancelling_idle from_check n) runner_idle s o e h c k = inr (ground arith)
owner_at-WasCancelled (cancelling_idle from_release n) runner_idle s o e h c k = inr (ground arith)
owner_at-WasCancelled (cancelling_idle x n) st s o e h c k = absurd (ground arith)
owner_at-WasCancelled (killing x) st s o e h c k = absurd (ground arith)
owner_at-WasCancelled (asserting from_check) st s o e h c k = absurd (ground arith)
owner_at-WasCancelled (asserting from_release) st s o e h c k = absurd (ground arith)
owner_at-WasCancelled outside st s o e h c k = inl (c, rw o refl)
owner_at-WasCancelled releasing st s o e h c k = inl (c, rw o refl)
owner_at-WasCancelled released st s o e h c k = inl (c, rw o refl)

check_from-WasCancelled :
    (st : RunnerStatus) (expired : Bool) (s : System)
    → s.owner ≡ outside
    → (check_from st expired (touch s)).status ≡ runner_cancelled
    → WasCancelled s (check_from st expired (touch s))
check_from-WasCancelled st true s o c = inl (ground arith)
check_from-WasCancelled st false s o c = inl (ground arith)

Step-WasCancelled :
    {s t : System}
    → Step s t
    → IsSound s
    → t.status ≡ runner_cancelled
    → is_killing t.owner ≡ false
    → WasCancelled s t
unfolding thread_step owner_step check_runner release_runner unwind
Step-WasCancelled {s} thread_moves h c k =
    thread_at-WasCancelled s.thread s.status s refl c (rw (sym (owner-thread_at s.thread s)) k)
Step-WasCancelled (thread_unwinds e f) h c k = inl (c, k)
Step-WasCancelled {s} owner_moves h c k = owner_at-WasCancelled s.owner s.status s refl refl h c k
Step-WasCancelled {s} (owner_checks expired e) h c k =
    check_from-WasCancelled s.status expired s e c
Step-WasCancelled (owner_releases e) h c k = inl (c, rw e refl)

-- Whoever cancels a runner kills its thread, or the thread has not started and is stuck.
Spares : System → Type 0
Spares s = s.status ≡ runner_cancelled → is_killing s.owner ≡ false → IsStuck s

Step-Spares : {s t : System} → Step s t → IsSound s → IsSound t → Spares s → Spares t
unfolding Spares
Step-Spares {t} st h v f c k = elim (Step-WasCancelled st h c k) [
  | inl x ↦ Step-IsStuck st (f x.0 x.1)
  | inr x ↦ start-IsStuck t x c v
]

Run-Spares : {s t : System} → IsSound s → Spares s → Run s t → Spares t
Run-Spares h f here = f
Run-Spares h f (next r st) =
    let v = Run-IsSound h r in Step-Spares st v (Step-IsSound st v) (Run-Spares h f r)

new_runner-Spares : Spares new_runner
unfolding Spares
new_runner-Spares c k = cc

get_runner-Spares :
    (arguments allocated created : Bool) {s t : System}
    → get_runner arguments allocated created ≡ runner s
    → Run s t
    → Spares t
unfolding get_runner
get_runner-Spares true true true e r =
    Run-Spares (subst IsSound (cc) new_runner-IsSound) (subst Spares (cc) new_runner-Spares) r
get_runner-Spares true true false e r = cc
get_runner-Spares true false created e r = cc
get_runner-Spares false allocated created e r = cc

cancelled_status : (st : RunnerStatus) → is_cancelled st ≡ true → st ≡ runner_cancelled
cancelled_status runner_cancelled e = refl
cancelled_status st e = absurd (ground arith)

-- Once the owner has released the runner, whatever happened before: the thread has at most four steps
-- to make, if the function returns; then it has returned and the context is freed, with no fault. The
-- only exception is a runner that was cancelled before its thread had started: the status is still
-- cancelled, nobody has called `pthread_cancel` and the function has not returned. In particular every
-- runner that was killed with `pthread_cancel` ends.
pub released_runner-ends :
    (arguments allocated created : Bool) {s t : System}
    → get_runner arguments allocated created ≡ runner s
    → Run s t
    → t.owner ≡ released
    → (((four_steps t).thread ≡ returned)
        × ((four_steps t).freed ≡ true)
        × ((four_steps t).fault ≡ false))
      ⊎ ((t.status ≡ runner_cancelled) × (t.cancel_sent ≡ false) × (t.completed ≡ false))
unfolding Spares
released_runner-ends a b c {t} e r o =
    let h = get_runner-IsSound a b c e r in
    let m : Run t (four_steps t) =
      next (next (next (next here thread_moves) thread_moves) thread_moves) thread_moves in
    elim (Bool-cases (is_cancelled t.status)) [
      | inr n ↦
          let (p, f) = four_steps-ends t.thread t.status t refl refl o n h in
          inl (p, f, (Run-IsSound h m).faultless)
      | inl y ↦
          let q = cancelled_status t.status y in
          let stuck = get_runner-Spares a b c e r q (rw o refl) in inr (q, stuck.spared, stuck.idle)
    ]
