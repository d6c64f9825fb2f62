-- ===== src/Members/Agreement.antt =====
-- libmultipath/structs_vec.c: when the kernel, after the messages it is sent, agrees with the daemon.
use multipath_tools.Base.{
  ◌==◌, if◌then◌else◌, Bool-cases, ℕ, ◌≡◌, refl, inl, inr, Bool, true, false, not, ◌&&◌, ◌||◌, List,
  [], ◌∷◌,
}
use multipath_tools.Structs.{
  PathState, path_wild, path_unchecked, path_down, path_up, path_shaky, path_ghost, path_pending,
  path_timeout, path_removed, path_delayed, path_disconnected, DmState, pstate_undef, pstate_failed,
  pstate_active, Heap, is_usable, Message, fail_device, reinstate_device,
}
use multipath_tools.Members.{is_removed, is_passing, is_failing, may_be_failed, may_be_active}

-- The kernel's states of the paths after a message that it carries out.
abbrev pub obey : (ℕ → DmState) → Message → ℕ → DmState
obey v (reinstate_device a) b = if b == a then pstate_active else v b
obey v (fail_device a) b = if b == a then pstate_failed else v b
obey v _ b = v b

-- After the messages of a log, the newest of which comes first.
abbrev pub obey_all : (ℕ → DmState) → List Message → ℕ → DmState
obey_all v [] = v
obey_all v (m ∷ ms) = obey (obey_all v ms) m

abbrev pub is_active : DmState → Bool
is_active pstate_active = true
is_active _ = false

abbrev pub is_failed : DmState → Bool
is_failed pstate_failed = true
is_failed _ = false

-- A path that works is active in the kernel, and one that is down is failed.
abbrev pub is_agreed : PathState → DmState → Bool
is_agreed state dmstate =
    if is_usable state
    then is_active dmstate
    else if is_failing state
    then is_failed dmstate
    else true

-- The paths that `sync_map_state` does not pass over.
abbrev pub is_told : Heap → ℕ → Bool
is_told h a = not (is_removed (h a).initialized || is_passing (h a).state)

pub agreed_up : (s : PathState) → is_usable s ≡ true → is_agreed s pstate_active ≡ true
agreed_up s e = rw e refl

pub agreed_down :
    (s : PathState) → is_usable s ≡ false → is_failing s ≡ true → is_agreed s pstate_failed ≡ true
agreed_down s e f = rw (e, f) refl

pub agreed_quiet :
    (s : PathState) (d : DmState)
    → (may_be_failed d && is_usable s) ≡ false
    → (may_be_active d && is_failing s) ≡ false
    → is_agreed s d ≡ true
agreed_quiet s pstate_undef e f = rw (e, f) refl
agreed_quiet s pstate_failed e f =
    let e' : is_usable s ≡ false = e in
    elim (Bool-cases (is_failing s)) [ inl x ↦ rw (e', x) refl | inr x ↦ rw (e', x) refl ]
agreed_quiet s pstate_active e f =
    let f' : is_failing s ≡ false = f in
    elim (Bool-cases (is_usable s)) [ inl x ↦ rw x refl | inr x ↦ rw (x, f') refl ]

pub and_parts : (a b : Bool) → (a && b) ≡ true → b ≡ true
and_parts true b h = h
and_parts false b h = cc

pub failing_unusable : (s : PathState) → is_failing s ≡ true → is_usable s ≡ false
failing_unusable path_down e = refl
failing_unusable path_shaky e = refl
failing_unusable path_wild e = refl
failing_unusable path_unchecked e = refl
failing_unusable path_pending e = refl
failing_unusable path_timeout e = refl
failing_unusable path_removed e = refl
failing_unusable path_delayed e = refl
failing_unusable path_disconnected e = refl
failing_unusable path_up e = cc
failing_unusable path_ghost e = cc
