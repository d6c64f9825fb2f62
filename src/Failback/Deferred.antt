-- ===== src/Failback/Deferred.antt =====
-- multipathd/main.c, `deferred_failback_tick`: the wait before a failback.
use multipath_tools.Base.{
  ltb, ◌==◌, if◌then◌else◌, Bool-cases, length, eqb_ℤ, ℕ, zero, suc, ◌+◌, ◌-◌, ◌≡◌, refl, ap, ◌∙◌,
  inl, inr, true, false, not, ◌&&◌, ◌∷◌, arith,
}
use multipath_tools.Structs.{Heap, switch_group, Multipath, dm_message}
use multipath_tools.Recovery.{is_positive}
use multipath_tools.Failback.{
  failback_manual, group_list, need_switch_pathgroup, switch_pathgroup, deferred_failback_tick,
}

-- So many seconds, none of which asks for a reload before the last.
abbrev pub failback_ticks : Heap → ℕ → Multipath → Multipath
failback_ticks h zero mpp = mpp
failback_ticks h (suc n) mpp = failback_ticks h n (deferred_failback_tick h mpp).1

abbrev at_tick : Multipath → ℕ → Multipath
at_tick mpp n = record mpp { failback_tick = n }

tick_early :
    (h : Heap) (mpp : Multipath) (n : ℕ)
    → is_positive mpp.pgfailback ≡ true
    → deferred_failback_tick h (at_tick mpp (suc (suc n))) ≡ (false, at_tick mpp (suc n))
unfolding deferred_failback_tick
tick_early h mpp n p =
    let a : (suc (suc n) == 0) ≡ false = ground arith in
    let b : (suc (suc n) - 1) ≡ suc n = omega arith in
    let c : (suc n == 0) ≡ false = ground arith in rw (p, a, b, c) refl

ticks_early :
    (h : Heap) (mpp : Multipath) (k n : ℕ)
    → is_positive mpp.pgfailback ≡ true
    → failback_ticks h k (at_tick mpp (k + suc n)) ≡ at_tick mpp (suc n)
ticks_early h mpp zero n p = ap (at_tick mpp) (omega arith)
ticks_early h mpp (suc k) n p =
    let e : suc k + suc n ≡ suc (suc (k + n)) = omega arith in
    let f : suc (k + n) ≡ k + suc n = omega arith in
    rw (e, tick_early h mpp (k + n) p, f) (ticks_early h mpp k n p)

sent-switch_pathgroup :
    (mpp : Multipath) → (switch_pathgroup mpp).sent ≡ switch_group mpp.bestpg ∷ mpp.sent
unfolding switch_pathgroup dm_message
sent-switch_pathgroup mpp = ground arith

sent-need_switch_pathgroup :
    (h : Heap) (mpp : Multipath) → (need_switch_pathgroup h mpp).1.sent ≡ mpp.sent
unfolding need_switch_pathgroup
sent-need_switch_pathgroup h mpp = elim (Bool-cases (ltb (length (group_list mpp.pg)) 2)) [
  | inl e ↦ rw e refl
  | inr e ↦ elim (Bool-cases (eqb_ℤ mpp.pgfailback failback_manual)) [
    | inl k ↦ rw (e, k) refl
    | inr k ↦ rw (e, k) refl
  ]
]

tick_last :
    (h : Heap) (mpp : Multipath)
    → is_positive mpp.pgfailback ≡ true
    → let r = need_switch_pathgroup h (at_tick mpp 0) in
      let last = deferred_failback_tick h (at_tick mpp 1) in
      (last.0 ≡ (r.0.0 && r.0.1))
      × (last.1.sent
          ≡ (if r.0.0 && not r.0.1 then switch_group r.1.bestpg ∷ mpp.sent else mpp.sent))
unfolding deferred_failback_tick
tick_last h mpp p =
    let r = need_switch_pathgroup h (at_tick mpp 0) in
    let same = sent-need_switch_pathgroup h (at_tick mpp 0) in
    elim (Bool-cases r.0.0) [
      | inr e ↦ rw (p, e) (refl, same)
      | inl e ↦ elim (Bool-cases r.0.1) [
        | inl k ↦ rw (p, e, k) (refl, same)
        | inr k ↦
            rw (p, e, k)
              (refl, sent-switch_pathgroup r.1 ∙ ap (λ s. switch_group r.1.bestpg ∷ s) same)
      ]
    ]

tick_idle :
    (h : Heap) (mpp : Multipath)
    → mpp.failback_tick ≡ 0
    → deferred_failback_tick h mpp ≡ (false, mpp)
unfolding deferred_failback_tick
tick_idle h mpp e = elim (Bool-cases (is_positive mpp.pgfailback)) [
  | inl p ↦ rw (e, p) refl
  | inr p ↦ rw (e, p) refl
]

ticks_idle :
    (h : Heap) (j : ℕ) (mpp : Multipath) → mpp.failback_tick ≡ 0 → failback_ticks h j mpp ≡ mpp
ticks_idle h zero mpp e = refl
ticks_idle h (suc j) mpp e = rw (tick_idle h mpp e) (ticks_idle h j mpp e)

failback_tick-switch_pathgroup :
    (mpp : Multipath) → (switch_pathgroup mpp).failback_tick ≡ mpp.failback_tick
unfolding switch_pathgroup dm_message
failback_tick-switch_pathgroup mpp = ground arith

failback_tick-need_switch_pathgroup :
    (h : Heap) (mpp : Multipath) → (need_switch_pathgroup h mpp).1.failback_tick ≡ mpp.failback_tick
unfolding need_switch_pathgroup
failback_tick-need_switch_pathgroup h mpp = ground arith

-- The last second leaves the counter at 0, whatever it does.
tick_over :
    (h : Heap) (mpp : Multipath)
    → is_positive mpp.pgfailback ≡ true
    → (deferred_failback_tick h (at_tick mpp 1)).1.failback_tick ≡ 0
unfolding deferred_failback_tick
tick_over h mpp p =
    let r = need_switch_pathgroup h (at_tick mpp 0) in
    let over = failback_tick-need_switch_pathgroup h (at_tick mpp 0) in
    elim (Bool-cases r.0.0) [
      | inr e ↦ rw (p, e) over
      | inl e ↦ elim (Bool-cases r.0.1) [
        | inl k ↦ rw (p, e, k) over
        | inr k ↦ rw (p, e, k) (failback_tick-switch_pathgroup r.1 ∙ over)
      ]
    ]

-- A map with a failback delay and `n + 1` seconds left to wait: `n` seconds change nothing but the
-- counter. The next one sends a switch to the best group, if one is needed and the order of the groups
-- takes no reload, and asks for a reload, if one is needed for their order; otherwise it sends nothing.
-- It leaves the counter at 0, and from then on, however many seconds go by, the counter changes nothing
-- and asks for nothing: the failback is not done again until somebody sets the counter.
pub deferred_failback_waits :
    (h : Heap) (mpp : Multipath) (n : ℕ)
    → is_positive mpp.pgfailback ≡ true
    → mpp.failback_tick ≡ suc n
    → let r = need_switch_pathgroup h (record mpp { failback_tick = 0 }) in
      let last = deferred_failback_tick h (failback_ticks h n mpp) in
      (failback_ticks h n mpp ≡ record mpp { failback_tick = 1 })
      × (last.0 ≡ (r.0.0 && r.0.1))
      × (last.1.sent
          ≡ (if r.0.0 && not r.0.1 then switch_group r.1.bestpg ∷ mpp.sent else mpp.sent))
      × (last.1.failback_tick ≡ 0)
      × ((k : Heap) (j : ℕ)
          → (failback_ticks k j last.1 ≡ last.1)
            × ((deferred_failback_tick k (failback_ticks k j last.1)).0 ≡ false))
deferred_failback_waits h mpp n p t =
    let count : mpp.failback_tick ≡ n + 1 = omega arith in
    let early = ap (λ k. failback_ticks h n (at_tick mpp k)) count ∙ ticks_early h mpp n 0 p in
    let last = (deferred_failback_tick h (at_tick mpp 1)).1 in
    let over = tick_over h mpp p in
    (
      early,
      rw early (tick_last h mpp p).0,
      rw early (tick_last h mpp p).1,
      rw early over,
      λ k j. rw (early, ticks_idle k j last over) (refl, ap (λ r. r.0) (tick_idle k last over)),
    )
