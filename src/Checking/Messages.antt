-- ===== src/Checking/Messages.antt =====
-- multipathd/main.c: the messages of the steps of a path check.
use multipath_tools.Base.{
  ltb, Bool-cases, get_elem?, All, All-append, eqb_ℤ, ℕ, zero, suc, ◌≡◌, refl, sym, ap, ◌∙◌, inl,
  inr, Bool, true, false, ◌&&◌, ◌||◌, List, [], ◌∷◌, ◌++◌, append_assoc, arith,
}
use multipath_tools.Structs.{
  Heap, Message, queue_if_no_path, fail_if_no_path, fail_device, reinstate_device, switch_group,
  enable_group, check_registration, register_active_paths, Multipath, count_active_paths,
  dm_message,
}
use multipath_tools.Recovery.{
  no_path_retry_queue, dm_queue_if_no_path, is_positive, enter_recovery_mode, leave_recovery_mode,
  update_queue_mode_del_path, update_queue_mode_add_path,
}
use multipath_tools.Recovery.States.{dm_queue_if_no_path-Switched}
use multipath_tools.Checking.{fail_path, reinstate_path, disabled_group, groups_of, enable_group_of}

-- What may be sent about the path at `a`, in the group with the number `g`, if its new state is usable
-- (`u`), and if it is not; `reg` says whether a registration for it was found.
abbrev pub Fits : ℕ → Bool → ℕ → Bool → Message → Type 0
Fits g reg a u queue_if_no_path = u ≡ true
Fits g reg a u fail_if_no_path = ⊥
Fits g reg a u (fail_device b) = (b ≡ a) × (u ≡ false)
Fits g reg a u (reinstate_device b) = (b ≡ a) × (u ≡ true)
Fits g reg a u (switch_group i) = ⊥
Fits g reg a u (enable_group i) = (i ≡ g) × (u ≡ true)
Fits g reg a u (check_registration b) = (b ≡ a) × (u ≡ true)
Fits g reg a u register_active_paths = (reg ≡ true) × (u ≡ true)

-- The messages of the first list, and only such that fit, were sent after those of the second.
abbrev pub Adds : ℕ → Bool → ℕ → Bool → List Message → List Message → Type 0
Adds g reg a u after before =
    (news : List Message) × (after ≡ news ++ before) × All (Fits g reg a u) news

module _ (g : ℕ) (reg : Bool) (a : ℕ) (u : Bool) where
  pub Adds-refl : (s : List Message) → Adds g reg a u s s
  Adds-refl s = ([], refl, tt)

  pub Adds-trans :
      (s t r : List Message) → Adds g reg a u s t → Adds g reg a u t r → Adds g reg a u s r
  Adds-trans s t r (n, e, p) (n', e', p') = (
    n ++ n',
    e ∙ ap (λ k. n ++ k) e' ∙ sym (append_assoc n n' r),
    All-append (Fits g reg a u) n n' p p',
  )

  pub Adds-one :
      (m : Message) (s t : List Message) → s ≡ m ∷ t → Fits g reg a u m → Adds g reg a u s t
  Adds-one m s t e f = (m ∷ [], e, (f, tt))

  pub Adds-same : (s t : List Message) → s ≡ t → Adds g reg a u s t
  Adds-same s t e = ([], e, tt)

pub sent-dm_message : (mpp : Multipath) (m : Message) → (dm_message mpp m).1.sent ≡ m ∷ mpp.sent
unfolding dm_message
sent-dm_message mpp m = ground arith

pub sent-del_path :
    (checkint : ℕ) (h : Heap) (mpp : Multipath)
    → (update_queue_mode_del_path checkint h mpp).sent ≡ mpp.sent
unfolding update_queue_mode_del_path enter_recovery_mode
sent-del_path checkint h mpp = ground arith

module _ (g : ℕ) (reg : Bool) where
  pub leave_recovery_mode-Adds :
      (a : ℕ) (mpp : Multipath) → Adds g reg a true (leave_recovery_mode mpp).sent mpp.sent
  unfolding leave_recovery_mode
  leave_recovery_mode-Adds a mpp =
      let left = record mpp { in_recovery = false; retry_tick = 0 } in
      elim (Bool-cases (
        mpp.in_recovery
        && (eqb_ℤ mpp.no_path_retry no_path_retry_queue || is_positive mpp.no_path_retry))) [
          | inl e ↦ rw e (
              Adds-one g reg a true queue_if_no_path (dm_queue_if_no_path true left).sent mpp.sent
                (dm_queue_if_no_path-Switched true left).message refl)
          | inr e ↦ rw e (Adds-refl g reg a true mpp.sent)
        ]

  pub add_path-Adds :
      (a : ℕ) (h : Heap) (mpp : Multipath)
      → Adds g reg a true (update_queue_mode_add_path h mpp).sent mpp.sent
  unfolding update_queue_mode_add_path
  add_path-Adds a h mpp = elim (Bool-cases (ltb 0 (count_active_paths h mpp))) [
    | inl e ↦ rw e (leave_recovery_mode-Adds a mpp)
    | inr e ↦ rw e (Adds-refl g reg a true mpp.sent)
  ]

  pub fail_path-Adds :
      (checkint : ℕ) (h : Heap) (mpp : Multipath) (a : ℕ) (del_active : Bool)
      → Adds g reg a false (fail_path checkint h mpp a del_active).sent mpp.sent
  unfolding fail_path
  fail_path-Adds checkint h mpp a true =
      Adds-one g reg a false (fail_device a) _ mpp.sent
        (sent-del_path checkint h (dm_message mpp (fail_device a)).1
          ∙ sent-dm_message mpp (fail_device a))
        (refl, refl)
  fail_path-Adds checkint h mpp a false =
      Adds-one g reg a false (fail_device a) _ mpp.sent (sent-dm_message mpp (fail_device a))
        (refl, refl)

  pub reinstate_path-Adds :
      (h : Heap) (mpp : Multipath) (a : ℕ)
      → Adds g reg a true (reinstate_path h mpp a).sent mpp.sent
  unfolding reinstate_path
  reinstate_path-Adds h mpp a =
      let r = dm_message mpp (reinstate_device a) in
      let one =
        Adds-one g reg a true (reinstate_device a) r.1.sent mpp.sent
          (sent-dm_message mpp (reinstate_device a)) (refl, refl) in
      elim (Bool-cases r.0) [
        | inl e ↦ rw e (Adds-trans g reg a true _ r.1.sent mpp.sent (add_path-Adds a h r.1) one)
        | inr e ↦ rw e one
      ]

  pub enable_group_of-Adds :
      (a : ℕ) (mpp : Multipath) (i : ℕ)
      → i ≡ g
      → Adds g reg a true (enable_group_of mpp i).sent mpp.sent
  unfolding enable_group_of
  enable_group_of-Adds a mpp zero same = Adds-refl g reg a true mpp.sent
  enable_group_of-Adds a mpp (suc i) same =
      elim (Bool-cases (disabled_group (get_elem? (groups_of mpp) i))) [
        | inl e ↦ rw e (
            Adds-one g reg a true (enable_group (suc i)) _ mpp.sent
              (sent-dm_message mpp (enable_group (suc i))) (same, refl))
        | inr e ↦ rw e (Adds-refl g reg a true mpp.sent)
      ]
