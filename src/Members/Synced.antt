-- ===== src/Members/Synced.antt =====
-- libmultipath/structs_vec.c: after `sync_map_state` the kernel agrees with the daemon.
use multipath_tools.Base.{
  ◌==◌, if◌then◌else◌, ==→eq, ==_refl, Bool-cases, All, All-append, All-mono, pos, ltb_ℤ, ℕ, ◌≡◌,
  refl, sym, ◌∙◌, subst, ◌⊎◌, inl, inr, true, false, not, ◌&&◌, ◌||◌, some, List, [], ◌∷◌, ◌++◌,
  arith,
}
use multipath_tools.Structs.{
  DmState, pstate_failed, pstate_active, Heap, PathGroup, is_usable, Message, fail_device,
  reinstate_device, Multipath, dm_message,
}
use multipath_tools.Pgpolicy.Partition.{flat}
use multipath_tools.Checking.Messages.{sent-dm_message}
use multipath_tools.Members.{
  is_removed, is_passing, is_failing, may_be_failed, may_be_active, sync_path, sync_paths,
  sync_groups, sync_map_state,
}
use multipath_tools.Members.Agreement.{
  obey_all, is_agreed, is_told, agreed_up, agreed_down, agreed_quiet, and_parts, failing_unusable,
}

module _ (h : Heap) where
  -- The kernel's state of a path according to the log.
  view : List Message → ℕ → DmState
  view = obey_all (λ a. (h a).dmstate)

  -- It is what the daemon read, or agrees.
  IsFollowed : List Message → Type 0
  IsFollowed ms = (b : ℕ) → (view ms b ≡ (h b).dmstate) ⊎ (is_agreed (h b).state (view ms b) ≡ true)

  -- What one path adds to the log.
  data Sent (a : ℕ) (ms : List Message) : List Message → Type 0 where
    up : is_usable (h a).state ≡ true → Sent a ms (reinstate_device a ∷ ms)
    down :
        is_usable (h a).state ≡ false
        → is_failing (h a).state ≡ true
        → Sent a ms (fail_device a ∷ ms)
    quiet : (is_told h a ≡ true → is_agreed (h a).state (h a).dmstate ≡ true) → Sent a ms ms

  sync_path-Sent :
      (a : ℕ) (mpp : Multipath)
      → ltb_ℤ (pos 0) mpp.ghost_delay_tick ≡ false
      → Sent a mpp.sent (sync_path h false a mpp).sent
  unfolding sync_path
  sync_path-Sent a mpp g =
      let away = is_removed (h a).initialized || is_passing (h a).state in
      let rise = may_be_failed (h a).dmstate && is_usable (h a).state in
      let drop_it = may_be_active (h a).dmstate && is_failing (h a).state in
      elim (Bool-cases away) [
        | inl x ↦ rw x (quiet (λ t. absurd (let z : not true ≡ true = rw x at t in ground arith)))
        | inr x ↦ elim (Bool-cases rise) [
          | inl y ↦
              rw (x, g, y)
                (subst (Sent a mpp.sent) (sym (sent-dm_message mpp (reinstate_device a)))
                  (up (and_parts (may_be_failed (h a).dmstate) (is_usable (h a).state) y)))
          | inr y ↦ elim (Bool-cases drop_it) [
            | inl z ↦
                let f = and_parts (may_be_active (h a).dmstate) (is_failing (h a).state) z in
                rw (x, g, y, z)
                  (subst (Sent a mpp.sent) (sym (sent-dm_message mpp (fail_device a)))
                    (down (failing_unusable (h a).state f) f))
            | inr z ↦ rw (x, g, y, z) (quiet (λ t. agreed_quiet (h a).state (h a).dmstate y z))
          ]
        ]
      ]

  sync_path_delay :
      (a : ℕ) (mpp : Multipath) → (sync_path h false a mpp).ghost_delay_tick ≡ mpp.ghost_delay_tick
  unfolding sync_path dm_message
  sync_path_delay a mpp = ground arith

  -- The kernel's state of `b` after a message about `a`.
  told_about :
      (a b : ℕ) (d d' : DmState)
      → is_agreed (h a).state d ≡ true
      → is_agreed (h b).state d' ≡ true
      → is_agreed (h b).state (if b == a then d else d') ≡ true
  told_about a b d d' p q = elim (Bool-cases (b == a)) [
    | inl e ↦ rw e (subst (λ c. is_agreed (h c).state d ≡ true) (sym (==→eq b a e)) p)
    | inr e ↦ rw e q
  ]

  -- Agreement about any path lasts.
  Sent-agreed :
      (a b : ℕ) (ms ms' : List Message)
      → Sent a ms ms'
      → is_agreed (h b).state (view ms b) ≡ true
      → is_agreed (h b).state (view ms' b) ≡ true
  unfolding view
  Sent-agreed a b ms _ (up e) k =
      told_about a b pstate_active (view ms b) (agreed_up (h a).state e) k
  Sent-agreed a b ms _ (down e f) k =
      told_about a b pstate_failed (view ms b) (agreed_down (h a).state e f) k
  Sent-agreed a b ms _ (quiet q) k = k

  told_or_not :
      (a b : ℕ) (d d' : DmState)
      → is_agreed (h a).state d ≡ true
      → (d' ≡ (h b).dmstate) ⊎ (is_agreed (h b).state d' ≡ true)
      → ((if b == a then d else d') ≡ (h b).dmstate)
        ⊎ (is_agreed (h b).state (if b == a then d else d') ≡ true)
  told_or_not a b d d' p q = elim (Bool-cases (b == a)) [
    | inl e ↦ rw e (inr (subst (λ c. is_agreed (h c).state d ≡ true) (sym (==→eq b a e)) p))
    | inr e ↦ rw e q
  ]

  Sent-IsFollowed : (a : ℕ) (ms ms' : List Message) → Sent a ms ms' → IsFollowed ms → IsFollowed ms'
  unfolding view IsFollowed
  Sent-IsFollowed a ms _ (up e) k b =
      told_or_not a b pstate_active (view ms b) (agreed_up (h a).state e) (k b)
  Sent-IsFollowed a ms _ (down e f) k b =
      told_or_not a b pstate_failed (view ms b) (agreed_down (h a).state e f) (k b)
  Sent-IsFollowed a ms _ (quiet q) k b = k b

  Sent-here :
      (a : ℕ) (ms ms' : List Message)
      → Sent a ms ms'
      → IsFollowed ms
      → is_told h a ≡ true
      → is_agreed (h a).state (view ms' a) ≡ true
  unfolding view IsFollowed
  Sent-here a ms _ (up e) k t = rw (==_refl a) (agreed_up (h a).state e)
  Sent-here a ms _ (down e f) k t = rw (==_refl a) (agreed_down (h a).state e f)
  Sent-here a ms _ (quiet q) k t = elim (k a) [ inl v ↦ rw v (q t) | inr v ↦ v ]

  -- What a run over some paths leaves in the log.
  record Told (addrs : List ℕ) (mpp mpp' : Multipath) : Type 0 where
    followed : IsFollowed mpp'.sent
    agreed : All (λ a. is_told h a ≡ true → is_agreed (h a).state (view mpp'.sent a) ≡ true) addrs
    lasting :
        (b : ℕ)
        → is_agreed (h b).state (view mpp.sent b) ≡ true
        → is_agreed (h b).state (view mpp'.sent b) ≡ true
    delay : mpp'.ghost_delay_tick ≡ mpp.ghost_delay_tick

  Told-trans :
      (xs ys : List ℕ) (l m n : Multipath) → Told xs l m → Told ys m n → Told (xs ++ ys) l n
  Told-trans xs ys l m n p q = record {
    followed = q.followed;
    agreed =
        All-append (λ a. is_told h a ≡ true → is_agreed (h a).state (view n.sent a) ≡ true) xs ys
          (All-mono (λ a. is_told h a ≡ true → is_agreed (h a).state (view m.sent a) ≡ true)
            (λ a. is_told h a ≡ true → is_agreed (h a).state (view n.sent a) ≡ true)
            (λ a f t. q.lasting a (f t)) xs p.agreed)
          q.agreed;
    lasting = λ b k. q.lasting b (p.lasting b k);
    delay = q.delay ∙ p.delay;
  }

  sync_path-Told :
      (a : ℕ) (mpp : Multipath)
      → ltb_ℤ (pos 0) mpp.ghost_delay_tick ≡ false
      → IsFollowed mpp.sent
      → Told (a ∷ []) mpp (sync_path h false a mpp)
  sync_path-Told a mpp g f =
      let s = sync_path-Sent a mpp g in
      let ms = (sync_path h false a mpp).sent in
      record {
        followed = Sent-IsFollowed a mpp.sent ms s f;
        agreed = (Sent-here a mpp.sent ms s f, tt);
        lasting = λ b. Sent-agreed a b mpp.sent ms s;
        delay = sync_path_delay a mpp;
      }

  sync_paths-Told :
      (addrs : List ℕ) (mpp : Multipath)
      → ltb_ℤ (pos 0) mpp.ghost_delay_tick ≡ false
      → IsFollowed mpp.sent
      → Told addrs mpp (sync_paths h false addrs mpp)
  unfolding sync_paths
  sync_paths-Told [] mpp g f = record {
    followed = f;
    agreed = tt;
    lasting = λ b k. k;
    delay = refl;
  }
  sync_paths-Told (a ∷ rest) mpp g f =
      let m = sync_path h false a mpp in
      let t = sync_path-Told a mpp g f in
      Told-trans (a ∷ []) rest mpp m (sync_paths h false rest m) t
        (sync_paths-Told rest m (rw t.delay g) t.followed)

  sync_groups-Told :
      (gs : List PathGroup) (mpp : Multipath)
      → ltb_ℤ (pos 0) mpp.ghost_delay_tick ≡ false
      → IsFollowed mpp.sent
      → Told (flat gs) mpp (sync_groups h false gs mpp)
  unfolding sync_groups
  sync_groups-Told [] mpp g f = sync_paths-Told [] mpp g f
  sync_groups-Told (x ∷ gs) mpp g f =
      let m = sync_paths h false x.paths mpp in
      let t = sync_paths-Told x.paths mpp g f in
      Told-trans x.paths (flat gs) mpp m (sync_groups h false gs m) t
        (sync_groups-Told gs m (rw t.delay g) t.followed)

-- `sync_map_state` with `reinstate_only` false, on a map with groups and an empty log, while no delay
-- for ghost paths runs: if the kernel carries out what it is told, then of the paths of the groups that
-- are not passed over, those that work are active in the kernel, and those that are down or shaky are
-- failed; and the state of any path in the kernel is the one that the daemon has read, or agrees.
pub sync_map_state_agrees :
    (h : Heap) (mpp : Multipath) (gs : List PathGroup)
    → mpp.pg ≡ some gs
    → mpp.sent ≡ []
    → ltb_ℤ (pos 0) mpp.ghost_delay_tick ≡ false
    → let after = obey_all (λ a. (h a).dmstate) (sync_map_state h false mpp).sent in
      All (λ a. is_told h a ≡ true → is_agreed (h a).state (after a) ≡ true) (flat gs)
      × ((b : ℕ) → (after b ≡ (h b).dmstate) ⊎ (is_agreed (h b).state (after b) ≡ true))
unfolding sync_map_state view IsFollowed
sync_map_state_agrees h mpp gs e l g =
    let t = sync_groups-Told h gs mpp g (λ b. rw l (inl refl)) in
    rw (sync_map_state, e) (t.agreed, t.followed)
