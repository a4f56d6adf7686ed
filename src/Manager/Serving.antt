-- ===== src/Manager/Serving.antt =====
-- What lumenos_sandbox/manager.py promises of a call that returns: a session that started runs in an
-- ACTIVE bunker, and retiring a bunker always ends.
use lumenos_hiper_v.Prelude.{
  Bool, true, false, Option, none, some, ◌≡◌, refl, ◌≢◌, ◌⊎◌, inl, inr, ◌||◌, Bool-cases, arith,
  Outcome, ok, Ensures, Ensures-ok, Ensures-any, Ensures-err, Ensures-bind, Ensures-weaken,
  if◌then◌else◌, pure,
}
use lumenos_hiper_v.Types.{BunkerState, active, ready, destroyed, state_eq}
use lumenos_hiper_v.Types.Transitions.{state_eq-eq}
use lumenos_hiper_v.Host.{Env}
use lumenos_hiper_v.Bunker.{Bunker}
use lumenos_hiper_v.Bunker.Session.{activate, terminate}
use lumenos_hiper_v.Bunker.Inactive.{activate-Active}
use lumenos_hiper_v.Bunker.Closing.{terminate_outcome, terminate-Refused}
use lumenos_hiper_v.Bunker.Holding.{force_quarantine_outcome}
use lumenos_hiper_v.Manager.{
  Slot, first, second, DualBunkerManager, bunker_at, on_slot, bring_up, install_first, start_first,
  change_places, wait_decontaminated, after_termination, retire, replace, rotate_bunkers,
  rotate_from, start_from, start_session,
}
use lumenos_hiper_v.Manager.Seen.{put-Seen}

-- `state in (ACTIVE, READY)`
abbrev is_running : BunkerState → Bool
is_running st = state_eq st active || state_eq st ready

is_running-cases : (st : BunkerState) → is_running st ≡ true → (st ≡ active) ⊎ (st ≡ ready)
is_running-cases st h = ground arith

is_running-not : (st : BunkerState) → is_running st ≡ false → st ≢ active
is_running-not st h = ground arith

module _ {W : Type 0} (env : Env W) where
  -- The bunker in a slot is ACTIVE, unless the call returned False.
  abbrev Live : Slot → Bool → DualBunkerManager × W → Type 0
  Live i r t = (r ≡ false) ⊎ ((bunker_at i t.0).state ≡ active)

  activate-Live :
      (i : Slot) (m : DualBunkerManager) (w : W)
      → Ensures (Live i) (λ _ _. Unit) (on_slot i (activate env) (m, w))
  activate-Live i m w =
      Ensures-weaken (put-Seen i m _ (activate-Active env (bunker_at i m, w))) (λ _ _ p. p.1)
        λ _ _ _. tt

  up_or_not :
      (i : Slot) (r : Bool) (t : DualBunkerManager × W)
      → Ensures (Live i) (λ _ _. Unit) ((if r then on_slot i (activate env) else pure false) t)
  up_or_not i true t = activate-Live i t.0 t.1
  up_or_not i false t = Ensures-ok (inl refl)

  bring_up-Live :
      (i : Slot) (s : DualBunkerManager × W) → Ensures (Live i) (λ _ _. Unit) (bring_up env i s)
  unfolding bring_up
  bring_up-Live i s = Ensures-bind (Ensures-any _) λ r t _. up_or_not i r t

  -- The bunker that the manager refers to as active is ACTIVE.
  abbrev pub Serving : DualBunkerManager → Type 0
  Serving m = (i : Slot) × (m.active_bunker ≡ some i) × ((bunker_at i m).state ≡ active)

  abbrev Served : Outcome Bool × (DualBunkerManager × W) → Type 0
  Served = Ensures (λ r t. (r ≡ false) ⊎ Serving t.0) (λ _ _. Unit)

  start_first-Served : (s : DualBunkerManager × W) → Served (start_first env s)
  unfolding start_first install_first
  start_first-Served s = Ensures-bind (bring_up-Live first s) installed
    where
      installed :
          (r : Bool) (t : DualBunkerManager × W) → Live first r t → Served (install_first env r t)
      installed true t (inr on) = Ensures-ok (inr (first, refl, on))
      installed true t (inl off) = ground (arith, off)
      installed false t p = Ensures-ok (inl refl)

  changed-Served :
      (i j : Slot) (r : Bool) (t : DualBunkerManager × W)
      → Live j r t
      → Served (change_places env i j r t)
  unfolding change_places
  changed-Served i first true t (inr on) = Ensures-ok (inr (first, refl, on))
  changed-Served i second true t (inr on) = Ensures-ok (inr (second, refl, on))
  changed-Served i j true t (inl off) = ground (arith, off)
  changed-Served i j false t p = Ensures-ok (inl refl)

  replace-Served :
      (i j : Slot) (r : Bool) (t : DualBunkerManager × W) → Served (replace env i j r t)
  unfolding replace
  replace-Served i j true t = Ensures-bind (bring_up-Live j t) λ r u p. changed-Served i j r u p
  replace-Served i j false t = Ensures-ok (inl refl)

  rotate_from-Served :
      (i : Slot) (j : Option Slot) (s : DualBunkerManager × W) → Served (rotate_from env i j s)
  unfolding rotate_from rotate_bunkers
  rotate_from-Served i none s = Ensures-err tt
  rotate_from-Served i (some j) s = Ensures-bind (Ensures-any _) λ r t _. replace-Served i j r t

  start_from-Served :
      (a j : Option Slot) (m : DualBunkerManager) (w : W)
      → m.active_bunker ≡ a
      → Served (start_from env a j (m, w))
  unfolding start_from
  start_from-Served none j m w e = start_first-Served (m, w)
  start_from-Served (some i) j m w e = elim (Bool-cases (state_eq (bunker_at i m).state active)) [
    | inl live ↦ rw (live, start_from) (Ensures-ok (inr (i, e, state_eq-eq _ active live)))
    | inr over ↦ rw (over, start_from) (rotate_from-Served i j (m, w))
  ]

  -- Where `start_session` returns True, `active_bunker` refers to a bunker that is ACTIVE.
  pub start_session-Serving :
      (m : DualBunkerManager) (w : W)
      → Ensures (λ r t. (r ≡ false) ⊎ Serving t.0) (λ _ _. Unit) (start_session env (m, w))
  unfolding start_session
  start_session-Serving m w = start_from-Served m.active_bunker m.inactive_bunker m w refl

  -- What a call of `terminate` that the rotation makes ends with.
  abbrev Terminated : Bool → Bunker × W → Type 0
  Terminated r t = (r ≡ false) ⊎ (t.0.state ≡ destroyed)

  terminate-Terminated :
      (s : Bunker × W)
      → (s.0.state ≡ active) ⊎ (s.0.state ≡ ready)
      → Ensures Terminated (λ _ _. ⊥) (terminate env s)
  terminate-Terminated s (inl on) = record {
    holds = ground (arith, (terminate_outcome env s on).holds);
  }
  terminate-Terminated s (inr off) = record {
    holds = ground (arith, (terminate-Refused env s (ground (arith, off))).holds);
  }

  wait_ended :
      (i : Slot) (m : DualBunkerManager) (w : W)
      → (bunker_at i m).state ≡ destroyed
      → wait_decontaminated env 1 i (m, w) ≡ (ok tt, (m, w))
  unfolding wait_decontaminated
  wait_ended i m w h = rw h refl

  after_termination-ends :
      (i : Slot) (r : Bool) (t : DualBunkerManager × W)
      → Terminated r (bunker_at i t.0, t.1)
      → Ensures
          (λ r t. (r ≡ false) ⊎ ((bunker_at i t.0).state ≢ active))
          (λ _ _. ⊥)
          (after_termination env i r t)
  unfolding after_termination
  after_termination-ends i true t (inl h) = ground (arith, h)
  after_termination-ends i true t (inr h) =
      rw (wait_ended i t.0 t.1 h) (Ensures-ok (inr (λ on. ground (arith, h, on))))
  after_termination-ends i false t h =
      Ensures-bind
        (Ensures-weaken
          (put-Seen i t.0 _
            (force_quarantine_outcome env "Fallo en terminación" (bunker_at i t.0, t.1)))
          (λ _ _ _. tt) λ _ _ p. p.1)
        λ _ _ _. Ensures-ok (inl refl)

  -- The first half of a rotation raises nothing, so its wait for the decontamination ends within the
  -- one round that it is given; and where it returns True the old bunker is not ACTIVE.
  pub retire_outcome :
      (i : Slot) (m : DualBunkerManager) (w : W)
      → Ensures
          (λ r t. (r ≡ false) ⊎ ((bunker_at i t.0).state ≢ active))
          (λ _ _. ⊥)
          (retire env i (m, w))
  unfolding retire
  retire_outcome i m w = elim (Bool-cases (is_running (bunker_at i m).state)) [
    | inl running ↦
        rw (running, retire)
          (Ensures-bind
            (Ensures-weaken
              (put-Seen i m _
                (terminate-Terminated (bunker_at i m, w) (is_running-cases _ running)))
              (λ _ _ p. p.1) λ _ _ p. p.1)
            λ r t p. after_termination-ends i r t p)
    | inr over ↦ rw (over, retire) (Ensures-ok (inr (is_running-not (bunker_at i m).state over)))
  ]
