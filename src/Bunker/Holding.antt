-- ===== src/Bunker/Holding.antt =====
-- What `Bunker.force_quarantine` leaves behind.
use lumenos_hiper_v.Prelude.{
  false, String, ◌≡◌, refl, ◌⊎◌, inl, inr, arith, Exc, Ensures, Ensures-ok, Ensures-bind,
  Ensures-except, length, length-append, ◌+◌,
}
use lumenos_hiper_v.Types.{BunkerState, active, quarantine}
use lumenos_hiper_v.Host.{Env}
use lumenos_hiper_v.Monitoring.Monitor.{stop_monitoring, log_event}
use lumenos_hiper_v.Bunker.{Bunker, transition_to}
use lumenos_hiper_v.Bunker.Session.{quarantine_steps, force_quarantine}

-- The states from which QUARANTINE is entered or kept.
abbrev pub CanHold : BunkerState → Type 0
CanHold st = (st ≡ active) ⊎ (st ≡ quarantine)

CanHold-cases : (st : BunkerState) → CanHold st ⊎ (¬ CanHold st)
CanHold-cases active = inl (inl refl)
CanHold-cases quarantine = inl (inr refl)
CanHold-cases _ = inr (λ h. ground arith)

module _ {W : Type 0} (env : Env W) where
  hold_step :
      (s : Bunker × W) {E : Exc → Bunker × W → Type 0}
      → CanHold s.0.state
      → Ensures
          (λ _ t. (t.0.state ≡ quarantine) × (t.0.monitor.events ≡ s.0.monitor.events))
          E
          (transition_to env quarantine s)
  unfolding transition_to
  hold_step s h = ground arith

  hold_refused :
      (s : Bunker × W)
      → ¬ CanHold s.0.state
      → Ensures (λ _ _. ⊥) (λ _ t. t ≡ s) (transition_to env quarantine s)
  unfolding transition_to
  hold_refused s h = ground arith

  -- A bunker that is held: in QUARANTINE, not monitored, with one more event than before.
  pub record Held (before s : Bunker × W) : Type 0 where
    pub in_quarantine : s.0.state ≡ quarantine
    pub unmonitored : s.0.monitor.monitoring_active ≡ false
    pub one_event : length s.0.monitor.events ≡ length before.0.monitor.events + 1

  quarantine_steps-post :
      (reason : String) (s : Bunker × W) {E : Exc → Bunker × W → Type 0}
      → CanHold s.0.state
      → Ensures (λ _. Held s) E (quarantine_steps env reason s)
  unfolding quarantine_steps stop_monitoring log_event
  quarantine_steps-post reason s h = Ensures-bind (hold_step s h) λ _ t p. Ensures-ok (record {
    in_quarantine = p.0;
    unmonitored = refl;
    one_event = rw (← p.1) (length-append t.0.monitor.events _);
  })

  quarantine_steps-refused :
      (reason : String) (s : Bunker × W)
      → ¬ CanHold s.0.state
      → Ensures (λ _ _. ⊥) (λ _ t. t ≡ s) (quarantine_steps env reason s)
  unfolding quarantine_steps
  quarantine_steps-refused reason s h = Ensures-bind (hold_refused s h) λ _ t p. absurd p

  -- `force_quarantine` raises nothing. An ACTIVE or already quarantined bunker ends in QUARANTINE
  -- with its monitor off and one more event; any other is left exactly as it was.
  pub force_quarantine_outcome :
      (reason : String) (s : Bunker × W)
      → Ensures
          (λ _ t. (CanHold s.0.state × Held s t) ⊎ ((¬ CanHold s.0.state) × (t ≡ s)))
          (λ _ _. ⊥)
          (force_quarantine env reason s)
  unfolding force_quarantine
  force_quarantine_outcome reason s = elim (CanHold-cases s.0.state) [
    | inl can ↦
        Ensures-except (quarantine_steps-post reason s {E = λ _ _. ⊥} can) (λ _ t p. inl (can, p))
          λ e t p. absurd p
    | inr cannot ↦
        Ensures-except (quarantine_steps-refused reason s cannot) (λ _ t p. absurd p)
          λ e t p. Ensures-ok (inr (cannot, p))
  ]
