-- ===== src/Bunker/Inactive.antt =====
-- After which calls a bunker is surely not ACTIVE.
use lumenos_hiper_v.Prelude.{
  ℕ, true, false, String, Option, [], ◌≡◌, refl, sym, ◌∙◌, ◌≢◌, ◌⊎◌, inl, inr, arith, Exc,
  security_violation, Ensures, Ensures-ok, Ensures-bind, Ensures-except, Ensures-weaken,
}
use lumenos_hiper_v.Types.{BunkerState, initializing, ready, active, destroyed}
use lumenos_hiper_v.Host.{Env}
use lumenos_hiper_v.Bunker.{Bunker, transition_to, stamp}
use lumenos_hiper_v.Bunker.Init.{initialize}
use lumenos_hiper_v.Bunker.Lifecycle.{CanStart, initialize_outcome, initialize_live}
use lumenos_hiper_v.Bunker.Session.{
  activate_layers, activate_steps, activate_failed, activate, terminate, force_quarantine,
}
use lumenos_hiper_v.Bunker.Activation.{
  activate_layers-state, require_step, move_step, activate-Refused,
}
use lumenos_hiper_v.Bunker.Closing.{terminate_outcome, terminate-Refused}
use lumenos_hiper_v.Bunker.Holding.{force_quarantine_outcome}

CanStart-cases : (st : BunkerState) → CanStart st ⊎ (¬ CanStart st)
CanStart-cases destroyed = inl (inl refl)
CanStart-cases initializing = inl (inr refl)
CanStart-cases _ = inr (λ h. ground arith)

BunkerState-discrete : Discrete BunkerState
BunkerState-discrete = hlevel

state-cases : (a b : BunkerState) → (a ≡ b) ⊎ (a ≢ b)
state-cases a b = elim (BunkerState-discrete a b) [ yes h ↦ inl h | no h ↦ inr h ]

module _ {W : Type 0} (env : Env W) where
  abbrev pub Idle : Bunker × W → Type 0
  Idle t = t.0.state ≢ active

  -- `initialize` does not make a bunker ACTIVE; one that is ACTIVE it may leave so, if it raises.
  pub initialize-Idle :
      (d : Option ℕ) (s : Bunker × W)
      → Idle s
      → Ensures (λ _. Idle) (λ _. Idle) (initialize env d s)
  initialize-Idle d s idle = elim (CanStart-cases s.0.state) [
    | inl can ↦
        Ensures-weaken (initialize_outcome env d s can)
          (λ r t p. elim p [
            | inl q ↦ (λ k. ground (arith, q.1.in_state, k))
            | inr q ↦ (λ k. ground (arith, q.1.3.failed, k))
          ])
          λ e t p k. elim p.1 [ inl q ↦ ground (arith, q, k) | inr q ↦ ground (arith, q, k) ]
    | inr cannot ↦
        Ensures-weaken (initialize_live env d s cannot) (λ r t p k. ground (arith, p.1.failed, k))
          λ e t p k. idle (sym p.same_state ∙ k)
  ]

  pub terminate-Idle : (s : Bunker × W) → Ensures (λ _. Idle) (λ _. Idle) (terminate env s)
  terminate-Idle s = elim (state-cases s.0.state active) [
    | inl on ↦ record { holds = ground (arith, (terminate_outcome env s on).holds) }
    | inr off ↦ record { holds = ground (arith, (terminate-Refused env s off).holds) }
  ]

  pub force_quarantine-Idle :
      (reason : String) (s : Bunker × W)
      → Ensures (λ _. Idle) (λ _. Idle) (force_quarantine env reason s)
  force_quarantine-Idle reason s = record {
    holds = ground (arith, (force_quarantine_outcome env reason s).holds);
  }

  -- What `activate_steps` leaves when it fails on a READY bunker.
  abbrev SomeLayerFailed : Exc → Bunker × W → Type 0
  SomeLayerFailed e t = (e.kind ≡ security_violation) × (t.0.state ≡ active)

  layers_state :
      (s : Bunker × W)
      → s.0.state ≡ active
      → Ensures (λ _ t. t.0.state ≡ active) SomeLayerFailed (activate_layers env [] s.0.layers s)
  layers_state s h = record {
    holds = ground (arith, (activate_layers-state env [] s.0.layers s).holds);
  }

  ready_steps :
      (s : Bunker × W)
      → s.0.state ≡ ready
      → Ensures (λ r t. (r ≡ true) × (t.0.state ≡ active)) SomeLayerFailed (activate_steps env s)
  unfolding activate_steps stamp
  ready_steps s h = Ensures-bind (require_step env ready _ s h) λ _ s₁ h₁.
      Ensures-bind (move_step env ready active s₁ (rw h₁ h) refl refl)
        λ _ s₂ h₂. Ensures-bind (layers_state s₂ h₂.0) λ _ s₃ h₃. Ensures-ok (refl, h₃)

  failed_ready :
      (e : Exc) (s : Bunker × W)
      → SomeLayerFailed e s
      → Ensures (λ r t. r ≡ false → Idle t) (λ _. Idle) (activate_failed env e s)
  unfolding activate_failed transition_to
  failed_ready e s h = ground arith

  refused-Idle :
      (s : Bunker × W)
      → s.0.state ≢ ready
      → Ensures (λ r t. r ≡ false → Idle t) (λ _. Idle) (activate env s)
  refused-Idle s h = record { holds = ground (arith, (activate-Refused env s h).holds) }

  -- A bunker is ACTIVE after `activate` only if it returned True.
  pub activate-Idle :
      (s : Bunker × W) → Ensures (λ r t. r ≡ false → Idle t) (λ _. Idle) (activate env s)
  unfolding activate
  activate-Idle s = elim (state-cases s.0.state ready) [
    | inl on ↦ Ensures-except (ready_steps s on) (λ r t p q. cc) failed_ready
    | inr off ↦ refused-Idle s off
  ]

  failed_false :
      (e : Exc) (s : Bunker × W)
      → Ensures (λ r _. r ≡ false) (λ _ _. Unit) (activate_failed env e s)
  unfolding activate_failed transition_to
  failed_false e s = ground arith

  -- Where `activate` returns True the bunker is ACTIVE.
  pub activate-Active :
      (s : Bunker × W)
      → Ensures (λ r t. (r ≡ false) ⊎ (t.0.state ≡ active)) (λ _ _. Unit) (activate env s)
  unfolding activate
  activate-Active s = elim (state-cases s.0.state ready) [
    | inl on ↦
        Ensures-except (ready_steps s on) (λ r t p. inr p.1)
          λ e t p. Ensures-weaken (failed_false e t) (λ _ _ q. inl q) λ _ _ q. q
    | inr off ↦ Ensures-weaken (activate-Refused env s off) (λ r t p. inl p.0) λ _ _ _. tt
  ]
