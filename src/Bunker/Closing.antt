-- ===== src/Bunker/Closing.antt =====
-- What `Bunker.terminate` leaves behind, whatever the hypervisor and the host do.
use lumenos_hiper_v.Prelude.{
  Bool, true, false, some, List, [], ◌∷◌, All, ◌≡◌, refl, Bool-cases, ◌≢◌, ◌⊎◌, inl, inr, arith,
  Exc, bunker_not_ready, Ensures, Ensures-ok, Ensures-bind, Ensures-except, if◌then◌else◌,
}
use lumenos_hiper_v.Types.{
  BunkerState, active, terminating, decontaminating, destroyed, error, state_eq,
  is_valid_transition, DecontaminationReport,
}
use lumenos_hiper_v.Host.{Env}
use lumenos_hiper_v.Observability.{MetricsCollector}
use lumenos_hiper_v.Monitoring.Monitor.{stop_monitoring}
use lumenos_hiper_v.Layers.{Layer}
use lumenos_hiper_v.Layers.Laws.{deactivate-is_active}
use lumenos_hiper_v.Bunker.{Bunker, transition_to, stamp, get_guest_password}
use lumenos_hiper_v.Bunker.Session.{
  layer_down, deactivate_layers, layers_down, capture_forensic_snapshot, terminate_processes,
  run_decontamination, terminate_steps, terminate_failed, terminate,
}
use lumenos_hiper_v.Bunker.Activation.{Down, RaisedDestroyed, require_step, require_refused}

layer_down-Down : (l : Layer) (m : MetricsCollector) → Down (layer_down l m).0
layer_down-Down l m = ground (arith, deactivate-is_active l)

deactivate_layers-Down :
    (ls : List Layer) (m : MetricsCollector) → All Down (deactivate_layers ls m).0
unfolding deactivate_layers
deactivate_layers-Down [] m = tt
deactivate_layers-Down (l ∷ ls) m =
    (layer_down-Down l m, deactivate_layers-Down ls (layer_down l m).1)

module _ {W : Type 0} where
  -- A bunker that is being closed: no layer is up and the monitor is off.
  pub record Quiet (st : BunkerState) (session : Bool) (s : Bunker × W) : Type 0 where
    pub in_state : s.0.state ≡ st
    pub layers_down : All Down s.0.layers
    pub unmonitored : s.0.monitor.monitoring_active ≡ false
    pub in_session : s.0.session_active ≡ session

  -- A failure on the way: closed down, and not DESTROYED.
  abbrev pub Broken : Exc → Bunker × W → Type 0
  Broken e s =
      (s.0.state ≢ destroyed) × All Down s.0.layers × (s.0.monitor.monitoring_active ≡ false)

  -- How a terminated bunker ends: True means DESTROYED with no session, False means ERROR.
  abbrev pub Closed : Bool → Bunker × W → Type 0
  Closed true s = Quiet destroyed false s
  Closed false s =
      (s.0.state ≡ error) × All Down s.0.layers × (s.0.monitor.monitoring_active ≡ false)

module _ {W : Type 0} (env : Env W) {st : BunkerState} {session : Bool} (s : Bunker × W)
    (alive : st ≢ destroyed) (q : Quiet st session s) where
  snapshot_step : Ensures (λ _. Quiet st session) Broken (capture_forensic_snapshot env s)
  unfolding capture_forensic_snapshot
  snapshot_step = ground arith

  processes_step : Ensures (λ _. Quiet st session) Broken (terminate_processes env s)
  unfolding terminate_processes
  processes_step = ground arith

  ended_step :
      Ensures
        (λ _. Quiet st false)
        Broken
        (stamp env (λ t b. record b { terminated_at = some t; session_active = false }) s)
  unfolding stamp
  ended_step = ground arith

  password_step : Ensures (λ _. Quiet st session) Broken (get_guest_password env s)
  unfolding get_guest_password
  password_step = ground arith

  runner_step : Ensures (λ _. Quiet st session) Broken (run_decontamination env s)
  unfolding run_decontamination
  runner_step = ground arith

  move_step :
      (new : BunkerState)
      → state_eq new st ≡ false
      → is_valid_transition st new ≡ true
      → Ensures (λ _. Quiet new session) Broken (transition_to env new s)
  unfolding transition_to
  move_step new differs valid = ground arith

module _ {W : Type 0} (env : Env W) where
  -- The bunker after the monitor is stopped and the layers are taken down.
  abbrev quieted : Bunker × W → Bunker × W
  quieted s = (layers_down (record s.0 { monitor = stop_monitoring s.0.monitor }), s.1)

  quieted-Quiet :
      (s : Bunker × W) → s.0.state ≡ terminating → Quiet terminating s.0.session_active (quieted s)
  unfolding stop_monitoring
  quieted-Quiet s h = record {
    in_state = h;
    layers_down = deactivate_layers-Down s.0.layers _;
    unmonitored = refl;
    in_session = refl;
  }

  begin_step :
      (s : Bunker × W) {E : Exc → Bunker × W → Type 0}
      → s.0.state ≡ active
      → Ensures (λ _ t. t.0.state ≡ terminating) E (transition_to env terminating s)
  unfolding transition_to
  begin_step s h = ground arith

  -- The last transition follows the report.
  verdict_step :
      (report : DecontaminationReport) (s : Bunker × W)
      → Quiet decontaminating false s
      → Ensures
          (λ _ t.
            Closed report.success t × (t.0.decontamination_report ≡ s.0.decontamination_report))
          Broken
          (transition_to env (if report.success then destroyed else error) s)
  unfolding transition_to
  verdict_step report s q = elim (Bool-cases report.success) [
    | inl good ↦ rw good (ground arith)
    | inr bad ↦ rw bad (ground arith)
  ]

  -- What a terminated bunker has filed: the report that the result was read from.
  abbrev pub Filed : Bool → Bunker × W → Type 0
  Filed r s =
      (report : DecontaminationReport) × (s.0.decontamination_report ≡ some report)
      × (report.success ≡ r)

  filed-Quiet :
      (report : DecontaminationReport) (s : Bunker × W)
      → Quiet decontaminating false s
      → Quiet decontaminating false (record s.0 { decontamination_report = some report }, s.1)
  filed-Quiet report s q = ground arith

  terminate_steps-post :
      (s : Bunker × W)
      → s.0.state ≡ active
      → Ensures (λ r t. Closed r t × Filed r t) Broken (terminate_steps env s)
  unfolding terminate_steps
  terminate_steps-post s h = Ensures-bind (require_step env active _ s h) λ _ s₁ h₁.
      Ensures-bind (begin_step s₁ (rw h₁ h)) λ _ s₂ h₂.
        Ensures-bind (snapshot_step env (quieted s₂) (λ e. cc) (quieted-Quiet s₂ h₂)) λ _ s₃ h₃.
          Ensures-bind (processes_step env s₃ (λ e. cc) h₃) λ _ s₄ h₄.
            Ensures-bind (ended_step env s₄ (λ e. cc) h₄) λ _ s₅ h₅.
              Ensures-bind (move_step env s₅ (λ e. cc) h₅ decontaminating refl refl) λ _ s₆ h₆.
                Ensures-bind (password_step env s₆ (λ e. cc) h₆) λ _ s₇ h₇.
                  Ensures-bind (runner_step env s₇ (λ e. cc) h₇) λ report s₈ h₈.
                    Ensures-bind
                      (verdict_step report
                        (record s₈.0 { decontamination_report = some report }, s₈.1)
                        (filed-Quiet report s₈ h₈))
                      λ _ s₉ h₉. Ensures-ok (h₉.0, (report, h₉.1, refl))

  terminate_failed-post :
      (e : Exc) (s : Bunker × W) {E : Exc → Bunker × W → Type 0}
      → Broken e s
      → Ensures (λ r t. (r ≡ false) × Closed false t) E (terminate_failed env e s)
  unfolding terminate_failed transition_to
  terminate_failed-post e s h = ground arith

  -- `terminate` of an ACTIVE bunker raises nothing, and afterwards no layer is up and the monitor is
  -- off. It returns True exactly if the bunker is DESTROYED, with no session and with a report
  -- of success on file; if it returns False the bunker is in ERROR.
  pub terminate_outcome :
      (s : Bunker × W)
      → s.0.state ≡ active
      → Ensures (λ r t. Closed r t × ((r ≡ false) ⊎ Filed true t)) (λ _ _. ⊥) (terminate env s)
  unfolding terminate
  terminate_outcome s h =
      Ensures-except (terminate_steps-post s h) closed λ e t p. record {
        holds = ground (arith, (terminate_failed-post e t {E = λ _ _. ⊥} p).holds);
      }
    where
      closed :
          (r : Bool) (t : Bunker × W)
          → Closed r t × Filed r t
          → Closed r t × ((r ≡ false) ⊎ Filed true t)
      closed true t p = (p.0, inr p.1)
      closed false t p = (p.0, inl refl)

  terminate_steps-refused :
      (s : Bunker × W)
      → s.0.state ≢ active
      → Ensures (λ _ _. ⊥) (λ e t. (e.kind ≡ bunker_not_ready) × (t ≡ s)) (terminate_steps env s)
  unfolding terminate_steps
  terminate_steps-refused s h = Ensures-bind (require_refused env active _ s h) λ _ t p. absurd p

  -- What a refused call of `terminate` leaves.
  abbrev pub Refused : Bunker × W → Bool → Bunker × W → Type 0
  Refused s r t =
      (r ≡ false) × (s.0.state ≢ destroyed) × (t.0.state ≡ error) × (t.0.layers ≡ s.0.layers)

  terminate_failed-Refused :
      (e : Exc) (s : Bunker × W)
      → Ensures (Refused s) (RaisedDestroyed env s) (terminate_failed env e s)
  unfolding terminate_failed transition_to
  terminate_failed-Refused e s = ground arith

  -- `terminate` in another state: a DESTROYED bunker raises InvalidStateTransition and is left as
  -- it was; any other returns False and is in ERROR, with its layers as they were.
  pub terminate-Refused :
      (s : Bunker × W)
      → s.0.state ≢ active
      → Ensures (Refused s) (RaisedDestroyed env s) (terminate env s)
  unfolding terminate
  terminate-Refused s h =
      Ensures-except (terminate_steps-refused s h) (λ r t p. absurd p)
        λ e t p. rw p.1 (terminate_failed-Refused e s)
