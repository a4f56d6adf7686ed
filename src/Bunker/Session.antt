-- ===== src/Bunker/Session.antt =====
-- `Bunker.activate`, `terminate`, `force_quarantine` and the report's signature, of
-- lumenos_sandbox/bunker.py. The metrics thread that `activate` starts is not modelled.
use lumenos_hiper_v.Prelude.{
  Bool, true, false, String, some, List, [], ◌∷◌, ◌++◌, map, get_or, is_given, str_eq, format, Exc,
  security_violation, bunker_not_ready, Outcome, ok, err, pure, raise, again, is_invalid_transition,
  ◌>>=◌, ◌>>◌, try_except, if◌then◌else◌,
}
use lumenos_hiper_v.Types.{
  BunkerState, ready, active, terminating, decontaminating, destroyed, quarantine, error, state_eq,
  state_name, hypervisor, layer_value, critical, DecontaminationReport,
}
use lumenos_hiper_v.Host.{Env}
use lumenos_hiper_v.Observability.{MetricsCollector, inc}
use lumenos_hiper_v.Monitoring.Monitor.{start_monitoring, stop_monitoring, log_event}
use lumenos_hiper_v.Layers
use lumenos_hiper_v.Layers.{Layer}
use lumenos_hiper_v.Decontamination.{DecontaminationRunner, run, sign_report}
use lumenos_hiper_v.Bunker.{
  Bunker, Method, call, read, on_bunker, on_metrics, stamp, transition_to, get_guest_password,
}

-- The bunker after a layer has come up: `layer_<name>_activated` is counted.
abbrev pub layer_up : Layer → Bunker → Bunker
layer_up l = on_metrics (inc (format ("layer_" ∷ layer_value l.layer ∷ "_activated" ∷ [])))

-- One layer of `terminate`: an active one is deactivated and counted.
abbrev pub layer_down : Layer → MetricsCollector → Layer × MetricsCollector
layer_down l m = if l.is_active then (Layers.deactivate l, inc "layer_deactivated" m) else (l, m)

unfoldable pub deactivate_layers : List Layer → MetricsCollector → List Layer × MetricsCollector
deactivate_layers [] m = ([], m)
deactivate_layers (l ∷ ls) m =
    let (l', m₁) = layer_down l m in let (ls', m₂) = deactivate_layers ls m₁ in (l' ∷ ls', m₂)

abbrev compare_signature : String → Outcome String → Outcome Bool
compare_signature signature (ok expected) = ok (str_eq expected signature)
compare_signature signature (err e) = err e

-- `if self.state != …: raise BunkerNotReady(…)`
unfoldable pub require_state : {W : Type 0} → BunkerState → String → Method W (Unit {0})
require_state expected message = do
  s ← read (λ b. b.state)
  if state_eq s expected
      then pure tt
      else raise bunker_not_ready (format (message ∷ state_name s ∷ []))

abbrev pub layers_down : Bunker → Bunker
layers_down b =
    let (ls, m) = deactivate_layers b.layers b.monitor.metrics in
    record b { layers = ls; monitor = record b.monitor { metrics = m } }

abbrev pub runner_of : Bunker → DecontaminationRunner
runner_of b = record {
  bunker_id = b.config.id;
  vm_name = get_or b.vm_name "";
  guest_username = b.config.guest_username;
  signing_key = b.signing_key;
}

module _ {W : Type 0} (env : Env W) where
  open env use {host, own, shared}

  -- The loop of `activate`, on the layers that are up and those to come. A layer that fails takes
  -- the earlier ones down with it.
  unfoldable pub activate_layers : List Layer → List Layer → Method W (Unit {0})
  activate_layers done [] (b, w) = (ok tt, (record b { layers = done }, w))
  activate_layers done (l ∷ ls) (b, w) =
      let (r, (l', w')) = Layers.activate shared l w in
      let rest = activate_layers (done ++ l' ∷ []) ls (layer_up l' b, w') in
      let rolled_back = record b { layers = map Layers.deactivate done ++ l' ∷ ls } in
      let failed =
        raise {A = Unit {0}} security_violation
          (format ("Fallo activando capa " ∷ layer_value l.layer ∷ [])) (rolled_back, w') in
      elim r [ ok true ↦ rest | ok false ↦ failed | err e ↦ failed ]

  unfoldable pub activate_steps : Method W Bool
  unfolding transition_to activate_layers stamp require_state
  activate_steps = do
    require_state ready "Bunker no está listo: "
    transition_to env active
    layers ← read (λ b. b.layers)
    activate_layers [] layers
    on_bunker (λ b. record b { monitor = start_monitoring b.monitor })
    stamp env (λ t b. record b { activated_at = some t; session_active = true })
    pure true

  -- The `except` clauses of `activate`.
  unfoldable pub activate_failed : Exc → Method W Bool
  unfolding transition_to
  activate_failed e = if is_invalid_transition e.kind then again e else do
    s ← read (λ b. b.state)
    if state_eq s error
        then pure tt
        else try_except (transition_to env error >> pure tt)
            (λ e'. if is_invalid_transition e'.kind then again e' else pure tt)
    pure false

  unfoldable pub activate : Method W Bool
  unfolding activate_steps activate_failed
  activate = try_except activate_steps activate_failed

  unfoldable pub take_checkpoint : String → Method W Bool
  take_checkpoint vm = do
    t ← call (λ w. let (t, w') = host.now w in (ok t, w'))
    call (own.create_checkpoint vm (format ("forensic_" ∷ host.file_stamp t ∷ [])))

  unfoldable pub capture_forensic_snapshot : Method W Bool
  unfolding take_checkpoint
  capture_forensic_snapshot = do
    vm ← read (λ b. b.vm_name)
    if is_given vm then take_checkpoint (get_or vm "") else pure true

  unfoldable pub terminate_processes : Method W Bool
  terminate_processes = do
    vm ← read (λ b. b.vm_name)
    if is_given vm then call (own.stop_vm (get_or vm "") true) else pure true

  -- The runner works on the bunker's own verifier.
  unfoldable pub run_decontamination : Method W DecontaminationReport
  run_decontamination (b, w) =
      let (r, (v, w')) = run host shared (runner_of b) b.verifier w in
      (r, (record b { verifier = v }, w'))

  unfoldable pub terminate_steps : Method W Bool
  unfolding transition_to deactivate_layers capture_forensic_snapshot terminate_processes stamp
      run_decontamination get_guest_password require_state
  terminate_steps = do
    require_state active "Bunker no está activo: "
    transition_to env terminating
    on_bunker (λ b. record b { monitor = stop_monitoring b.monitor })
    on_bunker layers_down
    capture_forensic_snapshot
    terminate_processes
    stamp env (λ t b. record b { terminated_at = some t; session_active = false })
    transition_to env decontaminating
    get_guest_password env
    report ← run_decontamination
    on_bunker (λ b. record b { decontamination_report = some report })
    transition_to env (if report.success then destroyed else error)
    pure report.success

  -- The `except` of `terminate`, whose own transition may raise.
  unfoldable pub terminate_failed : Exc → Method W Bool
  unfolding transition_to
  terminate_failed e = do transition_to env error; pure false

  unfoldable pub terminate : Method W Bool
  unfolding terminate_steps terminate_failed
  terminate = try_except terminate_steps terminate_failed

  unfoldable pub quarantine_steps : String → Method W (Unit {0})
  unfolding transition_to
  quarantine_steps reason = do
    transition_to env quarantine
    on_bunker (λ b. record b { monitor = stop_monitoring b.monitor })
    t ← call (λ w. let (t, w') = host.now w in (ok t, w'))
    on_bunker (λ b. record b {
      monitor =
          log_event
            (record {
              timestamp = t;
              layer = hypervisor;
              event_type = "FORCED_QUARANTINE";
              severity = critical;
              description = reason;
              bunker_id = b.config.id;
            })
            b.monitor;
    })
    on_bunker (on_metrics (inc "forced_quarantines"))

  -- `force_quarantine`: whatever is raised is only logged
  unfoldable pub force_quarantine : String → Method W (Unit {0})
  unfolding quarantine_steps
  force_quarantine reason = try_except (quarantine_steps reason) (λ e. pure tt)

  -- `verify_report_signature`; `hmac.compare_digest` is equality
  unfoldable pub verify_report_signature : Bunker → DecontaminationReport → Outcome Bool
  verify_report_signature b report =
      compare_signature report.signature (sign_report host shared b.signing_key report)
