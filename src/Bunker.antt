-- ===== src/Bunker.antt =====
-- lumenos_sandbox/bunker.py: the state machine and the lifecycle of a bunker. A method works on the
-- bunker and the outside world; `own` is the backend of the bunker and `shared` that of
-- `get_backend()`, which the layers and the decontamination call. The lock of `transition_to` and
-- the threads are not modelled: a method runs alone.
pub mod Init
pub mod Session
pub mod CleanUp
pub mod Lifecycle
pub mod Activation
pub mod Closing
pub mod Holding
pub mod Inactive
pub mod Moves
pub mod Signatures
pub mod Restore
pub mod Recovered
use lumenos_hiper_v.Prelude.{
  ℕ, Bool, true, false, not, String, Option, none, some, List, [], ◌∷◌, ◌++◌, map, get_or, is_given,
  is_some, str_eq, ltb, format, Exec, Exc, ExcKind, invalid_state_transition, security_violation,
  bunker_not_ready, system_error, analysis_deadline_exceeded, Outcome, ok, err, pure, raise, again,
  is_invalid_transition, is_deadline, gets, modify, ◌>>=◌, ◌>>◌, try_except, if◌then◌else◌,
}
use mathlib.Core.Option
use lumenos_hiper_v.Types.{
  BunkerState, ready, active, terminating, decontaminating, destroyed, quarantine, error, state_eq,
  state_value, state_name, is_valid_transition, SecurityLayer, network, filesystem, process, memory,
  hypervisor, layer_value, critical, BunkerConfig, SecurityEvent, DecontaminationReport,
}
use lumenos_hiper_v.Types
use lumenos_hiper_v.Hypervisor.{HypervisorBackend}
use lumenos_hiper_v.Host.{Env, StateData}
use lumenos_hiper_v.Observability.{MetricsCollector, no_metrics, inc, set_gauge}
use lumenos_hiper_v.Monitoring.Integrity.{
  IntegrityVerifier, new_verifier, critical_components, set_baseline,
}
use lumenos_hiper_v.Monitoring.Monitor.{
  SecurityMonitor, new_monitor, set_vm_credentials, start_monitoring, stop_monitoring, log_event,
}
use lumenos_hiper_v.Layers
use lumenos_hiper_v.Layers.{Layer, new_layer, set_layer_credentials}
use lumenos_hiper_v.Decontamination.{run, sign_report}

-- The collector that the bunker shares with its monitor is `monitor.metrics`. The fields of
-- `BunkerMetrics` are written by the metrics thread alone and are left out.
pub record Bunker : Type 0 where
  pub config : BunkerConfig
  pub state : BunkerState
  pub created_at : Option ℕ
  pub activated_at : Option ℕ
  pub terminated_at : Option ℕ
  pub vm_name : Option String
  pub switch_name : Option String
  pub verifier : IntegrityVerifier
  pub monitor : SecurityMonitor
  pub layers : List Layer
  pub session_active : Bool
  pub decontamination_report : Option DecontaminationReport
  pub signing_key : String

-- `Bunker(config)`, with the fresh key of `secrets.token_hex(32)`. A password in the config is given
-- to the credential store, which is not part of the bunker, and is blanked here.
unfoldable pub new_bunker : BunkerConfig → String → Bunker
new_bunker config key = record {
  config = record config { guest_password = "" };
  state = destroyed;
  created_at = none;
  activated_at = none;
  terminated_at = none;
  vm_name = none;
  switch_name = none;
  verifier = new_verifier;
  monitor = new_monitor config.id no_metrics;
  layers =
      new_layer network
      ∷ new_layer filesystem
      ∷ new_layer process
      ∷ new_layer memory
      ∷ new_layer hypervisor
      ∷ [];
  session_active = false;
  decontamination_report = none;
  signing_key = key;
}

-- An update of the metrics collector.
abbrev pub on_metrics : (MetricsCollector → MetricsCollector) → Bunker → Bunker
on_metrics f b = record b { monitor = record b.monitor { metrics = f b.monitor.metrics } }

abbrev pub Method : Type 0 → Type 0 → Type 0
Method W A = Exec (Bunker × W) A

module _ {W A : Type 0} where
  -- What only reads or writes the world leaves the bunker alone.
  abbrev pub call : (W → Outcome A × W) → Method W A
  call f (b, w) = let (r, w') = f w in (r, (b, w'))

  abbrev pub read : (Bunker → A) → Method W A
  read f = gets (λ s. f s.0)

abbrev pub on_bunker : {W : Type 0} → (Bunker → Bunker) → Method W (Unit {0})
on_bunker f = modify (λ s. (f s.0, s.1))

-- The bunker after a valid transition.
abbrev pub enter : BunkerState → Bunker → Bunker
enter new_state b =
    on_metrics
      (λ m.
        set_gauge "current_state" (state_value new_state)
          (inc (format ("transition_" ∷ state_name new_state ∷ [])) m))
      (record b { state = new_state })

module _ {W : Type 0} (env : Env W) where
  open env use {host}

  -- `datetime.now()`, stored by `f`
  unfoldable pub stamp : (ℕ → Bunker → Bunker) → Method W (Unit {0})
  stamp f (b, w) = let (t, w') = host.now w in (ok tt, (f t b, w'))

  abbrev pub state_data : Bunker → StateData
  state_data b = record {
    config = b.config;
    state = state_name b.state;
    vm_name = b.vm_name;
    switch_name = b.switch_name;
    signing_key = b.signing_key;
    created_at = Option.map host.isoformat b.created_at;
    activated_at = Option.map host.isoformat b.activated_at;
    terminated_at = Option.map host.isoformat b.terminated_at;
  }

  -- `_persist_state`: best effort, a failure is logged and never raised
  unfoldable pub persist_state : Bunker → W → W
  persist_state b w = (host.save_state b.config.id (state_data b) w).1

  unfoldable pub transition_to : BunkerState → Method W Bool
  unfolding persist_state
  transition_to new_state (b, w) =
      if state_eq new_state b.state
      then (ok false, (b, w))
      else (if is_valid_transition b.state new_state
          then (let b' = enter new_state b in (ok true, (b', persist_state b' w)))
          else raise invalid_state_transition
              (format
                ("Transición inválida: " ∷ state_name b.state ∷ " -> " ∷ state_name new_state ∷ []))
              (b, w))

  unfoldable pub get_guest_password : Method W String
  get_guest_password =
      call
        (λ w. let (secret, w') = host.get_secret "guest_password" w in (ok (get_or secret ""), w'))
