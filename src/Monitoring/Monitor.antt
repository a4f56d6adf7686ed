-- ===== src/Monitoring/Monitor.antt =====
-- `class SecurityMonitor` of lumenos_sandbox/monitoring.py: events, escape attempts and the guest
-- capabilities that could not be consulted. The collector that the monitor shares with its bunker
-- is a field of the monitor. The thread of `start_monitoring` is not modelled.
use lumenos_hiper_v.Prelude.{
  ℕ, Bool, true, false, String, Option, none, some, List, [], ◌∷◌, ◌++◌, any, str_eq, format,
  if◌then◌else◌,
}
use lumenos_hiper_v.Types.{
  SecurityLayer, network, filesystem, process, memory, hypervisor, critical, threat_name,
  SecurityEvent, EscapeAttemptType, vm_escape, network_exfiltration, file_persistence,
  process_injection, memory_manipulation, hypervisor_attack, side_channel, rootkit_detected,
  escape_value,
}
use lumenos_hiper_v.Observability.{MetricsCollector, inc}

pub record SecurityMonitor : Type 0 where
  pub bunker_id : String
  pub events : List SecurityEvent
  pub escape_attempts : List EscapeAttemptType
  pub telemetry_unavailable : List String
  pub monitoring_active : Bool
  pub vm_name : Option String
  pub username : String
  pub password : String
  pub metrics : MetricsCollector

-- `SecurityMonitor(bunker_id, metrics=…)`
abbrev pub new_monitor : String → MetricsCollector → SecurityMonitor
new_monitor bunker_id metrics = record {
  bunker_id = bunker_id;
  events = [];
  escape_attempts = [];
  telemetry_unavailable = [];
  monitoring_active = false;
  vm_name = none;
  username = "";
  password = "";
  metrics = metrics;
}

unfoldable pub set_vm_credentials : String → String → String → SecurityMonitor → SecurityMonitor
set_vm_credentials vm username password m = record m {
  vm_name = some vm;
  username = username;
  password = password;
}

unfoldable pub start_monitoring : SecurityMonitor → SecurityMonitor
start_monitoring m = record m {
  monitoring_active = true;
  metrics = inc "monitoring_started" m.metrics;
}

unfoldable pub stop_monitoring : SecurityMonitor → SecurityMonitor
stop_monitoring m = record m {
  monitoring_active = false;
  metrics = inc "monitoring_stopped" m.metrics;
}

unfoldable pub log_event : SecurityEvent → SecurityMonitor → SecurityMonitor
log_event e m = record m {
  events = m.events ++ e ∷ [];
  metrics =
      inc "security_events_total"
        (inc (format ("security_events_" ∷ threat_name e.severity ∷ [])) m.metrics);
}

-- A capability is filed once, however often it fails.
unfoldable pub record_telemetry_unavailable : String → SecurityMonitor → SecurityMonitor
record_telemetry_unavailable capability m =
    if any (str_eq capability) m.telemetry_unavailable
    then m
    else record m { telemetry_unavailable = m.telemetry_unavailable ++ capability ∷ [] }

-- `_get_layer_for_escape_type`
abbrev pub layer_for_escape_type : EscapeAttemptType → SecurityLayer
layer_for_escape_type vm_escape = hypervisor
layer_for_escape_type network_exfiltration = network
layer_for_escape_type file_persistence = filesystem
layer_for_escape_type process_injection = process
layer_for_escape_type memory_manipulation = memory
layer_for_escape_type hypervisor_attack = hypervisor
layer_for_escape_type side_channel = memory
layer_for_escape_type rootkit_detected = process

-- `attempt_type.value.upper()`
abbrev pub escape_value_upper : EscapeAttemptType → String
escape_value_upper vm_escape = "VM_ESCAPE"
escape_value_upper network_exfiltration = "NETWORK_EXFILTRATION"
escape_value_upper file_persistence = "FILE_PERSISTENCE"
escape_value_upper process_injection = "PROCESS_INJECTION"
escape_value_upper memory_manipulation = "MEMORY_MANIPULATION"
escape_value_upper hypervisor_attack = "HYPERVISOR_ATTACK"
escape_value_upper side_channel = "SIDE_CHANNEL"
escape_value_upper rootkit_detected = "ROOTKIT_DETECTED"

-- The clock reading `now` stands for `datetime.now()`.
unfoldable pub detect_escape_attempt :
    ℕ → EscapeAttemptType → String → SecurityMonitor → Bool × SecurityMonitor
unfolding log_event
detect_escape_attempt now attempt details m =
    let m₁ = record m { escape_attempts = m.escape_attempts ++ attempt ∷ [] } in
    let event : SecurityEvent = record {
      timestamp = now;
      layer = layer_for_escape_type attempt;
      event_type = format ("ESCAPE_ATTEMPT_" ∷ escape_value_upper attempt ∷ []);
      severity = critical;
      description = details;
      bunker_id = m.bunker_id;
    } in
    let m₂ = log_event event m₁ in
    (
      true,
      record m₂ {
        metrics = inc (format ("escape_attempts_" ∷ escape_value attempt ∷ [])) m₂.metrics;
      },
    )
