-- ===== src/Types.antt =====
-- lumenos_sandbox/types.py: the enums, the table of state transitions and the data classes.
pub mod Transitions
use lumenos_hiper_v.Prelude.{
  ℕ, Bool, true, false, String, List, [], ◌∷◌, Option, some, none, Dict, any, ◌==◌,
}

pub data BunkerState : Type 0 where
  initializing ready active terminating decontaminating destroyed quarantine error : BunkerState

-- `BunkerState.value`: `auto()` counts from 1.
abbrev pub state_value : BunkerState → ℕ
state_value initializing = 1
state_value ready = 2
state_value active = 3
state_value terminating = 4
state_value decontaminating = 5
state_value destroyed = 6
state_value quarantine = 7
state_value error = 8

-- `BunkerState.name`
abbrev pub state_name : BunkerState → String
state_name initializing = "INITIALIZING"
state_name ready = "READY"
state_name active = "ACTIVE"
state_name terminating = "TERMINATING"
state_name decontaminating = "DECONTAMINATING"
state_name destroyed = "DESTROYED"
state_name quarantine = "QUARANTINE"
state_name error = "ERROR"

-- Members of an enum are equal exactly if their values are.
abbrev pub state_eq : BunkerState → BunkerState → Bool
state_eq a b = state_value a == state_value b

pub data SecurityLayer : Type 0 where
  network filesystem process memory hypervisor : SecurityLayer

-- `SecurityLayer.value`
abbrev pub layer_value : SecurityLayer → String
layer_value network = "network"
layer_value filesystem = "filesystem"
layer_value process = "process"
layer_value memory = "memory"
layer_value hypervisor = "hypervisor"

pub data ThreatLevel : Type 0 where
  none_level low medium high critical : ThreatLevel

-- `ThreatLevel.name`
abbrev pub threat_name : ThreatLevel → String
threat_name none_level = "NONE"
threat_name low = "LOW"
threat_name medium = "MEDIUM"
threat_name high = "HIGH"
threat_name critical = "CRITICAL"

pub data EscapeAttemptType : Type 0 where
  vm_escape network_exfiltration file_persistence process_injection : EscapeAttemptType
  memory_manipulation hypervisor_attack side_channel rootkit_detected : EscapeAttemptType

-- `EscapeAttemptType.value`
abbrev pub escape_value : EscapeAttemptType → String
escape_value vm_escape = "vm_escape"
escape_value network_exfiltration = "network_exfiltration"
escape_value file_persistence = "file_persistence"
escape_value process_injection = "process_injection"
escape_value memory_manipulation = "memory_manipulation"
escape_value hypervisor_attack = "hypervisor_attack"
escape_value side_channel = "side_channel"
escape_value rootkit_detected = "rootkit_detected"

-- `VALID_STATE_TRANSITIONS`
abbrev pub valid_state_transitions : BunkerState → List BunkerState
valid_state_transitions initializing = ready ∷ error ∷ []
valid_state_transitions ready = active ∷ terminating ∷ error ∷ []
valid_state_transitions active = terminating ∷ quarantine ∷ error ∷ []
valid_state_transitions terminating = decontaminating ∷ error ∷ []
valid_state_transitions decontaminating = destroyed ∷ error ∷ []
valid_state_transitions destroyed = initializing ∷ []
valid_state_transitions quarantine = destroyed ∷ error ∷ []
valid_state_transitions error = destroyed ∷ []

-- `new_state in VALID_STATE_TRANSITIONS.get(state, [])`
abbrev pub is_valid_transition : BunkerState → BunkerState → Bool
is_valid_transition from to = any (state_eq to) (valid_state_transitions from)

-- A key of `failure_probabilities`: a member of the enum, or the text that it becomes in JSON.
pub data LayerKey : Type 0 where
  layer_key : SecurityLayer → LayerKey
  text_key : String → LayerKey

-- Floats are kept as the texts that Python prints.
abbrev pub Probabilities : Type 0
Probabilities = List (LayerKey × String)

pub record BunkerConfig : Type 0 where
  pub id : String
  pub name : String
  pub memory_mb : ℕ
  pub cpu_cores : ℕ
  pub disk_gb : ℕ
  pub max_session_hours : ℕ
  pub decontamination_minutes : ℕ
  pub snapshot_interval_minutes : ℕ
  pub enable_network_isolation : Bool
  pub enable_memory_encryption : Bool
  pub enable_secure_boot : Bool
  pub log_level : String
  pub guest_username : String
  pub guest_password : String
  pub sysmon_installed : Bool
  pub sysmon_path : String
  pub monitor_interval_seconds : String
  pub failure_probabilities : Probabilities

-- `BunkerConfig(id=…, name=…)` with the defaults of the other fields
abbrev pub default_config : String → String → BunkerConfig
default_config id name = record {
  id = id;
  name = name;
  memory_mb = 8192;
  cpu_cores = 4;
  disk_gb = 100;
  max_session_hours = 24;
  decontamination_minutes = 30;
  snapshot_interval_minutes = 5;
  enable_network_isolation = true;
  enable_memory_encryption = true;
  enable_secure_boot = true;
  log_level = "VERBOSE";
  guest_username = "Administrator";
  guest_password = "";
  sysmon_installed = false;
  sysmon_path = "C:\\Tools\\Sysmon64.exe";
  monitor_interval_seconds = "5.0";
  failure_probabilities =
      (layer_key network, "1e-06")
      ∷ (layer_key filesystem, "1e-08")
      ∷ (layer_key process, "1e-05")
      ∷ (layer_key memory, "1e-09")
      ∷ (layer_key hypervisor, "1e-12")
      ∷ [];
}

-- `raw_data` is written and never read, and is left out.
pub record SecurityEvent : Type 0 where
  pub timestamp : ℕ
  pub layer : SecurityLayer
  pub event_type : String
  pub severity : ThreatLevel
  pub description : String
  pub bunker_id : String

pub record IntegrityCheck : Type 0 where
  pub component : String
  pub expected_hash : String
  pub actual_hash : String
  pub passed : Bool
  pub timestamp : ℕ
  pub details : String

pub record DecontaminationReport : Type 0 where
  pub bunker_id : String
  pub start_time : ℕ
  pub end_time : ℕ
  pub steps_completed : List String
  pub steps_failed : List String
  pub integrity_checks : List IntegrityCheck
  pub warnings : List String
  pub success : Bool
  pub signature : String
