-- ===== src/Agent.antt =====
-- `class AnalysisAgent` of lumenos_sandbox/analysis_agent.py: the agent in a guest, its status, its
-- report and the indicators found in it. PowerShell, base64 and the reading of JSON are arguments;
-- `str.lower` is modelled on ASCII letters.
pub mod Events
pub mod Guest
pub mod Runs
use lumenos_hiper_v.Prelude.{
  ℕ, ◌==◌, Bool, true, false, ◌&&◌, String, Option, none, some, List, [], ◌∷◌, ◌++◌, is_nonempty,
  get_or, format, any, length, str_eq, Dict, lookup, insert, Outcome, ok, err, if◌then◌else◌,
}

pub data AgentStatus : Type 0 where
  stopped deploying running collecting error : AgentStatus

pub record ProcessEvent : Type 0 where
  pub timestamp : String
  pub pid : ℕ
  pub ppid : ℕ
  pub name : String
  pub path : String
  pub command_line : String
  pub hashes : Dict String

pub record FileEvent : Type 0 where
  pub timestamp : String
  pub event_type : String
  pub path : String
  pub size : ℕ
  pub sha256 : String

pub record NetworkEvent : Type 0 where
  pub timestamp : String
  pub protocol : String
  pub local_addr : String
  pub local_port : ℕ
  pub remote_addr : String
  pub remote_port : ℕ
  pub process_name : String
  pub pid : ℕ

pub record RegistryEvent : Type 0 where
  pub timestamp : String
  pub event_type : String
  pub key : String
  pub value_name : String
  pub value_data : String

-- A dict of `iocs`: its type, severity and description, and the other keys as text.
pub record AgentIoc : Type 0 where
  pub kind : String
  pub severity : String
  pub description : String
  pub more : Dict String

-- The dict of `_generate_summary`.
pub record AgentSummary : Type 0 where
  pub total_processes : ℕ
  pub total_file_events : ℕ
  pub total_network_connections : ℕ
  pub total_registry_changes : ℕ
  pub total_iocs : ℕ
  pub high_severity_iocs : ℕ
  pub unique_processes : ℕ
  pub unique_remote_ips : ℕ

-- The report of a guest, as JSON gives it.
pub record GuestReport : Type 0 where
  pub start_time : String
  pub end_time : String
  pub duration_seconds : ℕ
  pub process_events : List ProcessEvent
  pub file_events : List FileEvent
  pub network_events : List NetworkEvent
  pub registry_events : List RegistryEvent

pub record AnalysisReport : Type 0 where
  pub sandbox_id : String
  pub events : GuestReport
  pub iocs : List AgentIoc
  pub summary : AgentSummary

pub record AnalysisAgent : Type 0 where
  pub agents : Dict AgentStatus
  pub reports : Dict AnalysisReport

abbrev pub new_agent : AnalysisAgent
new_agent = record { agents = []; reports = [] }

abbrev pub set_status : String → AgentStatus → AnalysisAgent → AnalysisAgent
set_status vm_name status a = record a { agents = insert vm_name status a.agents }

unfoldable pub get_status : String → AnalysisAgent → AgentStatus
get_status vm_name a = get_or (lookup vm_name a.agents) stopped

unfoldable pub get_report : String → AnalysisAgent → Option AnalysisReport
get_report vm_name a = lookup vm_name a.reports
