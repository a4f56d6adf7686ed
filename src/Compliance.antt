-- ===== src/Compliance.antt =====
-- lumenos_sandbox/compliance.py: the checklist of security controls and the audit log. The time of a
-- call is an argument, one text for all the stamps of the call, and so is the way in which Python
-- prints a share as a percentage. Of a configuration the truth values of its entries are kept.
pub mod Counts
use lumenos_hiper_v.Prelude.{
  Bool, true, false, String, Option, none, some, List, [], ◌∷◌, ◌++◌, is_nonempty, format, str_eq,
  Dict, lookup, if◌then◌else◌, keep_if, count_if, length, map, ℕ, zero, suc,
}

pub data ControlStatus : Type 0 where
  pass fail skip na : ControlStatus

pub record Control : Type 0 where
  pub control_id : String
  pub name : String
  pub description : String
  pub status : ControlStatus
  pub evidence : String
  pub checked_at : String

-- A value in the details of an entry.
pub data Detail : Type 0 where
  number : ℕ → Detail
  text : String → Detail

pub record AuditEntry : Type 0 where
  pub timestamp : String
  pub actor : String
  pub action : String
  pub target : String
  pub details : Dict Detail

-- `AuditLog._entries`, the oldest entry first
abbrev pub AuditLog : Type 0
AuditLog = List AuditEntry

pub record Report : Type 0 where
  pub timestamp : String
  pub total_controls : ℕ
  pub passed : ℕ
  pub failed : ℕ
  pub skipped : ℕ
  pub pass_rate : String
  pub controls : List Control

pub record ComplianceReport : Type 0 where
  pub controls : List Control
  pub audit : AuditLog

-- `Control(control_id, name, description)`, made at a time
abbrev pub new_control : String → String → String → String → Control
new_control now control_id name description = record {
  control_id = control_id;
  name = name;
  description = description;
  status = skip;
  evidence = "";
  checked_at = now;
}

abbrev pub default_controls : String → List Control
default_controls now =
    new_control now "SC-01" "Network Isolation" "VM network isolated from host"
    ∷ new_control now "SC-03" "Process Monitoring" "Guest processes monitored for injection"
    ∷ new_control now "SC-04" "Memory Protection" "Memory integrity checks enabled"
    ∷ new_control now "SC-05" "Hypervisor Monitoring" "Hyper-V session monitored"
    ∷ new_control now "SC-08" "State Persistence" "Bunker state persisted to SQLite"
    ∷ []

abbrev pub or_default : String → List Control → List Control
or_default now [] = default_controls now
or_default now (c ∷ cs) = c ∷ cs

abbrev pub given_controls : String → Option (List Control) → List Control
given_controls now none = default_controls now
given_controls now (some controls) = or_default now controls

abbrev pub new_compliance_report : String → Option (List Control) → ComplianceReport
new_compliance_report now controls = record { controls = given_controls now controls; audit = [] }

abbrev pub log : String → String → String → String → Dict Detail → AuditLog → AuditLog
log now actor action target details entries =
    entries
    ++ record {
      timestamp = now;
      actor = actor;
      action = action;
      target = target;
      details = details;
    }
      ∷ []

-- `entries`, if `wanted` is given only those whose `field` is the wanted one
abbrev pub narrow : (AuditEntry → String) → Option String → AuditLog → AuditLog
narrow field none entries = entries
narrow field (some wanted) entries =
    if is_nonempty wanted then keep_if (λ e. str_eq (field e) wanted) entries else entries

unfoldable pub query : Option String → Option String → AuditLog → AuditLog
query actor action entries = narrow (λ e. e.action) action (narrow (λ e. e.actor) actor entries)

-- `config.get(key, default)`, as a truth value
abbrev pub flag : Option Bool → Bool → Bool
flag none default = default
flag (some b) default = b

abbrev pub status_if : Bool → ControlStatus
status_if true = pass
status_if false = fail

unfoldable pub status_of : Dict Bool → String → ControlStatus
status_of config control_id =
    if str_eq control_id "SC-01"
    then status_if (flag (lookup "enable_network_isolation" config) false)
    else if str_eq control_id "SC-03"
    then status_if (flag (lookup "enable_process_monitoring" config) true)
    else if str_eq control_id "SC-04"
    then status_if (flag (lookup "enable_memory_encryption" config) true)
    else if str_eq control_id "SC-05"
    then status_if (flag (lookup "enable_hypervisor_monitoring" config) true)
    else if str_eq control_id "SC-08"
    then pass
    else pass

-- One turn of the loop of `evaluate`.
abbrev pub evaluated : String → Dict Bool → Control → Control
evaluated now config ctrl = record (new_control now ctrl.control_id ctrl.name ctrl.description) {
  status = status_of config ctrl.control_id;
  evidence = format ("Automated check at " ∷ now ∷ []);
}

abbrev pub status_eq : ControlStatus → ControlStatus → Bool
status_eq pass pass = true
status_eq fail fail = true
status_eq skip skip = true
status_eq na na = true
status_eq _ _ = false

-- `sum(1 for r in results if r.status == s)`
abbrev pub count : ControlStatus → List Control → ℕ
count s results = count_if (λ r. status_eq r.status s) results

module _ (percent : ℕ → ℕ → String) where
  -- `f"{(passed/total*100):.0f}%" if total else "N/A"`
  abbrev pub pass_rate_of : ℕ → ℕ → String
  pass_rate_of p zero = "N/A"
  pass_rate_of p (suc n) = percent p (suc n)

  abbrev pub report_of : String → List Control → Report
  report_of now results = record {
    timestamp = now;
    total_controls = length results;
    passed = count pass results;
    failed = count fail results;
    skipped = count skip results;
    pass_rate = pass_rate_of (count pass results) (length results);
    controls = results;
  }

  abbrev pub logged : String → Report → ComplianceReport → Report × ComplianceReport
  logged now report state = (
    report,
    record state {
      audit =
          log now "system" "compliance_eval" "all_controls"
            (("passed", number report.passed) ∷ ("total", number report.total_controls) ∷ [])
            state.audit;
    },
  )

  unfoldable pub evaluate : String → Dict Bool → ComplianceReport → Report × ComplianceReport
  evaluate now config state =
      logged now (report_of now (map (evaluated now config) state.controls)) state
