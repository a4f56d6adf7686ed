-- ===== src/Agent/Events.antt =====
-- `_detect_iocs` and `_generate_summary` of lumenos_sandbox/analysis_agent.py.
use lumenos_hiper_v.Prelude.{
  ℕ, ◌==◌, Bool, false, ◌&&◌, String, List, [], ◌∷◌, ◌++◌, format, any, map, count_if, length,
  str_eq, ◌≡◌, refl, ◌↔◌, inl, inr, All, Bool-cases, if◌then◌else◌, arith,
}
use lumenos_hiper_v.Monitoring.Patterns.{codes, lower, occurs}
use lumenos_hiper_v.Inspect.Report.{sorted_set}
use lumenos_hiper_v.Agent.{
  ProcessEvent, FileEvent, NetworkEvent, RegistryEvent, AgentIoc, AgentSummary, GuestReport,
}

abbrev pub suspicious_names : List String
suspicious_names =
    "mimikatz" ∷ "lazagne" ∷ "bloodhound" ∷ "cobaltstrike" ∷ "meterpreter" ∷ "payload" ∷ "shellcode"
    ∷ "inject" ∷ []

abbrev pub suspicious_ports : List ℕ
suspicious_ports = 4444 ∷ 5555 ∷ 6666 ∷ 7777 ∷ 8888 ∷ 9999 ∷ 1234 ∷ 31337 ∷ []

abbrev pub suspicious_paths : List String
suspicious_paths = "\\temp\\" ∷ "\\appdata\\" ∷ "\\startup\\" ∷ "\\system32\\" ∷ []

abbrev pub suspicious_keys : List String
suspicious_keys = "run" ∷ "runonce" ∷ "services" ∷ "startup" ∷ []

-- `sus in text.lower()`
abbrev pub mentions : String → String → Bool
mentions text sus = occurs (codes sus) (lower (codes text))

-- One indicator for every entry of `patterns` that passes the test.
unfoldable pub each_match : {A : Type 0} → (A → Bool) → AgentIoc → List A → List AgentIoc
each_match test ioc [] = []
each_match test ioc (sus ∷ patterns) =
    let rest = each_match test ioc patterns in if test sus then ioc ∷ rest else rest

-- Python's `str` of an integer.
module _ (str : ℕ → String) where
  abbrev pub process_found : ProcessEvent → AgentIoc
  process_found event = record {
    kind = "process";
    severity = "high";
    description = format ("Suspicious process: " ∷ event.name ∷ []);
    more = ("pid", str event.pid) ∷ ("path", event.path) ∷ [];
  }

  abbrev pub process_ioc : ProcessEvent → List AgentIoc
  process_ioc event = each_match (mentions event.name) (process_found event) suspicious_names

  abbrev pub network_ioc : NetworkEvent → List AgentIoc
  network_ioc event =
      if any (λ port. event.remote_port == port) suspicious_ports
      then record {
        kind = "network";
        severity = "high";
        description = format (
            "Connection to suspicious port: "
            ∷ event.remote_addr
            ∷ ":"
            ∷ str event.remote_port
            ∷ []);
        more = ("protocol", event.protocol) ∷ [];
      }
        ∷ []
      else []

  abbrev pub file_found : FileEvent → AgentIoc
  file_found event = record {
    kind = "file";
    severity = "medium";
    description = format ("File created in suspicious location: " ∷ event.path ∷ []);
    more = [];
  }

  abbrev pub created_in : FileEvent → String → Bool
  created_in event sus = mentions event.path sus && str_eq event.event_type "created"

  abbrev pub file_ioc : FileEvent → List AgentIoc
  file_ioc event = each_match (created_in event) (file_found event) suspicious_paths

  abbrev pub registry_found : RegistryEvent → AgentIoc
  registry_found event = record {
    kind = "registry";
    severity = "high";
    description = format ("Registry persistence: " ∷ event.key ∷ []);
    more = [];
  }

  abbrev pub registry_ioc : RegistryEvent → List AgentIoc
  registry_ioc event = each_match (mentions event.key) (registry_found event) suspicious_keys

  unfoldable pub all_iocs : {E : Type 0} → (E → List AgentIoc) → List E → List AgentIoc
  all_iocs f [] = []
  all_iocs f (event ∷ events) = f event ++ all_iocs f events

  unfoldable pub detect_iocs : GuestReport → List AgentIoc
  unfolding all_iocs each_match
  detect_iocs report =
      all_iocs process_ioc report.process_events
      ++ all_iocs network_ioc report.network_events
      ++ all_iocs file_ioc report.file_events
      ++ all_iocs registry_ioc report.registry_events

abbrev pub is_high : AgentIoc → Bool
is_high ioc = str_eq ioc.severity "high"

unfoldable pub generate_summary : GuestReport → List AgentIoc → AgentSummary
generate_summary report iocs = record {
  total_processes = length report.process_events;
  total_file_events = length report.file_events;
  total_network_connections = length report.network_events;
  total_registry_changes = length report.registry_events;
  total_iocs = length iocs;
  high_severity_iocs = count_if is_high iocs;
  unique_processes = length (sorted_set (map (λ event. event.name) report.process_events));
  unique_remote_ips = length (sorted_set (map (λ event. event.remote_addr) report.network_events));
}

append-nil : (xs ys : List AgentIoc) → (xs ++ ys ≡ []) ↔ ((xs ≡ []) × (ys ≡ []))
append-nil [] ys = ground arith
append-nil (x ∷ xs) ys = ground arith

each_match-nil :
    {A : Type 0} (test : A → Bool) (ioc : AgentIoc) (patterns : List A)
    → (each_match test ioc patterns ≡ []) ↔ (any test patterns ≡ false)
unfolding each_match
each_match-nil test ioc [] = ground arith
each_match-nil test ioc (sus ∷ patterns) = ground (arith, each_match-nil test ioc patterns)

-- An event that raises no indicator.
abbrev pub QuietProcess : ProcessEvent → Type 0
QuietProcess event = any (mentions event.name) suspicious_names ≡ false

abbrev pub QuietNetwork : NetworkEvent → Type 0
QuietNetwork event = any (λ port. event.remote_port == port) suspicious_ports ≡ false

abbrev pub QuietFile : FileEvent → Type 0
QuietFile event =
    any (λ sus. mentions event.path sus && str_eq event.event_type "created") suspicious_paths
    ≡ false

abbrev pub QuietRegistry : RegistryEvent → Type 0
QuietRegistry event = any (mentions event.key) suspicious_keys ≡ false

network-nil :
    (str : ℕ → String) (event : NetworkEvent) → (network_ioc str event ≡ []) ↔ QuietNetwork event
network-nil str event =
    elim (Bool-cases (any (λ port. event.remote_port == port) suspicious_ports)) [
      | inl t ↦ rw t ((λ h. ground (arith, h)), (λ h. ground (arith, h)))
      | inr t ↦ rw t ((λ h. refl), (λ h. refl))
    ]

all_iocs-nil :
    {E : Type 0} (str : ℕ → String) (f : E → List AgentIoc) (Quiet : E → Type 0)
    → ((event : E) → (f event ≡ []) ↔ Quiet event)
    → (events : List E) → (all_iocs str f events ≡ []) ↔ All Quiet events
unfolding all_iocs
all_iocs-nil str f Quiet h [] = ((λ e. tt), (λ q. refl))
all_iocs-nil str f Quiet h (event ∷ events) =
    let both = append-nil (f event) (all_iocs str f events) in
    let rest = all_iocs-nil str f Quiet h events in
    (
      (λ e. ((h event).0 (both.0 e).0, rest.0 (both.0 e).1)),
      (λ q. both.1 ((h event).1 q.0, rest.1 q.1)),
    )

-- No indicator is found exactly if no process has a suspicious name, no connection goes to a suspicious
-- port, no file was created in a suspicious place and no registry key is one of persistence.
pub detect_iocs-nil :
    (str : ℕ → String) (report : GuestReport)
    → (detect_iocs str report ≡ []) ↔ (
        All QuietProcess report.process_events
        × All QuietNetwork report.network_events
        × All QuietFile report.file_events
        × All QuietRegistry report.registry_events)
unfolding detect_iocs
detect_iocs-nil str report =
    let p =
      all_iocs-nil str (process_ioc str) QuietProcess
        (λ e. each_match-nil (mentions e.name) (process_found str e) suspicious_names)
        report.process_events in
    let n =
      all_iocs-nil str (network_ioc str) QuietNetwork (network-nil str) report.network_events in
    let f =
      all_iocs-nil str (file_ioc str) QuietFile
        (λ e. each_match-nil (created_in str e) (file_found str e) suspicious_paths)
        report.file_events in
    let r =
      all_iocs-nil str (registry_ioc str) QuietRegistry
        (λ e. each_match-nil (mentions e.key) (registry_found str e) suspicious_keys)
        report.registry_events in
    let ps = all_iocs str (process_ioc str) report.process_events in
    let ns = all_iocs str (network_ioc str) report.network_events in
    let fs = all_iocs str (file_ioc str) report.file_events in
    let rs = all_iocs str (registry_ioc str) report.registry_events in
    let a = append-nil (ps ++ ns ++ fs) rs in
    let b = append-nil (ps ++ ns) fs in
    let c = append-nil ps ns in
    (
      (λ e.
          let x = a.0 e in
          let y = b.0 x.0 in let z = c.0 y.0 in (p.0 z.0, n.0 z.1, f.0 y.1, r.0 x.1)),
      (λ q. a.1 (b.1 (c.1 (p.1 q.0, n.1 q.1), f.1 q.2), r.1 q.3)),
    )
