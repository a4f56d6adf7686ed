-- ===== src/Inspect.antt =====
-- lumenos_sandbox/inspect.py: the indicators of compromise that a cycle collects, the verdict on
-- them and the report. The strings that `IOC` admits as type and severity are data types here, and a
-- confidence is counted in tenths.
pub mod Sample
pub mod Hashing
pub mod Disposal
pub mod Disposed
pub mod Report
pub mod Cycle
pub mod Cleanup
pub mod Verdicts
pub mod Escapes
use lumenos_hiper_v.Prelude.{
  ℕ, ◌+◌, Bool, true, false, ◌&&◌, ◌||◌, String, Option, none, some, List, [], ◌∷◌, ◌++◌, map, any,
  is_given, get_or, sum_of, str_eq, format, Dict, lookup, Outcome, ok, err, if◌then◌else◌, leb, ltb,
  ◌==◌,
}
use Prim.Native.Char.{code}
use lumenos_hiper_v.Types.{
  SecurityLayer, network, filesystem, process, memory, hypervisor, ThreatLevel, none_level, low,
  medium, high, critical, EscapeAttemptType, vm_escape, network_exfiltration, file_persistence,
  process_injection, memory_manipulation, hypervisor_attack, side_channel, rootkit_detected,
  escape_value, SecurityEvent,
}
use lumenos_hiper_v.Monitoring.Patterns.{analyze_patterns, codes}
use lumenos_hiper_v.Monitoring.Monitor.{SecurityMonitor}

-- `_VALID_IOC_TYPES`
pub data IocType : Type 0 where
  file_ioc network_ioc process_ioc persistence_ioc registry_ioc memory_ioc : IocType

-- `_VALID_SEVERITIES`
pub data Severity : Type 0 where
  low_severity medium_severity high_severity critical_severity : Severity

abbrev pub ioc_type_eq : IocType → IocType → Bool
ioc_type_eq file_ioc file_ioc = true
ioc_type_eq network_ioc network_ioc = true
ioc_type_eq process_ioc process_ioc = true
ioc_type_eq persistence_ioc persistence_ioc = true
ioc_type_eq registry_ioc registry_ioc = true
ioc_type_eq memory_ioc memory_ioc = true
ioc_type_eq _ _ = false

abbrev pub severity_eq : Severity → Severity → Bool
severity_eq low_severity low_severity = true
severity_eq medium_severity medium_severity = true
severity_eq high_severity high_severity = true
severity_eq critical_severity critical_severity = true
severity_eq _ _ = false

pub record Ioc : Type 0 where
  pub ioc_type : IocType
  pub value : String
  pub severity : Severity
  pub evidence : String

-- `_SEVERITY_WEIGHTS`
abbrev pub severity_weight : Severity → ℕ
severity_weight low_severity = 1
severity_weight medium_severity = 10
severity_weight high_severity = 50
severity_weight critical_severity = 100

-- `_severity_from_threat`
abbrev pub severity_from_threat : ThreatLevel → Severity
severity_from_threat critical = critical_severity
severity_from_threat high = high_severity
severity_from_threat medium = medium_severity
severity_from_threat low = low_severity
severity_from_threat none_level = low_severity

pub data Verdict : Type 0 where
  clean suspicious malicious error_verdict : Verdict

-- `_CONFIDENCE_BY_VERDICT`
abbrev pub confidence : Verdict → ℕ
confidence clean = 10
confidence suspicious = 6
confidence malicious = 9
confidence error_verdict = 0

-- `i.severity in ("critical", "high")`
abbrev pub is_severe : Ioc → Bool
is_severe i = severity_eq i.severity critical_severity || severity_eq i.severity high_severity

abbrev pub is_medium : Ioc → Bool
is_medium i = severity_eq i.severity medium_severity

-- `_verdict_from_iocs`
unfoldable pub verdict_from_iocs : List Ioc → Option String → Verdict
verdict_from_iocs iocs error =
    if is_given error
    then error_verdict
    else if any is_severe iocs
    then malicious
    else if any is_medium iocs
    then suspicious
    else clean

-- `sum(_SEVERITY_WEIGHTS[i.severity] for i in iocs)`
abbrev pub score : List Ioc → ℕ
score iocs = sum_of (λ i. severity_weight i.severity) iocs

-- `_LAYER_TO_IOC_TYPE`
abbrev pub layer_to_ioc_type : SecurityLayer → IocType
layer_to_ioc_type network = network_ioc
layer_to_ioc_type filesystem = file_ioc
layer_to_ioc_type process = process_ioc
layer_to_ioc_type memory = memory_ioc
layer_to_ioc_type hypervisor = process_ioc

-- `_PATTERN_CATEGORY_TO_IOC`
abbrev pub pattern_category_to_ioc : Dict (IocType × Severity)
pattern_category_to_ioc =
    ("vm_escape_indicators", (process_ioc, high_severity))
    ∷ ("debugging_indicators", (process_ioc, low_severity))
    ∷ ("persistence_indicators", (persistence_ioc, medium_severity))
    ∷ ("network_exfil_indicators", (network_ioc, high_severity))
    ∷ ("injection_indicators", (process_ioc, critical_severity))
    ∷ []

-- `_ESCAPE_TO_IOC`
abbrev pub escape_to_ioc : EscapeAttemptType → IocType × Severity
escape_to_ioc vm_escape = (process_ioc, critical_severity)
escape_to_ioc network_exfiltration = (network_ioc, critical_severity)
escape_to_ioc file_persistence = (persistence_ioc, high_severity)
escape_to_ioc process_injection = (process_ioc, critical_severity)
escape_to_ioc memory_manipulation = (memory_ioc, critical_severity)
escape_to_ioc hypervisor_attack = (process_ioc, critical_severity)
escape_to_ioc side_channel = (memory_ioc, high_severity)
escape_to_ioc rootkit_detected = (process_ioc, critical_severity)

-- What follows a leading ": ", if there is one.
abbrev after_separator : String → Option String
after_separator (String.◌∷◌ c (String.◌∷◌ d s)) =
    if code c == 58 && code d == 32 then some s else none
after_separator _ = none

-- `category, _, pattern = text.partition(": ")`
unfoldable pub partition : String → String × String
partition String.[] = (String.[], String.[])
partition (String.◌∷◌ c s) =
    let (category, pattern) = partition s in
    elim (after_separator (String.◌∷◌ c s)) [
      | some rest ↦ (String.[], rest)
      | none ↦ (String.◌∷◌ c category, pattern)
    ]

-- The white space of ASCII.
abbrev is_space : ℕ → Bool
is_space c = c == 32 || leb 9 c && leb c 13

unfoldable pub lstrip : String → String
lstrip String.[] = String.[]
lstrip (String.◌∷◌ c s) = let rest = lstrip s in if is_space (code c) then rest else String.◌∷◌ c s

unfoldable pub rstrip : String → String
rstrip String.[] = String.[]
rstrip (String.◌∷◌ c s) =
    let rest = rstrip s in
    if str_eq rest "" && is_space (code c) then String.[] else String.◌∷◌ c rest

-- One finding of the static scan; an unknown category counts as process/high.
unfoldable pub finding_ioc : String → Ioc
unfolding lstrip rstrip
finding_ioc finding =
    let (category, pattern) = partition finding in
    let (ioc_type, severity) =
      get_or (lookup category pattern_category_to_ioc) (process_ioc, high_severity) in
    record {
      ioc_type = ioc_type;
      value = rstrip (lstrip pattern);
      severity = severity;
      evidence = finding;
    }

abbrev pub event_ioc : SecurityEvent → Ioc
event_ioc e = record {
  ioc_type = layer_to_ioc_type e.layer;
  value = e.event_type;
  severity = severity_from_threat e.severity;
  evidence = e.description;
}

abbrev pub attempt_ioc : EscapeAttemptType → Ioc
attempt_ioc a = record {
  ioc_type = (escape_to_ioc a).0;
  value = escape_value a;
  severity = (escape_to_ioc a).1;
  evidence = format ("escape attempt: " ∷ escape_value a ∷ []);
}

-- The keys of two indicators are equal.
abbrev pub same_ioc : Ioc → Ioc → Bool
same_ioc i j =
    ioc_type_eq i.ioc_type j.ioc_type
    && str_eq i.value j.value
    && severity_eq i.severity j.severity
    && str_eq i.evidence j.evidence

-- `add`, on the indicators so far
abbrev pub add : Ioc → List Ioc → List Ioc
add i iocs = if any (same_ioc i) iocs then iocs else iocs ++ i ∷ []

abbrev pub add_all : List Ioc → List Ioc → List Ioc
add_all [] iocs = iocs
add_all (i ∷ is) iocs = add_all is (add i iocs)

-- The static scan of the text of the sample; what reading it raises is only logged.
abbrev pub static_iocs : Outcome String → List Ioc
static_iocs (ok text) = map finding_ioc (analyze_patterns text)
static_iocs (err e) = []

-- `_collect_iocs`
unfoldable pub collect_iocs : Outcome String → SecurityMonitor → List Ioc
collect_iocs text m =
    add_all (map attempt_ioc m.escape_attempts)
      (add_all (map event_ioc m.events) (add_all (static_iocs text) []))
