-- ===== src/Monitoring/Patterns.antt =====
-- The pattern scans of `class SecurityMonitor` of lumenos_sandbox/monitoring.py. `str.lower` is
-- modelled on ASCII letters; any other character is left as it is.
use Prim.Native.Char.{code}
use lumenos_hiper_v.Prelude.{
  ℕ, ◌+◌, Bool, true, false, ◌&&◌, ◌||◌, String, Option, List, [], ◌∷◌, ◌++◌, get_or, is_given, leb,
  ◌==◌, format, if◌then◌else◌,
}
use lumenos_hiper_v.Hypervisor.{GuestEvent}

-- The code points of a text. `String` has its own `[]` and `∷`.
abbrev pub codes : String → List ℕ
codes String.[] = []
codes (String.◌∷◌ c s) = code c ∷ codes s

abbrev lower_code : ℕ → ℕ
lower_code c = if leb b'A' c && leb c b'Z' then c + 32 else c

abbrev pub lower : List ℕ → List ℕ
lower [] = []
lower (c ∷ cs) = lower_code c ∷ lower cs

abbrev pub is_prefix : List ℕ → List ℕ → Bool
is_prefix [] s = true
is_prefix (p ∷ ps) [] = false
is_prefix (p ∷ ps) (c ∷ s) = p == c && is_prefix ps s

abbrev pub codes_eq : List ℕ → List ℕ → Bool
codes_eq [] [] = true
codes_eq (c ∷ s) (d ∷ t) = c == d && codes_eq s t
codes_eq _ _ = false

-- `p in s`, on code points
unfoldable pub occurs : List ℕ → List ℕ → Bool
occurs p [] = is_prefix p []
occurs p (c ∷ s) = is_prefix p (c ∷ s) || occurs p s

-- `pattern.lower() in data.lower()`
unfoldable pub matches : String → String → Bool
unfolding occurs
matches pattern content = occurs (lower (codes pattern)) (lower (codes content))

-- `SUSPICIOUS_PATTERNS`
abbrev pub suspicious_patterns : List (String × List String)
suspicious_patterns =
    (
      "vm_escape_indicators",
      "VBOX" ∷ "VMWARE" ∷ "QEMU" ∷ "VIRTUALBOX" ∷ "vmmouse" ∷ "vmware svga" ∷ "vboxvideo"
          ∷ "hypervisor" ∷ "hyper-v" ∷ "xen" ∷ [],
    )
    ∷ (
      "debugging_indicators",
      "kernel32.dll" ∷ "ntdll.dll" ∷ "IsDebuggerPresent" ∷ "CheckRemoteDebuggerPresent"
          ∷ "NtQueryInformationProcess" ∷ [],
    )
    ∷ (
      "persistence_indicators",
      "CurrentVersion\\Run" ∷ "Winlogon" ∷ "Shell Folders" ∷ "Startup" ∷ "Scheduled Tasks"
          ∷ "Services" ∷ [],
    )
    ∷ (
      "network_exfil_indicators",
      "dns tunnel" ∷ "icmp tunnel" ∷ "http beacon" ∷ "reverse shell" ∷ "bind shell"
          ∷ "data exfiltration" ∷ [],
    )
    ∷ (
      "injection_indicators",
      "CreateRemoteThread" ∷ "WriteProcessMemory" ∷ "DLL injection" ∷ "Process Hollowing"
          ∷ "APC Injection" ∷ "SetWindowsHookEx" ∷ [],
    )
    ∷ []

-- The inner loop over the patterns of one category.
scan_category : String → List String → String → List String
unfolding matches
scan_category category [] content = []
scan_category category (p ∷ ps) content =
    let rest = scan_category category ps content in
    if matches p content then format (category ∷ ": " ∷ p ∷ []) ∷ rest else rest

scan : List (String × List String) → String → List String
unfolding scan_category
scan [] content = []
scan ((category, patterns) ∷ rest) content =
    scan_category category patterns content ++ scan rest content

unfoldable pub analyze_patterns : String → List String
unfolding scan
analyze_patterns content = scan suspicious_patterns content

-- `event.get("ProcessName") or event.get("ProviderName", "unknown")`
abbrev source_of : Option String → Option String → String
source_of process provider =
    if is_given process then get_or process "" else get_or provider "unknown"

-- The findings on one event: its Sysmon id, then the scan of its message.
event_findings : GuestEvent → List String
unfolding scan
event_findings e =
    let event_id = get_or e.event_id 0 in
    let message = get_or e.message "" in
    let source = source_of e.process_name e.provider_name in
    (if event_id == 8
      then format ("Process injection detected (CreateRemoteThread): " ∷ source ∷ []) ∷ []
      else [])
    ++ (if event_id == 10
        then format ("Process access attempt (ProcessAccess): " ∷ source ∷ []) ∷ []
        else [])
    ++ scan suspicious_patterns message

unfoldable pub analyze_event_log : List GuestEvent → List String
unfolding event_findings
analyze_event_log [] = []
analyze_event_log (e ∷ es) = event_findings e ++ analyze_event_log es
