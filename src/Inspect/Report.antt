-- ===== src/Inspect/Report.antt =====
-- The report of a cycle in lumenos_sandbox/inspect.py, and what counts as its error. The digest of the
-- canonical JSON of a report is an argument.
use lumenos_hiper_v.Prelude.{
  ℕ, Bool, true, false, String, Option, none, some, List, [], ◌∷◌, ◌++◌, get_or, is_given, format,
  ltb, ◌==◌, ExcKind, if◌then◌else◌, invalid_state_transition, security_violation, bunker_not_ready,
  system_error, analysis_deadline_exceeded, value_error, file_not_found, sample_too_large,
  guest_telemetry_unavailable, runtime_error, key_error, other_error,
}
use lumenos_hiper_v.Monitoring.Patterns.{codes, codes_eq}
use lumenos_hiper_v.Inspect.{Ioc, Verdict, verdict_from_iocs, confidence, score}
use lumenos_hiper_v.Inspect.Sample.{Hashed}
use lumenos_hiper_v.Inspect.Disposal.{Disposal}

pub record InspectReport : Type 0 where
  pub schema : String
  pub verdict : Verdict
  pub confidence : ℕ
  pub score : ℕ
  pub sample : Hashed
  pub iocs : List Ioc
  pub custody_hash : String
  pub custody_valid : Bool
  pub decontamination : Disposal
  pub bunker_id : String
  pub duration_ms : ℕ

-- The steps of the disposal, with the error appended.
abbrev pub with_error : Option String → Disposal → Disposal
with_error error d =
    if is_given error
    then record d { steps = d.steps ++ format ("error: " ∷ get_or error "" ∷ []) ∷ [] }
    else d

-- `build_inspect_report`; the digest is taken with a blank hash
unfoldable pub build_inspect_report :
    (InspectReport → String)
    → Hashed
    → List Ioc
    → String
    → ℕ
    → Disposal
    → Option String
    → InspectReport
build_inspect_report digest sample iocs bunker_id duration_ms decontamination error =
    let verdict = verdict_from_iocs iocs error in
    let blank : InspectReport = record {
      schema = "lumenos.inspect-report/v1";
      verdict = verdict;
      confidence = confidence verdict;
      score = score iocs;
      sample = sample;
      iocs = iocs;
      custody_hash = "";
      custody_valid = true;
      decontamination = with_error error decontamination;
      bunker_id = bunker_id;
      duration_ms = duration_ms;
    } in
    record blank { custody_hash = digest blank }

-- `type(exc).__name__`
abbrev pub exc_name : ExcKind → String
exc_name invalid_state_transition = "InvalidStateTransition"
exc_name security_violation = "SecurityViolation"
exc_name bunker_not_ready = "BunkerNotReady"
exc_name system_error = "SystemError"
exc_name analysis_deadline_exceeded = "AnalysisDeadlineExceeded"
exc_name value_error = "ValueError"
exc_name file_not_found = "FileNotFoundError"
exc_name sample_too_large = "SampleTooLarge"
exc_name guest_telemetry_unavailable = "GuestTelemetryUnavailable"
exc_name runtime_error = "RuntimeError"
exc_name key_error = "KeyError"
exc_name other_error = "Exception"

-- Texts in the order of their code points.
abbrev lex_lt : List ℕ → List ℕ → Bool
lex_lt [] [] = false
lex_lt [] (d ∷ t) = true
lex_lt (c ∷ s) [] = false
lex_lt (c ∷ s) (d ∷ t) = let rest = lex_lt s t in if c == d then rest else ltb c d

-- A text in a sorted list without repetitions.
put_sorted : String → List String → List String
put_sorted x [] = x ∷ []
put_sorted x (y ∷ ys) =
    let rest = put_sorted x ys in
    if codes_eq (codes x) (codes y)
    then y ∷ ys
    else if lex_lt (codes x) (codes y)
    then x ∷ y ∷ ys
    else y ∷ rest

-- `sorted(set(xs))`
unfoldable pub sorted_set : List String → List String
unfolding put_sorted
sorted_set [] = []
sorted_set (x ∷ xs) = put_sorted x (sorted_set xs)

-- `", ".join(xs)`
unfoldable pub join : List String → String
join [] = ""
join (x ∷ []) = x
join (x ∷ (y ∷ ys)) = format (x ∷ ", " ∷ join (y ∷ ys) ∷ [])

-- `_telemetry_error`, on the capabilities that could not be consulted
unfoldable pub telemetry_error : List String → Option String
unfolding sorted_set join
telemetry_error [] = none
telemetry_error (c ∷ cs) = some (
    format (
      "guest telemetry unavailable, no verdict can be supported: "
      ∷ join (sorted_set (c ∷ cs))
      ∷ []))
