-- ===== src/Tests/Inspections.antt =====
-- The theorems on the inspect cycle, at a bunker and a sample.
use lumenos_hiper_v.Prelude.{ℕ, suc, true, String, none, some, List, [], ◌∷◌, Outcome, ok, Ensures}
use lumenos_hiper_v.Types.{error, SecurityEvent, memory, high}
use lumenos_hiper_v.Inspect.{Ioc, process_ioc, medium_severity}
use lumenos_hiper_v.Inspect.Sample.{Hashed, Parsed, Sample}
use lumenos_hiper_v.Inspect.Disposal.{decontaminate}
use lumenos_hiper_v.Inspect.Disposed.{Disposed, Reported, decontaminate_outcome}
use lumenos_hiper_v.Inspect.Cycle.{Request, run_cycle, analyze_hashed}
use lumenos_hiper_v.Inspect.Cleanup.{
  Gone, PassedOn, Supported, analyze_hashed_outcome, analyze_hashed-Supported,
}
use lumenos_hiper_v.Tests.Fixtures.{test_config, test_env, in_state}

abbrev heap_event : SecurityEvent
heap_event = record {
  timestamp = 4;
  layer = memory;
  event_type = "HEAP";
  severity = high;
  description = "spray";
  bunker_id = "b";
}

abbrev iocs : List Ioc
iocs =
    (record { ioc_type = process_ioc; value = "xen"; severity = medium_severity; evidence = "xen" })
    ∷ []

abbrev no_int : String → Outcome Parsed
no_int raw = ok (true, 1)

abbrev digest : List String → String
digest parts = "digest"

abbrev two_reads : Sample
two_reads = record {
  path = "sample";
  on_disk = ok 5;
  opened = ok tt;
  reads = ok (record { size = 3; bytes = "abc" }) ∷ ok (record { size = 2; bytes = "de" }) ∷ [];
}

abbrev forget_record : String → ℕ → Outcome (Unit {0}) × ℕ
forget_record id w = (ok tt, suc w)

decontaminate_outcome_example :
    let r = decontaminate test_env forget_record (in_state error, 0) in
    Disposed test_env forget_record r.1 × Reported test_env forget_record (in_state error) r.0 r.1
decontaminate_outcome_example = decontaminate_outcome test_env forget_record (in_state error) 0

abbrev request : Request ℕ
request = record {
  sample = two_reads;
  is_file = true;
  name = "sample";
  text = ok "abcde";
  config = test_config;
  key = "key";
  guest_path = none;
  monitor_seconds = 5;
  execute_timeout = 30;
  timeout_seconds = none;
  is_mock = true;
  size_limit = 1048576;
  sha256 = digest;
  digest = λ report. "digest";
  sleep = λ seconds w. (ok tt, w);
  watch = λ m w. (m, w);
  delete_state = forget_record;
}

abbrev hashed : Hashed
hashed = record { path = "sample"; sha256 = "digest"; size = 5 }

analyze_hashed_outcome_example :
    Ensures
      (λ _. Gone test_env request)
      (λ e t. PassedOn test_env request e × Gone test_env request t)
      (analyze_hashed test_env request 0 (some 9) hashed 1)
analyze_hashed_outcome_example = analyze_hashed_outcome test_env request 0 (some 9) hashed 1

analyze_hashed-Supported_example :
    Ensures
      (λ report t.
        Supported test_env request (run_cycle test_env request none 1).0 report.verdict t.0)
      (λ _ _. Unit)
      (analyze_hashed test_env request 0 none hashed 1)
analyze_hashed-Supported_example = analyze_hashed-Supported test_env request 0 none hashed 1
