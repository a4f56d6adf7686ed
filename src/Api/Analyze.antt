-- ===== src/Api/Analyze.antt =====
-- `analyze_sync_endpoint` of lumenos_sandbox/api.py for one caller: the checks before an analysis is
-- admitted, its submission, and the wait. What became of the analysis while the caller waited is an
-- argument.
use lumenos_hiper_v.Prelude.{
  ℕ, Bool, not, String, Option, List, [], ◌∷◌, ◌++◌, Outcome, ok, err, format, if◌then◌else◌,
}
use lumenos_hiper_v.Inspect.Sample.{ensure_sample_within_limit}
use lumenos_hiper_v.Api.{Reply, reply, refuse, crash}
use lumenos_hiper_v.Api.Access.{
  Request, AuditLine, FilePath, Service, log_access_denied, audited, authorize_and_resolve,
}
use lumenos_hiper_v.Api.Slots.{Slots, acquire, submitted, submission_failed, returned}

-- What the endpoint asks of the file system, and the cap of `max_sample_bytes`.
pub record Files : Type 0 where
  pub is_file : FilePath → Bool
  pub size : FilePath → Outcome ℕ
  pub limit : ℕ

-- What `future.result(timeout=…)` comes to: the worker returned, or raised an exception other than a
-- TimeoutError, and has released its slot; or the wait timed out.
pub data Waited (R : Type 0) : Type 0 where
  finished : Outcome R → Waited R
  timed_out : Waited R

abbrev pub State : Type 0
State = List AuditLine × Slots

-- The slots after `release`, or as they are where it raises.
abbrev pub or_same : Slots → Outcome Slots → Slots
or_same s (ok t) = t
or_same s (err e) = s

module _ {R : Type 0} where
  abbrev pub await : Waited R → State → Reply R × State
  await (finished (ok report)) (audit, s) = (reply report, (audit, or_same s (returned s)))
  await (finished (err e)) (audit, s) =
      (refuse 500 (format ("Analysis failed: " ∷ e.message ∷ [])), (audit, or_same s (returned s)))
  await timed_out (audit, s) =
      (refuse 504 "Analysis timed out — bunker decontamination continues in background", (audit, s))

  -- `_analysis_executor.submit(…)`, which may raise, and the wait.
  abbrev pub launch : Outcome (Unit {0}) → Waited R → State → Reply R × State
  launch (ok u) waited (audit, s) = await waited (audit, submitted s)
  launch (err e) waited (audit, s) = (crash e, (audit, or_same s (submission_failed s)))

  abbrev pub admit : Outcome (Unit {0}) → Waited R → State → Reply R × State
  admit submission waited (audit, s) =
      let (got, s') = acquire s in
      if not got
      then (refuse 503 "Analysis capacity is full — retry shortly", (audit, s'))
      else launch submission waited (audit, s')

  module _ (is_printable : ℕ → Bool) (service : Service) (files : Files) where
    -- A refusal that the endpoint itself records.
    abbrev pub denied : Request → ℕ → String → String → State → Reply R × State
    denied request status reason detail (audit, s) = (
      refuse status detail,
      (audit ++ log_access_denied is_printable request status reason ∷ [], s),
    )

    abbrev pub size_checked :
        Request → Outcome (Unit {0}) → Outcome (Unit {0}) → Waited R → State → Reply R × State
    size_checked request (err e) submission waited st =
        denied request 413 "sample-too-large" e.message st
    size_checked request (ok u) submission waited st = admit submission waited st

    abbrev pub with_path :
        Request → String → Reply FilePath → Outcome (Unit {0}) → Waited R → State → Reply R × State
    with_path request sample_path (refuse status detail) submission waited st =
        (refuse status detail, st)
    with_path request sample_path (crash e) submission waited st = (crash e, st)
    with_path request sample_path (reply path) submission waited st =
        if not (files.is_file path)
        then denied request 400 "sample-not-found"
            (format ("Sample not found: " ∷ sample_path ∷ [])) st
        else size_checked request (ensure_sample_within_limit files.limit (files.size path) tt).0
            submission waited st

    unfoldable pub analyze_sync_endpoint :
        Request → String → Option String → Outcome (Unit {0}) → Waited R → State → Reply R × State
    unfolding authorize_and_resolve
    analyze_sync_endpoint request sample_path authorization submission waited (audit, s) =
        let (path, audit') =
          audited is_printable request "sample-authorization"
            (authorize_and_resolve service sample_path authorization) audit in
        with_path request sample_path path submission waited (audit', s)
