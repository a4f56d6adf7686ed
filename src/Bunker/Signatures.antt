-- ===== src/Bunker/Signatures.antt =====
-- `Bunker.verify_report_signature` on the reports that `DecontaminationRunner.run` signs.
use lumenos_hiper_v.Prelude.{
  true, String, List, ◌≡◌, refl, ok, err, Ensures, Ensures-weaken, eq_refl, sym,
}
use lumenos_hiper_v.Types.{DecontaminationReport, IntegrityCheck}
use lumenos_hiper_v.Host.{Env}
use lumenos_hiper_v.Monitoring.Integrity.{IntegrityVerifier}
use lumenos_hiper_v.Decontamination.{DecontaminationRunner, run, sign_report}
use lumenos_hiper_v.Decontamination.Filing.{run_outcome}
use lumenos_hiper_v.Bunker.{Bunker}
use lumenos_hiper_v.Bunker.Session.{verify_report_signature}

module _ {W : Type 0} (env : Env W) where
  open env use {host, shared}

  verify-signed :
      (b : Bunker) (report : DecontaminationReport)
      → sign_report host shared b.signing_key report ≡ ok report.signature
      → verify_report_signature env b report ≡ ok true
  unfolding verify_report_signature
  verify-signed b report e = rw (e, eq_refl report.signature) refl

  -- A report that a runner produced is accepted by the bunker whose key the runner was given.
  verify-run :
      (b : Bunker) (r : DecontaminationRunner) (v : IntegrityVerifier) (w : W)
      → r.signing_key ≡ b.signing_key
      → Ensures
          (λ report _. verify_report_signature env b report ≡ ok true)
          (λ e _. (text : String) × (host.hmac_sha256 b.signing_key text ≡ err e))
          (run host shared r v w)
  verify-run b r v w key =
      Ensures-weaken (run_outcome host shared r v w)
        (λ report _ h. verify-signed b report (rw (sym key) h.signed)) λ e _ h. simp (sym key) h

  -- The signature does not cover what the report says of its steps, its warnings and its integrity
  -- checks: with these replaced the report is judged the same.
  verify-replaced :
      (b : Bunker) (report : DecontaminationReport) (completed failed warnings : List String)
      (checks : List IntegrityCheck)
      → verify_report_signature env b (record report {
        steps_completed = completed;
        steps_failed = failed;
        warnings = warnings;
        integrity_checks = checks;
      })
        ≡ verify_report_signature env b report
  unfolding verify_report_signature sign_report
  verify-replaced b report completed failed warnings checks = refl
