-- ===== src/Tests/Bunkers.antt =====
-- The theorems on one bunker, at concrete bunkers.
use lumenos_hiper_v.Prelude.{
  true, false, String, [], ◌∷◌, ◌≡◌, ◌⊎◌, refl, arith, Ensures, All, Dict, lookup, insert,
}
use lumenos_hiper_v.Types.{ready, active, terminating, quarantine, DecontaminationReport}
use lumenos_hiper_v.Monitoring.Integrity.{
  new_verifier, set_baseline, verify_all, critical_components,
}
use lumenos_hiper_v.Monitoring.Integrity.AllPassed.{Matches, Unchanged, verify_all-Sound}
use lumenos_hiper_v.Decontamination.Filing.{Filed}
use lumenos_hiper_v.Bunker.{new_bunker, transition_to}
use lumenos_hiper_v.Bunker.Session.{activate, terminate, force_quarantine}
use lumenos_hiper_v.Bunker.Activation.{Running, NotStarted, RaisedDestroyed, activate_outcome}
use lumenos_hiper_v.Bunker.Closing.{Closed, Filed as OnFile, terminate_outcome, terminate-Refused}
use lumenos_hiper_v.Bunker.Holding.{CanHold, Held, force_quarantine_outcome}
use lumenos_hiper_v.Bunker.Closing
use lumenos_hiper_v.Bunker.Moves.{Moved, Rejected, transition_to_outcome}
use lumenos_hiper_v.Tests.Fixtures.{test_env, started_in}

activate_outcome_example :
    Ensures
      (λ r t.
        ((r ≡ true) × Running test_env t)
        ⊎ ((r ≡ false) × NotStarted test_env (started_in ready) t))
      (λ _ _. ⊥)
      (activate test_env (started_in ready))
unfolding new_bunker
activate_outcome_example =
    activate_outcome test_env (started_in ready) refl (refl, (refl, (refl, (refl, (refl, tt)))))

terminate_outcome_example :
    Ensures
      (λ r t. Closed r t × ((r ≡ false) ⊎ OnFile test_env true t))
      (λ _ _. ⊥)
      (terminate test_env (started_in active))
unfolding new_bunker
terminate_outcome_example = terminate_outcome test_env (started_in active) refl

terminate-Refused_example :
    Ensures
      (Closing.Refused test_env (started_in quarantine))
      (RaisedDestroyed test_env (started_in quarantine))
      (terminate test_env (started_in quarantine))
unfolding new_bunker
terminate-Refused_example = terminate-Refused test_env (started_in quarantine) (λ h. ground arith)

force_quarantine_outcome_example :
    let s = (started_in active) in
    Ensures
      (λ _ t. (CanHold active × Held test_env s t) ⊎ ((¬ CanHold active) × (t ≡ s)))
      (λ _ _. ⊥)
      (force_quarantine test_env "escape" s)
unfolding new_bunker
force_quarantine_outcome_example = force_quarantine_outcome test_env "escape" (started_in active)

abbrev found_hashes : Dict String
found_hashes = ("base_image", "ab") ∷ []

verify_all-Sound_example :
    let v = set_baseline "base_image" "ab" new_verifier in
    All (Matches found_hashes v) (verify_all 7 found_hashes v).0.1
    × All (Unchanged found_hashes v) critical_components
unfolding verify_all set_baseline lookup insert
verify_all-Sound_example =
    verify_all-Sound 7 found_hashes (set_baseline "base_image" "ab" new_verifier) refl

transition_to_outcome_example :
    let s = (started_in active) in
    Ensures
      (λ r t.
        ((r ≡ true) × Moved test_env terminating s t)
        ⊎ ((r ≡ false) × (terminating ≡ s.0.state) × (t ≡ s)))
      (Rejected test_env terminating s)
      (transition_to test_env terminating s)
transition_to_outcome_example = transition_to_outcome test_env terminating (started_in active)

abbrev signed_report : DecontaminationReport
signed_report = record {
  bunker_id = "b";
  start_time = 0;
  end_time = 1;
  steps_completed = "purge_memory" ∷ [];
  steps_failed = [];
  integrity_checks = [];
  warnings = [];
  success = true;
  signature = "signature";
}
