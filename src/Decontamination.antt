-- ===== src/Decontamination.antt =====
-- lumenos_sandbox/decontamination.py: the seven steps of a runner, and its report. A bunker makes
-- the runner with no backend, so the steps call the shared backend of `get_backend()`.
pub mod Filing
use lumenos_hiper_v.Prelude.{
  ℕ, Bool, true, false, ◌&&◌, ◌||◌, String, Option, none, some, List, [], ◌∷◌, ◌++◌, get_or,
  is_nonempty, Dict, format, Outcome, ok, err, pure, ◌>>=◌, try_except, if◌then◌else◌,
}
use lumenos_hiper_v.Types.{IntegrityCheck, DecontaminationReport}
use lumenos_hiper_v.Hypervisor.{HypervisorBackend}
use lumenos_hiper_v.Host.{Host, component_baseline_digest}
use lumenos_hiper_v.Monitoring.Integrity.{IntegrityVerifier, critical_components, verify_all}
use lumenos_hiper_v.Monitoring.Patterns.{codes, codes_eq, lower}

-- What a runner is given; its monitor only reads, so it is not part of the state.
pub record DecontaminationRunner : Type 0 where
  pub bunker_id : String
  pub vm_name : String
  pub guest_username : String
  pub signing_key : String

-- What `run` has filed so far.
pub record Progress : Type 0 where
  pub completed : List String
  pub failed : List String
  pub warnings : List String

abbrev pub no_progress : Progress
no_progress = record { completed = []; failed = []; warnings = [] }

-- One round of the loop of `run`: a step that returns False or raises counts as failed.
abbrev pub file_step : String → Outcome Bool → Progress → Progress
file_step name (ok true) p = record p { completed = p.completed ++ name ∷ [] }
file_step name (ok false) p = record p {
  failed = p.failed ++ name ∷ [];
  warnings = p.warnings ++ format ("Paso " ∷ name ∷ " retornó False" ∷ []) ∷ [];
}
file_step name (err e) p = record p {
  failed = p.failed ++ name ∷ [];
  warnings = p.warnings ++ format ("Error en " ∷ name ∷ ": " ∷ e.message ∷ []) ∷ [];
}

abbrev pub is_empty : List String → Bool
is_empty [] = true
is_empty (x ∷ xs) = false

abbrev pub Step : Type 0 → Type 0
Step W = W → Outcome Bool × W

unfoldable pub run_steps : {W : Type 0} → List (String × Step W) → Progress → W → Progress × W
run_steps [] p w = (p, w)
run_steps ((name, step) ∷ steps) p w =
    let (r, w') = step w in run_steps steps (file_step name r p) w'

module _ {W : Type 0} (host : Host W) (shared : HypervisorBackend W) where
  -- `status is None or status.lower() in ("off", "saved")`
  is_stopped : Option String → Bool
  is_stopped none = true
  is_stopped (some status) =
      codes_eq (lower (codes status)) (codes "off")
      || codes_eq (lower (codes status)) (codes "saved")

  step_terminate_processes : DecontaminationRunner → Step W
  step_terminate_processes r =
      if is_nonempty r.vm_name
      then (shared.get_vm_status r.vm_name >>= λ status. pure (is_stopped status))
      else pure true

  step_destroy_differential_disk : DecontaminationRunner → Step W
  step_destroy_differential_disk r =
      shared.delete_file (host.join "snapshots" (format (r.bunker_id ∷ "_system.vhdx" ∷ [])))

  step_clean_network_config : DecontaminationRunner → Step W
  step_clean_network_config r =
      shared.remove_switch (format ("lumenos_" ∷ r.bunker_id ∷ "_switch" ∷ []))

  step_remove_snapshots : DecontaminationRunner → Step W
  step_remove_snapshots r =
      if is_nonempty r.vm_name then shared.remove_vm r.vm_name true else pure true

  -- `self._secrets.get_secret("guest_password") or ""`
  get_guest_password : W → Outcome String × W
  get_guest_password w =
      let (secret, w') = host.get_secret "guest_password" w in (ok (get_or secret ""), w')

  -- Reading the guest's event log only feeds the log; what it raises is caught.
  read_findings : DecontaminationRunner → W → Outcome (Unit {0}) × W
  unfolding get_guest_password
  read_findings r =
      try_except
        (do
          password ← get_guest_password
          events ← shared.read_guest_event_log r.vm_name r.guest_username password "Security" 50
          pure tt)
        (λ e. pure tt)

  step_verify_host_integrity : DecontaminationRunner → Step W
  unfolding read_findings
  step_verify_host_integrity r = do
    result ← shared.verify_host_integrity
    seen ←
        if is_nonempty r.vm_name && is_nonempty r.guest_username then read_findings r else pure tt
    pure result.success

  -- The table of `run`, in its order; two of its steps only return True.
  unfoldable pub decontamination_steps : DecontaminationRunner → List (String × Step W)
  unfolding step_terminate_processes step_destroy_differential_disk step_clean_network_config
      step_remove_snapshots step_verify_host_integrity is_stopped
  decontamination_steps r =
      ("terminate_processes", step_terminate_processes r)
      ∷ ("purge_memory", pure true)
      ∷ ("destroy_differential_disk", step_destroy_differential_disk r)
      ∷ ("clean_network_config", step_clean_network_config r)
      ∷ ("remove_snapshots", step_remove_snapshots r)
      ∷ ("verify_host_integrity", step_verify_host_integrity r)
      ∷ ("generate_report", pure true)
      ∷ []

  digests_of : List String → Dict String
  digests_of [] = []
  digests_of (c ∷ cs) = (c, component_baseline_digest host c) ∷ digests_of cs

  -- `_get_current_component_hashes`
  unfoldable pub current_component_hashes : Dict String
  unfolding digests_of component_baseline_digest
  current_component_hashes = digests_of critical_components

  -- `f"{bunker_id}{start_time}{end_time}{success}"`
  abbrev pub signed_text : DecontaminationReport → String
  signed_text report = format (
      report.bunker_id
      ∷ host.show_time report.start_time
      ∷ host.show_time report.end_time
      ∷ (if report.success then "True" else "False")
      ∷ [])

  -- `_sign_report`
  unfoldable pub sign_report : String → DecontaminationReport → Outcome String
  sign_report key report = host.hmac_sha256 key (signed_text report)

  -- The report of `run` before it is signed, from what the steps filed and the verifier found.
  abbrev pub unsigned_report :
      DecontaminationRunner → ℕ → ℕ → Progress → Bool × List IntegrityCheck → DecontaminationReport
  unsigned_report r start end p (all_passed, checks) = record {
    bunker_id = r.bunker_id;
    start_time = start;
    end_time = end;
    steps_completed = p.completed;
    steps_failed = p.failed;
    integrity_checks = checks;
    warnings = p.warnings;
    success = is_empty p.failed && all_passed;
    signature = "";
  }

  -- The end of `run`: the report is signed and written. Signing raises outside every `try`.
  unfoldable pub finish :
      DecontaminationReport
      → Outcome String
      → IntegrityVerifier × W
      → Outcome DecontaminationReport × (IntegrityVerifier × W)
  finish report (err e) (v, w) = (err e, (v, w))
  finish report (ok s) (v, w) =
      let signed = record report { signature = s } in (ok signed, (v, host.save_report signed w))

  -- `run`. One clock reading stands for those that the integrity checks make.
  unfoldable pub run :
      DecontaminationRunner
      → IntegrityVerifier
      → W
      → Outcome DecontaminationReport × (IntegrityVerifier × W)
  unfolding run_steps finish
  run r v w₀ =
      let (start, w₁) = host.now w₀ in
      let (_, w₂) = host.now w₁ in
      let (p, w₃) = run_steps (decontamination_steps r) no_progress w₂ in
      let (checked_at, w₄) = host.now w₃ in
      let (found, v') = verify_all checked_at current_component_hashes v in
      let (end, w₅) = host.now w₄ in
      let report = unsigned_report r start end p found in
      finish report (sign_report r.signing_key report) (v', w₅)
