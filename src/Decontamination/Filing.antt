-- ===== src/Decontamination/Filing.antt =====
-- What the steps of `DecontaminationRunner.run` file, whatever the shared backend does.
use lumenos_hiper_v.Prelude.{
  ℕ, Bool, true, false, String, List, [], ◌∷◌, ◌++◌, ◌≡◌, ◌≢◌, ◌⊎◌, inl, inr, refl, sym, ap, ◌∙◌,
  All, Ensures-ok, Ensures-err, Ensures-weaken, arith, Outcome, ok, err, Ensures, Dict,
}
use mathlib.Core.Path.{subst}
use mathlib.Core.List.{append-nil, append_assoc}
use lumenos_hiper_v.Types.{DecontaminationReport}
use lumenos_hiper_v.Hypervisor.{HypervisorBackend}
use lumenos_hiper_v.Host.{Host}
use lumenos_hiper_v.Monitoring.Integrity.{IntegrityVerifier, verify_all, critical_components}
use lumenos_hiper_v.Monitoring.Integrity.AllPassed.{Matches, Unchanged, verify_all-Sound}
use lumenos_hiper_v.Decontamination.{
  DecontaminationRunner, Progress, Step, is_empty, no_progress, file_step, run_steps,
  decontamination_steps, run, finish, unsigned_report, current_component_hashes, sign_report,
}

-- The names of a table of steps.
abbrev pub names : {W : Type 0} → List (String × Step W) → List String
names [] = []
names ((name, step) ∷ steps) = name ∷ names steps

-- Each name goes to one of the two lists, and both keep the order.
pub data Dealt : List String → List String → List String → Type 0 where
  none_left : Dealt [] [] []
  to_completed : {n : String} {c f ns : List String} → Dealt c f ns → Dealt (n ∷ c) f (n ∷ ns)
  to_failed : {n : String} {c f ns : List String} → Dealt c f ns → Dealt c (n ∷ f) (n ∷ ns)

-- What the loop over steps of given names has filed more.
abbrev More : List String → Progress → Progress → Type 0
More ns p q =
    (c : List String) × (f : List String) × Dealt c f ns
    × (q.completed ≡ p.completed ++ c)
    × (q.failed ≡ p.failed ++ f)

module _ {W : Type 0} where
  -- Every step of a table is filed once under its name, as completed or as failed.
  run_steps-More :
      (steps : List (String × Step W)) (p : Progress) (w : W)
      → More (names steps) p (run_steps steps p w).0
  unfolding run_steps
  run_steps-More [] p w =
      ([], [], none_left, sym (append-nil p.completed), sym (append-nil p.failed))
  run_steps-More ((name, step) ∷ steps) p w =
      file_more (step w).0 (run_steps-More steps (file_step name (step w).0 p) (step w).1)
    where
      file_more :
          (r : Outcome Bool)
          → More
              (names steps)
              (file_step name r p)
              (run_steps steps (file_step name r p) (step w).1).0
          → More (name ∷ names steps) p (run_steps steps (file_step name r p) (step w).1).0
      file_more (ok true) (c, f, d, e, g) =
          (name ∷ c, f, to_completed d, e ∙ append_assoc p.completed (name ∷ []) c, g)
      file_more (ok false) (c, f, d, e, g) =
          (c, name ∷ f, to_failed d, e, g ∙ append_assoc p.failed (name ∷ []) f)
      file_more (err x) (c, f, d, e, g) =
          (c, name ∷ f, to_failed d, e, g ∙ append_assoc p.failed (name ∷ []) f)

More-Dealt :
    (ns : List String) (q : Progress) → More ns no_progress q → Dealt q.completed q.failed ns
More-Dealt ns q (c, f, d, e, g) =
    subst (λ (xs : List String). Dealt xs q.failed ns) (sym e)
      (subst (λ (ys : List String). Dealt c ys ns) (sym g) d)

not-is_empty-append : (xs : List String) (x : String) → is_empty (xs ++ x ∷ []) ≢ true
not-is_empty-append [] x h = ground arith
not-is_empty-append (y ∷ ys) x h = ground arith

-- A step that leaves no failure had none before it, and was filed as completed.
file_step-completed :
    (name : String) (r : Outcome Bool) (p : Progress)
    → is_empty (file_step name r p).failed ≡ true
    → (is_empty p.failed ≡ true) × ((file_step name r p).completed ≡ p.completed ++ name ∷ [])
file_step-completed name (ok true) p h = (h, refl)
file_step-completed name (ok false) p h = absurd (not-is_empty-append p.failed name h)
file_step-completed name (err e) p h = absurd (not-is_empty-append p.failed name h)

module _ {W : Type 0} where
  -- A failure is never taken back; with none, the completed steps are those of the table.
  run_steps-completed :
      (steps : List (String × Step W)) (p : Progress) (w : W)
      → is_empty (run_steps steps p w).0.failed ≡ true
      → (is_empty p.failed ≡ true)
        × ((run_steps steps p w).0.completed ≡ p.completed ++ names steps)
  unfolding run_steps
  run_steps-completed [] p w h = (h, sym (append-nil p.completed))
  run_steps-completed ((name, step) ∷ steps) p w h =
      let rest = run_steps-completed steps (file_step name (step w).0 p) (step w).1 h in
      let this = file_step-completed name (step w).0 p rest.0 in
      (
        this.0,
        rest.1
            ∙ ap (λ xs. xs ++ names steps) this.1
            ∙ append_assoc p.completed (name ∷ []) (names steps),
      )

-- To split on a Boolean whose truth has a consequence.
success-cases : {P : Type 0} (success : Bool) → (success ≡ true → P) → (success ≡ false) ⊎ P
success-cases true f = inr (f refl)
success-cases false f = inl refl

-- The steps of `run`, by name.
abbrev pub step_names : List String
step_names =
    "terminate_processes" ∷ "purge_memory" ∷ "destroy_differential_disk" ∷ "clean_network_config"
    ∷ "remove_snapshots" ∷ "verify_host_integrity" ∷ "generate_report" ∷ []

-- What a successful report says, for the current hashes of the components and the verifier.
pub record Clean (hashes : Dict String) (v : IntegrityVerifier) (report : DecontaminationReport)
    : Type 0 where
  pub all_steps : report.steps_completed ≡ step_names
  pub none_failed : is_empty report.steps_failed ≡ true
  pub all_match : All (Matches hashes v) report.integrity_checks
  pub all_unchanged : All (Unchanged hashes v) critical_components

module _ {W : Type 0} (host : Host W) (shared : HypervisorBackend W) where
  finish-post :
      (Q : DecontaminationReport → Type 0) (report : DecontaminationReport) (s : Outcome String)
      (v : IntegrityVerifier) (w : W)
      → ((signature : String) → s ≡ ok signature → Q (record report { signature = signature }))
      → Ensures (λ r _. Q r) (λ e _. s ≡ err e) (finish host shared report s (v, w))
  unfolding finish
  finish-post Q report (ok signature) v w h = Ensures-ok (h signature refl)
  finish-post Q report (err e) v w h = Ensures-err refl

  -- A report that files every step once under its name, signed with the given key; one of success is
  -- clean.
  pub record Filed (key : String) (v : IntegrityVerifier) (report : DecontaminationReport)
      : Type 0 where
    pub dealt : Dealt report.steps_completed report.steps_failed step_names
    pub signed : sign_report host shared key report ≡ ok report.signature
    pub result : (report.success ≡ false) ⊎ Clean (current_component_hashes host shared) v report

  success-Clean :
      (r : DecontaminationRunner) (v : IntegrityVerifier) (w : W) (start end checked_at : ℕ)
      (signature : String)
      → let p = (run_steps (decontamination_steps host shared r) no_progress w).0 in
        let found = (verify_all checked_at (current_component_hashes host shared) v).0 in
        let report = record (unsigned_report host shared r start end p found) {
          signature = signature;
        } in
        report.success ≡ true → Clean (current_component_hashes host shared) v report
  unfolding decontamination_steps
  success-Clean r v w start end checked_at signature h =
      let table = decontamination_steps host shared r in
      let hashes = current_component_hashes host shared in
      let clean : is_empty (run_steps table no_progress w).0.failed ≡ true = ground (arith, h) in
      let passed : (verify_all checked_at hashes v).0.0 ≡ true = ground (arith, h) in
      record {
        all_steps = (run_steps-completed table no_progress w clean).1;
        none_failed = clean;
        all_match = (verify_all-Sound checked_at hashes v passed).0;
        all_unchanged = (verify_all-Sound checked_at hashes v passed).1;
      }

  pub run_outcome :
      (r : DecontaminationRunner) (v : IntegrityVerifier) (w : W)
      → Ensures
          (λ report _. Filed r.signing_key v report)
          (λ e _. (text : String) × (host.hmac_sha256 r.signing_key text ≡ err e))
          (run host shared r v w)
  unfolding run decontamination_steps sign_report
  run_outcome r v w =
      let (start, w₁) = host.now w in
      let w₂ = (host.now w₁).1 in
      let table = decontamination_steps host shared r in
      let (p, w₃) = run_steps table no_progress w₂ in
      let (checked_at, w₄) = host.now w₃ in
      let hashes = current_component_hashes host shared in
      let (found, v') = verify_all checked_at hashes v in
      let (end, w₅) = host.now w₄ in
      Ensures-weaken
        (finish-post (Filed r.signing_key v) (unsigned_report host shared r start end p found) _ v'
          w₅
          λ signature e. record {
            dealt = More-Dealt (names table) p (run_steps-More table no_progress w₂);
            signed = e;
            result = success-cases _ (success-Clean r v w₂ start end checked_at signature);
          })
        (λ _ _ q. q) λ e _ h. (_, h)
