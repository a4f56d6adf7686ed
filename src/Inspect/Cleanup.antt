-- ===== src/Inspect/Cleanup.antt =====
-- What `analyze_sync` of lumenos_sandbox/inspect.py promises of every cycle, also of one that fails.
use mathlib.Core.Path.{subst}
use text.Mathlib.TextLemmas.{cons≢nil, cons-append}
use lumenos_hiper_v.Prelude.{
  sym, str_eq, eq_iff, invalid_state_transition, security_violation, bunker_not_ready, system_error,
  analysis_deadline_exceeded, value_error, file_not_found, sample_too_large,
  guest_telemetry_unavailable, runtime_error, key_error, other_error, ℕ, true, false, ◌||◌, String,
  Option, none, some, List, [], ◌∷◌, ◌≡◌, ◌≢◌, ◌∙◌, ◌⊎◌, inl, inr, refl, arith, All, Exc, ExcKind,
  is_deadline, Outcome, ok, err, Ensures, Ensures-ok, Ensures-err, Bool-cases, is_given,
  is_nonempty, format,
}
use Prim.Native.String
use lumenos_hiper_v.Host.{Env}
use lumenos_hiper_v.Bunker.{Bunker}
use lumenos_hiper_v.Inspect.{Ioc, medium_severity, Verdict, clean, verdict_from_iocs}
use lumenos_hiper_v.Inspect.Verdicts.{Meaning, Severe, verdict_from_iocs-Meaning}
use lumenos_hiper_v.Inspect.Sample.{Hashed}
use lumenos_hiper_v.Inspect.Disposal.{Disposal, decontaminate_if}
use lumenos_hiper_v.Inspect.Disposed.{Disposed, decontaminate_outcome}
use lumenos_hiper_v.Inspect.Report.{
  exc_name, join, sorted_set, build_inspect_report, telemetry_error,
}
use lumenos_hiper_v.Inspect.Cycle.{
  Request, is_file_not_found, run_cycle, unavailable, judged, concluded, analyze_hashed,
}

is_nonempty-append : (s t : String) → is_nonempty s ≡ true → is_nonempty (String.◌++◌ s t) ≡ true
is_nonempty-append String.[] t h = ground (arith, h)
is_nonempty-append (String.◌∷◌ c s) t h =
    let whole = String.◌++◌ (String.◌∷◌ c s) t in
    elim (Bool-cases (str_eq whole "")) [
      | inl empty ↦ absurd (cons≢nil (sym (cons-append c s t) ∙ (eq_iff whole "").0 empty))
      | inr full ↦ rw full refl
    ]

exc_name-nonempty : (k : ExcKind) → is_nonempty (exc_name k) ≡ true
exc_name-nonempty invalid_state_transition = refl
exc_name-nonempty security_violation = refl
exc_name-nonempty bunker_not_ready = refl
exc_name-nonempty system_error = refl
exc_name-nonempty analysis_deadline_exceeded = refl
exc_name-nonempty value_error = refl
exc_name-nonempty file_not_found = refl
exc_name-nonempty sample_too_large = refl
exc_name-nonempty guest_telemetry_unavailable = refl
exc_name-nonempty runtime_error = refl
exc_name-nonempty key_error = refl
exc_name-nonempty other_error = refl

exc_name-given :
    (k : ExcKind) (message : String)
    → is_given (some (format (exc_name k ∷ ": " ∷ message ∷ []))) ≡ true
exc_name-given k message = is_nonempty-append (exc_name k) _ (exc_name-nonempty k)

telemetry_error-absent :
    (names : List String) → is_given (telemetry_error names) ≡ false → names ≡ []
unfolding telemetry_error
telemetry_error-absent [] h = refl
telemetry_error-absent (c ∷ cs) h =
    let given =
      is_nonempty-append "guest telemetry unavailable, no verdict can be supported: "
        (format (join (sorted_set (c ∷ cs)) ∷ [])) refl in
    ground (arith, h, given)

clean-or-not : (v : Verdict) → (v ≡ clean) ⊎ (v ≢ clean)
clean-or-not v = ground arith

-- A clean verdict has no error.
clean-Meaning :
    (iocs : List Ioc) (error : Option String)
    → verdict_from_iocs iocs error ≡ clean
    → Meaning iocs error clean
clean-Meaning iocs error h =
    subst (λ v. Meaning iocs error v) h (verdict_from_iocs-Meaning iocs error)

module _ {W : Type 0} (env : Env W) (request : Request W) where
  -- There is no bunker, or it was shut down: it is not ACTIVE and its monitor is off.
  abbrev pub Gone : Option Bunker × W → Type 0
  Gone (none, w) = Unit
  Gone (some b, w) = Disposed env request.delete_state (b, w)

  decontaminate_if-Gone :
      (b : Option Bunker) (w : W) → Gone (decontaminate_if env request.delete_state b w).1
  unfolding decontaminate_if
  decontaminate_if-Gone none w = tt
  decontaminate_if-Gone (some b) w = (decontaminate_outcome env request.delete_state b w).0

  -- The exceptions that `analyze_sync` lets through.
  abbrev pub PassedOn : Exc → Type 0
  PassedOn e = (is_file_not_found e.kind || is_deadline e.kind) ≡ true

  -- The clock does not change what has become of the bunker.
  Gone-later : (b : Option Bunker) (w w' : W) → Gone (b, w) → Gone (b, w')
  Gone-later none w w' h = tt
  Gone-later (some b) w w' h = record { not_active = h.not_active; unmonitored = h.unmonitored }

  concluded-Gone :
      (start : ℕ) (hashed : Hashed) (decon : Disposal) (b : Option Bunker) (w : W)
      (r : Outcome (List Ioc))
      → Gone (b, w)
      → Ensures
          (λ _. Gone)
          (λ e t. PassedOn e × Gone t)
          (concluded env request start hashed decon (judged env request b r) (b, w))
  concluded-Gone start hashed decon b w (ok iocs) h = Ensures-ok (Gone-later b w _ h)
  concluded-Gone start hashed decon b w (err e) h =
      elim (Bool-cases (is_file_not_found e.kind || is_deadline e.kind)) [
        | inl passed ↦ rw passed (Ensures-err (passed, h))
        | inr kept ↦ rw kept (Ensures-ok (Gone-later b w _ h))
      ]

  -- Once its sample is hashed, a cycle ends with its bunker, if it made one, shut down, whether it
  -- returns a report or raises; and it raises nothing but FileNotFoundError and a spent deadline.
  pub analyze_hashed_outcome :
      (start : ℕ) (deadline : Option ℕ) (hashed : Hashed) (w : W)
      → Ensures
          (λ _. Gone)
          (λ e t. PassedOn e × Gone t)
          (analyze_hashed env request start deadline hashed w)
  unfolding analyze_hashed
  analyze_hashed_outcome start deadline hashed w =
      let (r, (b, w₁)) = run_cycle env request deadline w in
      let (decon, (b', w₂)) = decontaminate_if env request.delete_state b w₁ in
      concluded-Gone start hashed decon b' w₂ r (decontaminate_if-Gone b w₁)

  -- What supports a report that calls the sample clean: the cycle ended without an exception, no
  -- capability of the guest was out of reach, and no indicator is medium or worse.
  abbrev pub Supported : Outcome (List Ioc) → Verdict → Option Bunker → Type 0
  Supported r v b =
      (v ≢ clean)
      ⊎ ((iocs : List Ioc) × (r ≡ ok iocs)
          × (unavailable env request b ≡ [])
          × All (λ i. ¬ Severe i) iocs
          × All (λ i. i.severity ≢ medium_severity) iocs)

  ended-Supported :
      (iocs : List Ioc) (b : Option Bunker) (v : Verdict)
      → verdict_from_iocs iocs (telemetry_error (unavailable env request b)) ≡ v
      → Supported (ok iocs) v b
  ended-Supported iocs b v e = elim (clean-or-not v) [
    | inl is_clean ↦
        let m = clean-Meaning iocs (telemetry_error (unavailable env request b)) (e ∙ is_clean) in
        inr (iocs, refl, telemetry_error-absent (unavailable env request b) m.0, m.1, m.2)
    | inr not_clean ↦ inl not_clean
  ]

  failed-Supported :
      (e : Exc) (b : Option Bunker)
      → Supported
          (err e)
          (verdict_from_iocs [] (some (format (exc_name e.kind ∷ ": " ∷ e.message ∷ []))))
          b
  unfolding verdict_from_iocs
  failed-Supported e b = rw (exc_name-given e.kind e.message) (inl (λ h. ground (arith, h)))

  concluded-Supported :
      (start : ℕ) (hashed : Hashed) (decon : Disposal) (b : Option Bunker) (w : W)
      (r : Outcome (List Ioc))
      → Ensures
          (λ report t. Supported r report.verdict t.0)
          (λ _ _. Unit)
          (concluded env request start hashed decon (judged env request b r) (b, w))
  unfolding build_inspect_report
  concluded-Supported start hashed decon b w (ok iocs) = Ensures-ok (ended-Supported iocs b _ refl)
  concluded-Supported start hashed decon b w (err e) =
      elim (Bool-cases (is_file_not_found e.kind || is_deadline e.kind)) [
        | inl passed ↦ rw passed (Ensures-err tt)
        | inr kept ↦ rw kept (Ensures-ok (failed-Supported e b))
      ]

  -- Where a cycle reports `clean`, its steps ended without an exception, no capability of the guest
  -- was out of reach, and no indicator that it collected is medium, high or critical.
  pub analyze_hashed-Supported :
      (start : ℕ) (deadline : Option ℕ) (hashed : Hashed) (w : W)
      → Ensures
          (λ report t. Supported (run_cycle env request deadline w).0 report.verdict t.0)
          (λ _ _. Unit)
          (analyze_hashed env request start deadline hashed w)
  unfolding analyze_hashed
  analyze_hashed-Supported start deadline hashed w =
      let (r, (b, w₁)) = run_cycle env request deadline w in
      let (decon, (b', w₂)) = decontaminate_if env request.delete_state b w₁ in
      concluded-Supported start hashed decon b' w₂ r
