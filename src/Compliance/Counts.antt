-- ===== src/Compliance/Counts.antt =====
-- What a compliance report of lumenos_sandbox/compliance.py counts, and what it leaves in the audit log.
use lumenos_hiper_v.Prelude.{
  Bool, true, false, String, Option, none, some, List, [], ◌∷◌, ◌++◌, ◌≡◌, ◌≢◌, ◌↔◌, ◌⊎◌, inl, inr,
  refl, ap, ◌∙◌, All, str_eq, eq_iff, arith, Dict, lookup, keep_if, length, map, ℕ, ◌+◌,
}
use lumenos_hiper_v.Compliance.{
  pass, fail, skip, Control, AuditEntry, AuditLog, number, query, status_of, flag, evaluated, count,
  evaluate, Report, ComplianceReport,
}

-- What the configuration has to say for a control to pass: the network isolation has to be switched
-- on, and three more checks must not be switched off.
abbrev pub Met : Dict Bool → String → Type 0
Met config control_id =
    ((control_id ≡ "SC-01") → lookup "enable_network_isolation" config ≡ some true)
    × ((control_id ≡ "SC-03") → lookup "enable_process_monitoring" config ≢ some false)
    × ((control_id ≡ "SC-04") → lookup "enable_memory_encryption" config ≢ some false)
    × ((control_id ≡ "SC-05") → lookup "enable_hypervisor_monitoring" config ≢ some false)

flag-true : (o : Option Bool) → (flag o true ≡ true) ↔ (o ≢ some false)
flag-true none = ground arith
flag-true (some true) = ground arith
flag-true (some false) = ground arith

flag-false : (o : Option Bool) → (flag o false ≡ true) ↔ (o ≡ some true)
flag-false none = ground arith
flag-false (some true) = ground arith
flag-false (some false) = ground arith

status_of-total :
    (config : Dict Bool) (control_id : String)
    → (status_of config control_id ≡ pass) ⊎ (status_of config control_id ≡ fail)
unfolding status_of
status_of-total config control_id = ground arith

apart : (a b : String) → str_eq a b ≡ false → a ≢ b
apart a b h = ground (arith, h, eq_iff a b)

status_of-Met :
    (config : Dict Bool) (control_id : String)
    → (status_of config control_id ≡ pass) ↔ Met config control_id
unfolding status_of
status_of-Met config control_id = ground (
  arith,
  eq_iff control_id "SC-01",
  eq_iff control_id "SC-03",
  eq_iff control_id "SC-04",
  eq_iff control_id "SC-05",
  apart "SC-01" "SC-03" refl,
  apart "SC-01" "SC-04" refl,
  apart "SC-01" "SC-05" refl,
  apart "SC-03" "SC-04" refl,
  apart "SC-03" "SC-05" refl,
  apart "SC-04" "SC-05" refl,
  flag-false (lookup "enable_network_isolation" config),
  flag-true (lookup "enable_process_monitoring" config),
  flag-true (lookup "enable_memory_encryption" config),
  flag-true (lookup "enable_hypervisor_monitoring" config),
)

evaluated-Counts :
    (now : String) (config : Dict Bool) (cs : List Control)
    → let results : List Control = map (evaluated now config) cs in
      (count pass results + count fail results ≡ length results)
      × (count skip results ≡ 0)
      × (length results ≡ length cs)
evaluated-Counts now config [] = (refl, refl, refl)
evaluated-Counts now config (c ∷ cs) =
    let rest = evaluated-Counts now config cs in
    elim (status_of-total config c.control_id) [
      | inl e ↦ ground (arith, e, rest)
      | inr e ↦ ground (arith, e, rest)
    ]

failed-Met :
    (now : String) (config : Dict Bool) (cs : List Control)
    → (count fail (map (evaluated now config) cs) ≡ 0) ↔ All (λ c. Met config c.control_id) cs
failed-Met now config [] = ((λ h. tt), (λ h. refl))
failed-Met now config (c ∷ cs) =
    let rest = failed-Met now config cs in
    let met = status_of-Met config c.control_id in
    elim (status_of-total config c.control_id) [
      | inl e ↦ ground (arith, e, rest, met)
      | inr e ↦ ground (arith, e, rest, met)
    ]

keep_if-snoc :
    (p : AuditEntry → Bool) (xs : AuditLog) (x : AuditEntry)
    → p x ≡ true
    → keep_if p (xs ++ x ∷ []) ≡ keep_if p xs ++ x ∷ []
keep_if-snoc p [] x h = ground (arith, h)
keep_if-snoc p (y ∷ xs) x h = ground (arith, keep_if-snoc p xs x h)

-- The entry that an evaluation leaves in the log.
abbrev pub eval_entry : String → Report → AuditEntry
eval_entry now report = record {
  timestamp = now;
  actor = "system";
  action = "compliance_eval";
  target = "all_controls";
  details = ("passed", number report.passed) ∷ ("total", number report.total_controls) ∷ [];
}

-- A query for the evaluations, of a log at whose end one more entry stands.
abbrev evaluations : AuditLog → AuditLog
evaluations entries = query (some "system") (some "compliance_eval") entries

query-snoc :
    (entries : AuditLog) (e : AuditEntry)
    → e.actor ≡ "system"
    → e.action ≡ "compliance_eval"
    → evaluations (entries ++ e ∷ []) ≡ evaluations entries ++ e ∷ []
unfolding query
query-snoc entries e actor action =
    let by_actor =
      keep_if-snoc (λ x. str_eq x.actor "system") entries e ((eq_iff e.actor "system").1 actor) in
    let of_actor = keep_if (λ x. str_eq x.actor "system") entries in
    ap (keep_if (λ x. str_eq x.action "compliance_eval")) by_actor
    ∙ keep_if-snoc (λ x. str_eq x.action "compliance_eval") of_actor e
        ((eq_iff e.action "compliance_eval").1 action)

-- A report counts every control, each as passed or as failed and none as skipped. It counts none as
-- failed exactly if the configuration has the network isolation on and none of the three other checks
-- off, as far as there are controls for them. The controls stay, and a query of the log for the
-- evaluations finds what it found before and then one entry more, with the numbers of the report.
pub evaluate_outcome :
    (percent : ℕ → ℕ → String) (now : String) (config : Dict Bool) (state : ComplianceReport)
    → let (report, after) = evaluate percent now config state in
      (report.passed + report.failed ≡ length state.controls)
      × (report.total_controls ≡ length state.controls)
      × (report.skipped ≡ 0)
      × ((report.failed ≡ 0) ↔ All (λ c. Met config c.control_id) state.controls)
      × (after.controls ≡ state.controls)
      × (query (some "system") (some "compliance_eval") after.audit
          ≡ query (some "system") (some "compliance_eval") state.audit
            ++ eval_entry now report ∷ [])
unfolding evaluate
evaluate_outcome percent now config state =
    let counts = evaluated-Counts now config state.controls in
    let results : List Control = map (evaluated now config) state.controls in
    (
      counts.0 ∙ counts.2,
      counts.2,
      counts.1,
      failed-Met now config state.controls,
      refl,
      query-snoc state.audit _ refl refl,
    )
