-- ===== src/Tests/Controls.antt =====
-- The theorem on a compliance report, at a configuration that switches the memory encryption off.
use lumenos_hiper_v.Prelude.{
  ℕ, ◌+◌, Bool, true, false, String, none, some, [], ◌∷◌, ◌++◌, ◌≡◌, ◌↔◌, refl, All, Dict, length,
}
use lumenos_hiper_v.Compliance.{query, new_compliance_report, evaluate, count, pass, fail}
use lumenos_hiper_v.Compliance.Counts.{Met, eval_entry, evaluate_outcome}

abbrev config : Dict Bool
config = ("enable_network_isolation", true) ∷ ("enable_memory_encryption", false) ∷ []

abbrev percent : ℕ → ℕ → String
percent passed total = "80%"

evaluate_outcome_example :
    let state = new_compliance_report "2026-01-01T00:00:00" none in
    let (report, after) = evaluate percent "2026-01-01T00:00:01" config state in
    (report.passed + report.failed ≡ length state.controls)
    × (report.total_controls ≡ length state.controls)
    × (report.skipped ≡ 0)
    × ((report.failed ≡ 0) ↔ All (λ c. Met config c.control_id) state.controls)
    × (after.controls ≡ state.controls)
    × (query (some "system") (some "compliance_eval") after.audit
        ≡ query (some "system") (some "compliance_eval") state.audit
          ++ eval_entry "2026-01-01T00:00:01" report ∷ [])
evaluate_outcome_example =
    evaluate_outcome percent "2026-01-01T00:00:01" config
      (new_compliance_report "2026-01-01T00:00:00" none)

-- Four of the five controls pass.
four_pass_test :
    let report = (evaluate percent "t" config (new_compliance_report "t" none)).0 in
    (report.passed ≡ 4) × (report.failed ≡ 1)
unfolding evaluate lumenos_hiper_v.Prelude.lookup lumenos_hiper_v.Compliance.status_of
four_pass_test = (refl, refl)
