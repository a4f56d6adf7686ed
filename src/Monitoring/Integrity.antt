-- ===== src/Monitoring/Integrity.antt =====
-- `class IntegrityVerifier` of lumenos_sandbox/monitoring.py. A clock reading is passed in where the
-- source calls `datetime.now()`.
pub mod AllPassed
use lumenos_hiper_v.Prelude.{
  ℕ, ◌-◌, Bool, true, ◌&&◌, not, String, Option, none, some, List, [], ◌∷◌, ◌++◌, Dict, lookup,
  insert, get_or, str_eq, length, count_if, if◌then◌else◌,
}
use lumenos_hiper_v.Types.{IntegrityCheck}

-- `CRITICAL_COMPONENTS`
abbrev pub critical_components : List String
critical_components =
    "hypervisor_config" ∷ "base_image" ∷ "security_policies" ∷ "network_rules" ∷ "process_whitelist"
    ∷ "memory_layout" ∷ []

pub record IntegrityVerifier : Type 0 where
  pub baseline_hashes : Dict String
  pub verification_history : List IntegrityCheck

-- `IntegrityVerifier()`
abbrev pub new_verifier : IntegrityVerifier
new_verifier = record { baseline_hashes = []; verification_history = [] }

unfoldable pub set_baseline : String → String → IntegrityVerifier → IntegrityVerifier
set_baseline component hash_value v = record v {
  baseline_hashes = insert component hash_value v.baseline_hashes;
}

-- The check that `verify_component` makes, before it is filed.
unfoldable pub check_component : ℕ → String → String → IntegrityVerifier → IntegrityCheck
check_component now component current_hash v =
    let expected = get_or (lookup component v.baseline_hashes) "" in
    let passed = str_eq expected current_hash && not (str_eq expected "") in
    record {
      component = component;
      expected_hash = expected;
      actual_hash = current_hash;
      passed = passed;
      timestamp = now;
      details = if passed then "Hash coincide" else "HASH NO COINCIDE - POSIBLE COMPROMISO";
    }

unfoldable pub verify_component :
    ℕ → String → String → IntegrityVerifier → IntegrityCheck × IntegrityVerifier
unfolding check_component
verify_component now component current_hash v =
    let check = check_component now component current_hash v in
    (check, record v { verification_history = v.verification_history ++ check ∷ [] })

-- One round of the loop of `verify_all`, on what it has found so far: a component with no current
-- hash is passed over.
unfoldable pub verify_present :
    ℕ
    → String
    → Option String
    → (Bool × List IntegrityCheck) × IntegrityVerifier
    → (Bool × List IntegrityCheck) × IntegrityVerifier
unfolding verify_component
verify_present now component none acc = acc
verify_present now component (some current_hash) ((all_passed, results), v) =
    let (check, v') = verify_component now component current_hash v in
    ((all_passed && check.passed, results ++ check ∷ []), v')

unfoldable pub verify_each :
    ℕ
    → Dict String
    → List String
    → (Bool × List IntegrityCheck) × IntegrityVerifier
    → (Bool × List IntegrityCheck) × IntegrityVerifier
unfolding verify_present
verify_each now hashes [] acc = acc
verify_each now hashes (c ∷ cs) acc =
    verify_each now hashes cs (verify_present now c (lookup c hashes) acc)

unfoldable pub verify_all :
    ℕ → Dict String → IntegrityVerifier → (Bool × List IntegrityCheck) × IntegrityVerifier
unfolding verify_each
verify_all now hashes v = verify_each now hashes critical_components ((true, []), v)

pub record VerificationReport : Type 0 where
  pub total_checks : ℕ
  pub passed : ℕ
  pub failed : ℕ

-- The pass rate is `passed / total_checks`, a float, and is left out.
unfoldable pub get_verification_report : IntegrityVerifier → VerificationReport
get_verification_report v =
    let total = length v.verification_history in
    let passed = count_if (λ c. c.passed) v.verification_history in
    record { total_checks = total; passed = passed; failed = total - passed }
