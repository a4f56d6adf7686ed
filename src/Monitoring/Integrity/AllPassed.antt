-- ===== src/Monitoring/Integrity/AllPassed.antt =====
-- What a passed `IntegrityVerifier.verify_all` says, and what `set_baseline` does to it.
use lumenos_hiper_v.Prelude.{
  ℕ, Bool, true, String, List, [], ◌∷◌, Option, none, some, ◌≡◌, ◌≢◌, refl, Dict, lookup, All,
  All-append, arith, eq_iff, get_or, str_eq, not, ◌&&◌, ap, sym, ◌∙◌, ◌++◌,
}
use lumenos_hiper_v.Types.{IntegrityCheck}
use lumenos_hiper_v.Monitoring.Integrity.{
  IntegrityVerifier, check_component, verify_component, verify_present, verify_each, verify_all,
  critical_components,
}

-- A passed check: the baseline that the verifier has for its component is not empty, and it is the
-- current hash of the component.
abbrev pub Matches : Dict String → IntegrityVerifier → IntegrityCheck → Type 0
Matches hashes v c =
    (c.passed ≡ true)
    × (lookup c.component v.baseline_hashes ≡ some c.actual_hash)
    × (lookup c.component hashes ≡ some c.actual_hash)
    × (c.actual_hash ≢ "")

-- A component whose current hash, if it has one, is its baseline.
abbrev pub Unchanged : Dict String → IntegrityVerifier → String → Type 0
Unchanged hashes v component =
    (hash : String)
    → lookup component hashes ≡ some hash
    → lookup component v.baseline_hashes ≡ some hash

baseline-found :
    (o : Option String) (hash : String)
    → (str_eq (get_or o "") hash && not (str_eq (get_or o "") "")) ≡ true
    → (o ≡ some hash) × (hash ≢ "")
baseline-found none hash p = absurd (ground (arith, p, eq_iff "" ""))
baseline-found (some text) hash p = ground (arith, p, eq_iff text hash, eq_iff text "")

module _ (now : ℕ) (hashes : Dict String) (v : IntegrityVerifier) where
  check_component-Matches :
      (u : IntegrityVerifier) (component hash : String)
      → u.baseline_hashes ≡ v.baseline_hashes
      → lookup component hashes ≡ some hash
      → (check_component now component hash u).passed ≡ true
      → Matches hashes v (check_component now component hash u)
  unfolding check_component
  check_component-Matches u component hash same current passed =
      let found = baseline-found (lookup component u.baseline_hashes) hash passed in
      (passed, ap (lookup component) (sym same) ∙ found.0, current, found.1)

  abbrev Acc : Type 0
  Acc = (Bool × List IntegrityCheck) × IntegrityVerifier

  -- What a part of the loop adds: the baselines stay, and if all passed at its end, all had passed
  -- before it, the checks match if they did before, and the components that it went through are
  -- unchanged.
  pub record Sound (components : List String) (before after : Acc) : Type 0 where
    pub baselines : after.1.baseline_hashes ≡ before.1.baseline_hashes
    pub passed : after.0.0 ≡ true → before.0.0 ≡ true
    pub checks :
        after.0.0 ≡ true → All (Matches hashes v) before.0.1 → All (Matches hashes v) after.0.1
    pub unchanged : after.0.0 ≡ true → All (Unchanged hashes v) components

  verify_present-Sound :
      (c : String) (h : Option String) (acc : Acc)
      → lookup c hashes ≡ h
      → acc.1.baseline_hashes ≡ v.baseline_hashes
      → Sound (c ∷ []) acc (verify_present now c h acc)
  unfolding verify_present verify_component check_component
  verify_present-Sound c none acc current same = record {
    baselines = refl;
    passed = λ e. e;
    checks = λ e a. a;
    unchanged = λ e. ((λ hash q. absurd (ground (arith, sym current ∙ q))), tt);
  }
  verify_present-Sound c (some hash) ((p, rs), u) current same =
      let check = check_component now c hash u in
      let both : ((p && check.passed) ≡ true) → (p ≡ true) × (check.passed ≡ true) =
        λ e. ground (arith, e) in
      let good : (check.passed ≡ true) → Matches hashes v check =
        check_component-Matches u c hash same current in
      record {
        baselines = refl;
        passed = λ e. (both e).0;
        checks = λ e a. All-append (Matches hashes v) rs (check ∷ []) a (good (both e).1, tt);
        unchanged = λ e. ((λ hash' q. (good (both e).1).1 ∙ sym current ∙ q), tt);
      }

  Sound-trans :
      (cs ds : List String) (a b c : Acc) → Sound cs a b → Sound ds b c → Sound (cs ++ ds) a c
  Sound-trans cs ds a b c h k = record {
    baselines = k.baselines ∙ h.baselines;
    passed = λ e. h.passed (k.passed e);
    checks = λ e x. k.checks e (h.checks (k.passed e) x);
    unchanged =
        λ e. All-append (Unchanged hashes v) cs ds (h.unchanged (k.passed e)) (k.unchanged e);
  }

  verify_each-Sound :
      (cs : List String) (acc : Acc)
      → acc.1.baseline_hashes ≡ v.baseline_hashes
      → Sound cs acc (verify_each now hashes cs acc)
  unfolding verify_each
  verify_each-Sound [] acc same = record {
    baselines = refl;
    passed = λ e. e;
    checks = λ e x. x;
    unchanged = λ e. tt;
  }
  verify_each-Sound (c ∷ cs) acc same =
      let first = verify_present-Sound c (lookup c hashes) acc refl same in
      let next = verify_present now c (lookup c hashes) acc in
      Sound-trans (c ∷ []) cs acc next _ first (verify_each-Sound cs next (first.baselines ∙ same))

-- If `verify_all` reports that everything passed, every check that it made is of a component whose
-- current hash is the baseline that the verifier has for it, which is not empty; and every critical
-- component that has a current hash was found to have its baseline.
pub verify_all-Sound :
    (now : ℕ) (hashes : Dict String) (v : IntegrityVerifier)
    → (verify_all now hashes v).0.0 ≡ true
    → All (Matches hashes v) (verify_all now hashes v).0.1
      × All (Unchanged hashes v) critical_components
unfolding verify_all
verify_all-Sound now hashes v h =
    let all = verify_each-Sound now hashes v critical_components ((true, []), v) refl in
    (all.checks h tt, all.unchanged h)
