-- ===== src/Inspect/Escapes.antt =====
-- What the monitor saw in a cycle reaches the verdict: collected indicators keep every severity.
use lumenos_hiper_v.Prelude.{
  ℕ, Bool, true, false, ◌||◌, String, Option, List, [], ◌∷◌, ◌++◌, ◌≡◌, ◌⊎◌, inl, inr, refl, any,
  arith, map, is_given, Bool-cases, Outcome,
}
use lumenos_hiper_v.Types.{EscapeAttemptType, SecurityEvent, critical, high}
use lumenos_hiper_v.Monitoring.Monitor.{SecurityMonitor, detect_escape_attempt, log_event}
use lumenos_hiper_v.Inspect.{
  Ioc, malicious, is_severe, same_ioc, severity_eq, add, add_all, attempt_ioc, event_ioc,
  collect_iocs, verdict_from_iocs,
}

severity_eq-eq : (i j : Ioc) → severity_eq i.severity j.severity ≡ true → i.severity ≡ j.severity
severity_eq-eq i j h = ground arith

any-append :
    {A : Type 0} (p : A → Bool) (xs ys : List A) → any p (xs ++ ys) ≡ (any p xs || any p ys)
any-append p [] ys = refl
any-append p (x ∷ xs) ys = ground (arith, any-append p xs ys)

same-is_severe : (i j : Ioc) → same_ioc i j ≡ true → is_severe i ≡ true → is_severe j ≡ true
same-is_severe i j h s =
    let eq : severity_eq i.severity j.severity ≡ true = ground (arith, h) in
    rw (← severity_eq-eq i j eq) s

-- An indicator equal to a severe one is severe.
same-severe :
    (i : Ioc) (iocs : List Ioc)
    → is_severe i ≡ true
    → any (same_ioc i) iocs ≡ true
    → any is_severe iocs ≡ true
same-severe i [] s h = ground (arith, h)
same-severe i (j ∷ iocs) s h = elim (Bool-cases (same_ioc i j)) [
  | inl same ↦ ground (arith, same-is_severe i j same s)
  | inr other ↦ ground (arith, same-severe i iocs s (ground (arith, h, other)))
]

-- Adding never loses a severe indicator.
add-keeps :
    (i : Ioc) (iocs : List Ioc) → any is_severe iocs ≡ true → any is_severe (add i iocs) ≡ true
add-keeps i iocs h = ground (arith, any-append is_severe iocs (i ∷ []), h)

add-severe : (i : Ioc) (iocs : List Ioc) → is_severe i ≡ true → any is_severe (add i iocs) ≡ true
add-severe i iocs h = elim (Bool-cases (any (same_ioc i) iocs)) [
  | inl same ↦ rw same (same-severe i iocs h same)
  | inr other ↦ rw other (ground (arith, any-append is_severe iocs (i ∷ []), h))
]

add_all-keeps :
    (is iocs : List Ioc) → any is_severe iocs ≡ true → any is_severe (add_all is iocs) ≡ true
add_all-keeps [] iocs h = h
add_all-keeps (i ∷ is) iocs h = add_all-keeps is (add i iocs) (add-keeps i iocs h)

add_all-severe :
    (is iocs : List Ioc) → any is_severe is ≡ true → any is_severe (add_all is iocs) ≡ true
add_all-severe [] iocs h = ground (arith, h)
add_all-severe (i ∷ is) iocs h = elim (Bool-cases (is_severe i)) [
  | inl severe ↦ add_all-keeps is (add i iocs) (add-severe i iocs severe)
  | inr mild ↦ add_all-severe is (add i iocs) (ground (arith, h, mild))
]

any-map-append :
    {A : Type 0} (f : A → Ioc) (xs : List A) (x : A)
    → is_severe (f x) ≡ true
    → any is_severe (map f (xs ++ x ∷ [])) ≡ true
any-map-append f [] x h = ground (arith, h)
any-map-append f (y ∷ ys) x h = ground (arith, any-map-append f ys x h)

severe-malicious :
    (iocs : List Ioc) (error : Option String)
    → is_given error ≡ false
    → any is_severe iocs ≡ true
    → verdict_from_iocs iocs error ≡ malicious
unfolding verdict_from_iocs
severe-malicious iocs error absent h = ground (arith, absent, h)

attempt_ioc-severe : (a : EscapeAttemptType) → is_severe (attempt_ioc a) ≡ true
attempt_ioc-severe a = ground arith

-- A cycle without an error in which an escape attempt was detected is judged malicious, whatever
-- the sample contains and whatever else the monitor logged.
escape_attempt-malicious :
    (now : ℕ) (a : EscapeAttemptType) (details : String) (m : SecurityMonitor)
    (text : Outcome String) (error : Option String)
    → is_given error ≡ false
    → verdict_from_iocs (collect_iocs text (detect_escape_attempt now a details m).1) error
      ≡ malicious
unfolding collect_iocs detect_escape_attempt log_event
escape_attempt-malicious now a details m text error absent = severe-malicious _ error absent (
    add_all-severe (map attempt_ioc (m.escape_attempts ++ a ∷ [])) _
      (any-map-append attempt_ioc m.escape_attempts a (attempt_ioc-severe a)))

-- A cycle without an error whose monitor logged an event of high or critical severity is judged
-- malicious.
pub log_event-malicious :
    (e : SecurityEvent) (m : SecurityMonitor) (text : Outcome String) (error : Option String)
    → is_given error ≡ false
    → (e.severity ≡ critical) ⊎ (e.severity ≡ high)
    → verdict_from_iocs (collect_iocs text (log_event e m)) error ≡ malicious
unfolding collect_iocs log_event
log_event-malicious e m text error absent h = severe-malicious _ error absent (
    add_all-keeps (map attempt_ioc m.escape_attempts) _ (
      add_all-severe (map event_ioc (m.events ++ e ∷ [])) _
        (any-map-append event_ioc m.events e (ground (arith, h)))))
