-- ===== src/Inspect/Verdicts.antt =====
-- What `_verdict_from_iocs` says of the indicators, and how the score bounds it.
use lumenos_hiper_v.Prelude.{
  ℕ, ◌≤◌, Bool, true, false, String, Option, List, [], ◌∷◌, ◌≡◌, ◌≢◌, ◌⊎◌, inl, inr, any, All,
  arith, is_given, length, Bool-cases,
}
use lumenos_hiper_v.Inspect.{
  Ioc, medium_severity, high_severity, critical_severity, severity_weight, Verdict, clean,
  suspicious, malicious, error_verdict, is_severe, is_medium, verdict_from_iocs, score,
}

abbrev pub Severe : Ioc → Type 0
Severe i = (i.severity ≡ critical_severity) ⊎ (i.severity ≡ high_severity)

-- One indicator of the list has the property.
pub data Some {A : Type 0} (P : A → Type 0) : List A → Type 0 where
  found : {x : A} {xs : List A} → P x → Some P (x ∷ xs)
  further : {x : A} {xs : List A} → Some P xs → Some P (x ∷ xs)

any-Some :
    {A : Type 0} {P : A → Type 0} (p : A → Bool) (xs : List A)
    → ((x : A) → p x ≡ true → P x)
    → any p xs ≡ true
    → Some P xs
any-Some p [] f h = ground (arith, h)
any-Some p (x ∷ xs) f h = elim (Bool-cases (p x)) [
  | inl this ↦ found (f x this)
  | inr other ↦ further (any-Some p xs f (ground (arith, h, other)))
]

any-All :
    {A : Type 0} {P : A → Type 0} (p : A → Bool) (xs : List A)
    → ((x : A) → p x ≡ false → P x)
    → any p xs ≡ false
    → All P xs
any-All p [] f h = tt
any-All p (x ∷ xs) f h = (f x (ground (arith, h)), any-All p xs f (ground (arith, h)))

is_severe-Severe : (i : Ioc) → is_severe i ≡ true → Severe i
is_severe-Severe i h = ground arith

not-Severe : (i : Ioc) → is_severe i ≡ false → ¬ Severe i
not-Severe i h = ground arith

is_medium-eq : (i : Ioc) → is_medium i ≡ true → i.severity ≡ medium_severity
is_medium-eq i h = ground arith

not-medium : (i : Ioc) → is_medium i ≡ false → i.severity ≢ medium_severity
not-medium i h = ground arith

-- What each verdict means.
abbrev pub Meaning : List Ioc → Option String → Verdict → Type 0
Meaning iocs error error_verdict = is_given error ≡ true
Meaning iocs error malicious = (is_given error ≡ false) × Some Severe iocs
Meaning iocs error suspicious =
    (is_given error ≡ false)
    × All (λ i. ¬ Severe i) iocs
    × Some (λ i. i.severity ≡ medium_severity) iocs
Meaning iocs error clean =
    (is_given error ≡ false)
    × All (λ i. ¬ Severe i) iocs
    × All (λ i. i.severity ≢ medium_severity) iocs

-- The verdict is `error` only if there is an error; without one it is `malicious` only if some
-- indicator is high or critical, `suspicious` only if none is but some is medium, and `clean` only
-- if none is even medium.
pub verdict_from_iocs-Meaning :
    (iocs : List Ioc) (error : Option String) → Meaning iocs error (verdict_from_iocs iocs error)
unfolding verdict_from_iocs
verdict_from_iocs-Meaning iocs error = elim (Bool-cases (is_given error)) [
  | inl given ↦ rw (given, verdict_from_iocs) given
  | inr absent ↦ elim (Bool-cases (any is_severe iocs)) [
    | inl severe ↦
        rw (absent, severe, verdict_from_iocs)
          (absent, any-Some is_severe iocs is_severe-Severe severe)
    | inr mild ↦ elim (Bool-cases (any is_medium iocs)) [
      | inl some_medium ↦
          rw (absent, mild, some_medium, verdict_from_iocs)
            (
              absent,
              any-All is_severe iocs not-Severe mild,
              any-Some is_medium iocs is_medium-eq some_medium,
            )
      | inr no_medium ↦
          rw (absent, mild, no_medium, verdict_from_iocs)
            (
              absent,
              any-All is_severe iocs not-Severe mild,
              any-All is_medium iocs not-medium no_medium,
            )
    ]
  ]
]

Some-score :
    {P : Ioc → Type 0} (k : ℕ) (iocs : List Ioc)
    → ((i : Ioc) → P i → k ≤ severity_weight i.severity)
    → Some P iocs
    → k ≤ score iocs
Some-score k [] f h = elim h [ ]
Some-score k (i ∷ iocs) f (found h) = omega (arith, f i h)
Some-score k (i ∷ iocs) f (further h) = omega (arith, Some-score k iocs f h)

low-score :
    (iocs : List Ioc)
    → All (λ i. ¬ Severe i) iocs
    → All (λ i. i.severity ≢ medium_severity) iocs
    → score iocs ≡ length iocs
low-score [] mild low = omega arith
low-score (i ∷ iocs) mild low =
    let weight : severity_weight i.severity ≡ 1 = ground (arith, mild.0, low.0) in
    omega (arith, weight, low-score iocs mild.1 low.1)

-- The score that goes with each verdict.
abbrev pub Scored : List Ioc → Verdict → Type 0
Scored iocs error_verdict = 0 ≤ score iocs
Scored iocs malicious = 50 ≤ score iocs
Scored iocs suspicious = 10 ≤ score iocs
Scored iocs clean = score iocs ≡ length iocs

Meaning-Scored :
    (iocs : List Ioc) (error : Option String) (v : Verdict) → Meaning iocs error v → Scored iocs v
Meaning-Scored iocs error error_verdict h = omega arith
Meaning-Scored iocs error malicious h = Some-score 50 iocs (λ i p. ground (arith, p)) h.1
Meaning-Scored iocs error suspicious h = Some-score 10 iocs (λ i p. ground (arith, p)) h.2
Meaning-Scored iocs error clean h = low-score iocs h.1 h.2

-- A `malicious` verdict has a score of at least 50, a `suspicious` one of at least 10, and a `clean`
-- one exactly one point for each indicator.
pub verdict_from_iocs-Scored :
    (iocs : List Ioc) (error : Option String) → Scored iocs (verdict_from_iocs iocs error)
verdict_from_iocs-Scored iocs error =
    Meaning-Scored iocs error (verdict_from_iocs iocs error) (verdict_from_iocs-Meaning iocs error)
