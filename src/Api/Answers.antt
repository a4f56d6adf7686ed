-- ===== src/Api/Answers.antt =====
-- What `analyze_sync_endpoint` of lumenos_sandbox/api.py leaves behind: the slots and the audit.
use lumenos_hiper_v.Prelude.{
  ℕ, ◌+◌, ◌-◌, ◌≤◌, ◌==◌, Bool, true, false, String, Option, List, [], ◌∷◌, ◌++◌, ◌≡◌, ◌⊎◌, inl,
  inr, refl, arith, Bool-cases, Exc, Outcome, ok, err, format,
}
use lumenos_hiper_v.Inspect.Sample.{ensure_sample_within_limit}
use lumenos_hiper_v.Api.{Reply, reply, refuse, crash}
use lumenos_hiper_v.Api.Access.{
  Request, AuditLine, FilePath, Service, log_access_denied, audited, authorize_and_resolve,
}
use lumenos_hiper_v.Api.Slots.{
  Slots, acquire, submitted, submission_failed, returned, max_in_flight,
}
use lumenos_hiper_v.Api.Analyze.{
  Files, Waited, finished, timed_out, State, or_same, launch, admit, size_checked, with_path,
  analyze_sync_endpoint,
}

-- The slots of a call that took one and whose analysis goes on after it gave up waiting.
abbrev pub OneMore : Slots → Slots → Type 0
OneMore s t = (t.free + 1 ≡ s.free) × (t.taken ≡ s.taken) × (t.in_flight ≡ s.in_flight + 1)

-- The slots after `acquire`.
abbrev took : Slots → Slots
took s = record s { free = s.free - 1; taken = s.taken + 1 }

returned-took :
    (s : Slots)
    → (s.free == 0) ≡ false
    → s.free ≤ max_in_flight
    → or_same (submitted (took s)) (returned (submitted (took s))) ≡ s
unfolding submitted returned
returned-took s e h = ground arith

failed-took :
    (s : Slots)
    → (s.free == 0) ≡ false
    → s.free ≤ max_in_flight
    → or_same (took s) (submission_failed (took s)) ≡ s
unfolding submission_failed
failed-took s e h = ground arith

OneMore-took : (s : Slots) → (s.free == 0) ≡ false → OneMore s (submitted (took s))
unfolding submitted
OneMore-took s e = ground arith

-- `ensure_sample_within_limit` of a path
abbrev within : Files → FilePath → Outcome (Unit {0})
within files path = (ensure_sample_within_limit files.limit (files.size path) tt).0

-- A sample that may be analysed: of a file that the request may read and that is not too large.
abbrev pub Allowed : Service → Files → String → Option String → Type 0
Allowed service files sample_path authorization =
    (path : FilePath) × (authorize_and_resolve service sample_path authorization ≡ reply path)
    × (files.is_file path ≡ true)
    × ((ensure_sample_within_limit files.limit (files.size path) tt).0 ≡ ok tt)

module _ {R : Type 0} where
  -- What an admission comes to, for the audit and the slots before it.
  pub record Admitted (waited : Waited R) (before : State) (result : Reply R × State) : Type 0 where
    pub audit_same : result.1.0 ≡ before.0
    pub slots : (result.1.1 ≡ before.1) ⊎ ((waited ≡ timed_out) × OneMore before.1 result.1.1)
    pub report : (r : R) → result.0 ≡ reply r → waited ≡ finished (ok r)

  launch-Admitted :
      (submission : Outcome (Unit {0})) (waited : Waited R) (audit : List AuditLine) (s : Slots)
      → (s.free == 0) ≡ false
      → s.free ≤ max_in_flight
      → Admitted waited (audit, s) (launch submission waited (audit, took s))
  launch-Admitted (ok u) (finished (ok r)) audit s e h = record {
    audit_same = refl;
    slots = inl (returned-took s e h);
    report = λ r' q. cc;
  }
  launch-Admitted (ok u) (finished (err x)) audit s e h = record {
    audit_same = refl;
    slots = inl (returned-took s e h);
    report = λ r q. cc;
  }
  launch-Admitted (ok u) timed_out audit s e h = record {
    audit_same = refl;
    slots = inr (refl, OneMore-took s e);
    report = λ r q. cc;
  }
  launch-Admitted (err x) waited audit s e h = record {
    audit_same = refl;
    slots = inl (failed-took s e h);
    report = λ r q. cc;
  }

  admit-Admitted :
      (submission : Outcome (Unit {0})) (waited : Waited R) (audit : List AuditLine) (s : Slots)
      → s.free ≤ max_in_flight
      → Admitted waited (audit, s) (admit submission waited (audit, s))
  unfolding acquire
  admit-Admitted submission waited audit s h = elim (Bool-cases (s.free == 0)) [
    | inl e ↦ rw e (record { audit_same = refl; slots = inl refl; report = λ r q. cc })
    | inr e ↦ rw e (launch-Admitted submission waited audit s e h)
  ]

  module _ (is_printable : ℕ → Bool) (service : Service) (files : Files) where
    -- What is answered, and what is added to the audit, for what became of the authorization: a
    -- refusal there, a sample that is no file and one that is too large are answered with their
    -- status, and each adds its line; a call that gets further adds none, whatever it answers.
    abbrev pub Recorded :
        Request
        → String
        → Option String
        → Reply FilePath
        → List AuditLine
        → Reply R
        → List AuditLine
        → Type 0
    Recorded request sample_path authorization (refuse status detail) before r after =
        (r ≡ refuse status detail)
        × (after
            ≡ before ++ log_access_denied is_printable request status "sample-authorization" ∷ [])
    Recorded request sample_path authorization (crash e) before r after =
        (r ≡ crash e) × (after ≡ before)
    Recorded request sample_path authorization (reply path) before r after =
        ((files.is_file path ≡ false)
          × (r ≡ refuse 400 (format ("Sample not found: " ∷ sample_path ∷ [])))
          × (after ≡ before ++ log_access_denied is_printable request 400 "sample-not-found" ∷ []))
        ⊎ ((files.is_file path ≡ true)
            × (e : Exc) × (within files path ≡ err e)
            × (r ≡ refuse 413 e.message)
            × (after
                ≡ before ++ log_access_denied is_printable request 413 "sample-too-large" ∷ []))
        ⊎ (Allowed service files sample_path authorization × (after ≡ before))

    -- A report that is answered is that of an analysis of a sample that may be analysed.
    pub record Answered (request : Request) (sample_path : String) (authorization : Option String)
        (waited : Waited R) (before : State) (result : Reply R × State) : Type 0 where
      pub recorded :
          Recorded request sample_path authorization
            (authorize_and_resolve service sample_path authorization)
            before.0
            result.0
            result.1.0
      pub slots : (result.1.1 ≡ before.1) ⊎ ((waited ≡ timed_out) × OneMore before.1 result.1.1)
      pub report :
          (r : R)
          → result.0 ≡ reply r
          → (waited ≡ finished (ok r)) × Allowed service files sample_path authorization

    size_checked-Answered :
        (request : Request) (sample_path : String) (authorization : Option String)
        (submission : Outcome (Unit {0})) (waited : Waited R) (audit : List AuditLine) (s : Slots)
        (path : FilePath) (size : Outcome (Unit {0}))
        → authorize_and_resolve service sample_path authorization ≡ reply path
        → files.is_file path ≡ true
        → within files path ≡ size
        → s.free ≤ max_in_flight
        → Answered request sample_path authorization waited
            (audit, s)
            (size_checked is_printable service files request size submission waited (audit, s))
    size_checked-Answered request sample_path authorization submission waited audit s path (err x) e
          f z h =
        record {
          recorded = rw e (inr (inl (f, x, z, refl, refl)));
          slots = inl refl;
          report = λ r q. cc;
        }
    size_checked-Answered request sample_path authorization submission waited audit s path (ok u) e
          f z h =
        let admitted = admit-Admitted submission waited audit s h in
        let allowed : Allowed service files sample_path authorization = (path, e, f, z) in
        record {
          recorded = rw e (inr (inr (allowed, admitted.audit_same)));
          slots = admitted.slots;
          report = λ r q. (admitted.report r q, allowed);
        }

    with_path-Answered :
        (request : Request) (sample_path : String) (authorization : Option String)
        (submission : Outcome (Unit {0})) (waited : Waited R) (audit : List AuditLine) (s : Slots)
        (path : FilePath)
        → authorize_and_resolve service sample_path authorization ≡ reply path
        → s.free ≤ max_in_flight
        → Answered request sample_path authorization waited
            (audit, s)
            (with_path is_printable service files request sample_path
              (reply path)
              submission
              waited
              (audit, s))
    with_path-Answered request sample_path authorization submission waited audit s path e h =
        elim (Bool-cases (files.is_file path)) [
          | inl f ↦ rw f (
              size_checked-Answered request sample_path authorization submission waited audit s path
                _ e f refl h)
          | inr f ↦ rw f (record {
            recorded = rw e (inl (f, refl, refl));
            slots = inl refl;
            report = λ r q. cc;
          })
        ]

    resolved-Answered :
        (request : Request) (sample_path : String) (authorization : Option String)
        (submission : Outcome (Unit {0})) (waited : Waited R) (audit : List AuditLine) (s : Slots)
        (r : Reply FilePath)
        → authorize_and_resolve service sample_path authorization ≡ r
        → s.free ≤ max_in_flight
        → let (path, audit') = audited is_printable request "sample-authorization" r audit in
          Answered request sample_path authorization waited
            (audit, s)
            (with_path is_printable service files request sample_path path submission waited
              (audit', s))
    resolved-Answered request sample_path authorization submission waited audit s (reply path) e h =
        with_path-Answered request sample_path authorization submission waited audit s path e h
    resolved-Answered request sample_path authorization submission waited audit s
          (refuse status detail) e h =
        record { recorded = rw e (refl, refl); slots = inl refl; report = λ r q. cc }
    resolved-Answered request sample_path authorization submission waited audit s (crash x) e h =
        record { recorded = rw e (refl, refl); slots = inl refl; report = λ r q. cc }

    -- A call of the endpoint, where no more slots are free than the semaphore has, adds one line to the
    -- audit for each of the refusals that are made before its admission, which are those of the
    -- authorization, of a sample that is no file and of one that is too large; for any other
    -- answer, a refusal for lack of capacity among them, it adds none. It leaves the slots as they were,
    -- or it gave up waiting and its analysis holds one slot more. A report that it answers is that of
    -- its own analysis, and then the path of the sample was authorized, is a file and is within the
    -- size cap.
    pub analyze_sync_endpoint_outcome :
        (request : Request) (sample_path : String) (authorization : Option String)
        (submission : Outcome (Unit {0})) (waited : Waited R) (before : State)
        → before.1.free ≤ max_in_flight
        → Answered request sample_path authorization waited before (
            analyze_sync_endpoint is_printable service files request sample_path authorization
              submission waited before)
    unfolding analyze_sync_endpoint
    analyze_sync_endpoint_outcome request sample_path authorization submission waited (audit, s) h =
        resolved-Answered request sample_path authorization submission waited audit s _ refl h
