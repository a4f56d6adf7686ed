-- ===== src/Reaper/Pass/DryRun.antt =====
-- A dry run of `reap` in lumenos_sandbox/reaper.py, and the counts of a report.
use lumenos_hiper_v.Prelude.{
  ℕ, ◌+◌, suc, false, List, [], ◌∷◌, ◌≡◌, refl, sym, ap, ◌∙◌, ◌⊎◌, inl, inr, All, All-append,
  length-append, Exec, Outcome, ok, err, Exc, Ensures, Ensures-ok, Ensures-err, Ensures-any,
  Ensures-bind, Ensures-weaken, continue, arith, length,
}
use lumenos_hiper_v.Types.{BunkerState}
use lumenos_hiper_v.State.{StateStore, Entry, list_all, lift_to}
use lumenos_hiper_v.Reaper.{
  select_states, ReapOutcome, ReapReport, Judgement, skip_state, skip_recent, candidate,
  new_outcome,
}
use lumenos_hiper_v.Reaper.Pass.{
  Setup, dispose, judged_entry, take_up, scan_entries, reap, empty_report,
}

-- A result, known by an equation.
known :
    {S A : Type 0} (r : Outcome A × S) → Ensures (λ a t. r ≡ (ok a, t)) (λ e t. r ≡ (err e, t)) r
known (ok a, t) = Ensures-ok refl
known (err e, t) = Ensures-err refl

lift-refused :
    {S A B : Type 0} {R : B → S → Type 0} {E : Exc → S → Type 0} (r : Outcome A) (s : S)
    (f : A → Exec S B)
    → ((a : A) → Ensures R E (f a s))
    → ((e : Exc) → r ≡ err e → E e s)
    → Ensures R E (continue (lift_to {S = S} r s).0 f (lift_to {S = S} r s).1)
lift-refused (ok a) s f h k = h a
lift-refused (err e) s f h k = Ensures-err (k e refl)

-- Every record that was scanned was skipped or is a candidate.
abbrev pub Counted : ReapReport → Type 0
Counted report =
    report.scanned ≡ report.skipped_state + report.skipped_recent + length report.candidates

-- Nothing was removed for the record.
abbrev pub Untouched : ReapOutcome → Type 0
Untouched outcome = (outcome.removed ≡ []) × (outcome.residual ≡ []) × (outcome.row_deleted ≡ false)

module _ {W : Type 0} (setup : Setup W) where
  take_up-Counted :
      (j : Judgement) (entry : Entry) (report : ReapReport) (n : ℕ) (s : StateStore × W)
      → Counted report
      → Ensures
          (λ r _. Counted r × (r.scanned ≡ suc report.scanned))
          (λ _ _. Unit {0})
          (take_up setup j entry (record report { scanned = suc report.scanned }) s)
  take_up-Counted skip_state entry report n s h = Ensures-ok (omega (arith, h), refl)
  take_up-Counted skip_recent entry report n s h = Ensures-ok (omega (arith, h), refl)
  take_up-Counted candidate entry report n s h =
      Ensures-bind (Ensures-any (dispose setup entry s)) λ outcome t u.
        Ensures-ok (omega (arith, h, length-append report.candidates (outcome ∷ [])), refl)

  scan_entries-Counted :
      (selected : List BunkerState) (entries : List Entry) (report : ReapReport)
      (s : StateStore × W)
      → Counted report
      → Ensures
          (λ r _. Counted r × (r.scanned ≡ report.scanned + length entries))
          (λ _ _. Unit {0})
          (scan_entries setup selected entries report s)
  unfolding scan_entries
  scan_entries-Counted selected [] report s h = Ensures-ok (h, omega arith)
  scan_entries-Counted selected (entry ∷ entries) report s h =
      Ensures-bind (take_up-Counted (judged_entry setup selected entry) entry report 0 s h) λ r t k.
        Ensures-weaken (scan_entries-Counted selected entries r t k.0)
          (λ q u l. (l.0, omega (arith, l.1, k.1))) (λ e u l. l)

  module _ (dry : setup.execute ≡ false) where
    take_up-dry :
        (j : Judgement) (entry : Entry) (report : ReapReport) (s : StateStore × W)
        → All Untouched report.candidates
        → Ensures
            (λ r t. (t ≡ s) × All Untouched r.candidates)
            (λ _ _. ⊥)
            (take_up setup j entry report s)
    unfolding dispose
    take_up-dry skip_state entry report s h = Ensures-ok (refl, h)
    take_up-dry skip_recent entry report s h = Ensures-ok (refl, h)
    take_up-dry candidate entry report s h = rw dry (
        Ensures-ok (
          refl,
          All-append Untouched report.candidates (new_outcome setup.fromisoformat entry ∷ []) h
              ((refl, refl, refl), tt),
        ))

    scan_entries-dry :
        (selected : List BunkerState) (entries : List Entry) (report : ReapReport)
        (s : StateStore × W)
        → All Untouched report.candidates
        → Ensures
            (λ r t. (t ≡ s) × All Untouched r.candidates)
            (λ _ _. ⊥)
            (scan_entries setup selected entries report s)
    unfolding scan_entries
    scan_entries-dry selected [] report s h = Ensures-ok (refl, h)
    scan_entries-dry selected (entry ∷ entries) report s h =
        Ensures-bind
          (take_up-dry (judged_entry setup selected entry) entry
            (record report { scanned = suc report.scanned }) s h)
          λ r t k.
            Ensures-weaken (scan_entries-dry selected entries r t k.1) (λ q u l. (l.0 ∙ k.0, l.1))
              (λ e u l. l)

    -- A dry run does to the store and to the host what listing the store does and nothing more, and its
    -- candidates are untouched; it raises only if the states are refused or the listing raises.
    pub reap-dry :
        (s : StateStore × W)
        → Ensures
            (λ r t. (t ≡ (list_all setup.storage s).1) × All Untouched r.candidates)
            (λ e t.
              ((select_states setup.repr setup.states ≡ err e) × (t ≡ s))
              ⊎ (list_all setup.storage s ≡ (err e, t)))
            (reap setup s)
    unfolding reap
    reap-dry s =
        lift-refused (select_states setup.repr setup.states) s _
          (λ selected.
            Ensures-bind
              (Ensures-weaken (known (list_all setup.storage s)) (λ a t h. h) (λ e t h. inr h))
              λ entries t h.
                Ensures-weaken (scan_entries-dry selected entries (empty_report setup) t tt)
                  (λ r u k. (k.0 ∙ ap (λ q. q.1) (sym h), k.1)) (λ e u k. elim k [ ]))
          (λ e h. inl (h, refl))

  -- The counts of a report add up: every record that the store lists is scanned once, and it was skipped
  -- for its state, skipped for its age, or is a candidate.
  pub reap-Counted :
      (s : StateStore × W)
      → Ensures
          (λ r _.
            Counted r
            × ((entries : List Entry) × (t : StateStore × W) × (list_all setup.storage s
                  ≡ (ok entries, t))
                × (r.scanned ≡ length entries)))
          (λ _ _. Unit {0})
          (reap setup s)
  unfolding reap
  reap-Counted s =
      lift-refused (select_states setup.repr setup.states) s _
        (λ selected.
          Ensures-bind
            (Ensures-weaken (known (list_all setup.storage s)) (λ a t h. h) (λ e t h. tt))
            λ entries t h.
              Ensures-weaken (scan_entries-Counted selected entries (empty_report setup) t refl)
                (λ r u k. (k.0, (entries, t, h, omega (arith, k.1)))) (λ e u k. k))
        (λ e h. tt)
