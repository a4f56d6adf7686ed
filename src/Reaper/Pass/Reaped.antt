-- ===== src/Reaper/Pass/Reaped.antt =====
-- Which rows a pass of `reap` in lumenos_sandbox/reaper.py takes out of the state store.
use lumenos_hiper_v.Prelude.{
  suc, Bool, true, false, ◌&&◌, String, none, List, [], ◌∷◌, any, map, ◌≡◌, refl, ap, ◌⊎◌, inl, inr,
  Exec, Outcome, ok, err, Ensures, Ensures-ok, Ensures-err, Ensures-bind, Ensures-weaken,
  Ensures-except, str_eq, arith, Bool-cases, length, ltb,
}
use lumenos_hiper_v.Types.{BunkerState}
use lumenos_hiper_v.State.{StateStore, Entry, entry_of}
use lumenos_hiper_v.State.Refinement.{
  View, view, update, Same, Removed, delete_refines, load_refines, list_all_lem, lift-bind,
}
use lumenos_hiper_v.Reaper.{
  select_states, ReapOutcome, ReapReport, Judgement, skip_state, skip_recent, candidate,
  new_outcome, teardown,
}
use lumenos_hiper_v.Reaper.Pass.{
  Setup, on_world, vm_of, switch_of, delete_row, close_row, dispose, judged_entry, take_up,
  scan_entries, reap, empty_report,
}

abbrev pub is_candidate : Judgement → Bool
is_candidate candidate = true
is_candidate _ = false

module _ {W : Type 0} (setup : Setup W) where
  -- The row of a bunker is as it was, or it is gone and `chosen` holds of the bunker.
  abbrev pub Only : (String → Bool) → StateStore × W → StateStore × W → Type 0
  Only chosen s t =
      (j : String) → (view t.0 j ≡ view s.0 j) ⊎ ((view t.0 j ≡ none) × (chosen j ≡ true))

  -- An entry of the bunker that is not to be skipped.
  abbrev pub eligible : List BunkerState → List Entry → String → Bool
  eligible selected entries j =
      any (λ entry. str_eq entry.bunker_id j && is_candidate (judged_entry setup selected entry))
        entries

  Only-trans :
      (p q r : String → Bool) (s t u : StateStore × W)
      → ((j : String) → p j ≡ true → r j ≡ true)
      → ((j : String) → q j ≡ true → r j ≡ true)
      → Only p s t
      → Only q t u
      → Only r s u
  Only-trans p q r s t u f g h k j = ground (arith, f j, g j, h j, k j)

  Same-Only : (p : String → Bool) (s t : StateStore × W) → Same setup.storage s t → Only p s t
  Same-Only p s t h j = inl (ap (λ (f : View). f j) h.0)

  erased-Only :
      (bunker_id : String) (s t : StateStore × W)
      → view t.0 ≡ update (view s.0) bunker_id none
      → Only (str_eq bunker_id) s t
  erased-Only bunker_id s t h j =
      let at_j = ap (λ (f : View). f j) h in
      elim (Bool-cases (str_eq bunker_id j)) [
        | inl b ↦ inr (rw b at at_j, b)
        | inr b ↦ inl (rw b at at_j)
      ]

  either-Only :
      (bunker_id : String) (s t : StateStore × W)
      → Same setup.storage s t ⊎ Removed setup.storage bunker_id s t
      → Only (str_eq bunker_id) s t
  either-Only bunker_id s t (inl h) = Same-Only (str_eq bunker_id) s t h
  either-Only bunker_id s t (inr h) = erased-Only bunker_id s t h.0

  delete_row-Only :
      (bunker_id : String) (outcome : ReapOutcome) (s : StateStore × W)
      → Ensures
          (λ _. Only (str_eq bunker_id) s)
          (λ _. Only (str_eq bunker_id) s)
          (delete_row setup bunker_id outcome s)
  delete_row-Only bunker_id outcome s =
      Ensures-except
        (Ensures-bind (delete_refines setup.storage bunker_id s) λ known t h. Ensures-ok (inr h.1))
        (λ o t h. either-Only bunker_id s t h)
        (λ e t h.
          Ensures-ok (either-Only bunker_id s t (elim h [ inl k ↦ inl k | inr k ↦ inr k.0 ])))

  close_row-Only :
      (bunker_id : String) (outcome : ReapOutcome) (s : StateStore × W)
      → Ensures
          (λ _. Only (str_eq bunker_id) s)
          (λ _. Only (str_eq bunker_id) s)
          (close_row setup bunker_id outcome s)
  close_row-Only bunker_id outcome s =
      elim (Bool-cases (ltb 0 (length outcome.residual) && setup.keep_on_failure)) [
        | inl b ↦ rw b (Ensures-ok λ j. inl refl)
        | inr b ↦ rw b (delete_row-Only bunker_id outcome s)
      ]

  on_world-Same :
      {A : Type 0} (m : Exec W A) (s : StateStore × W)
      → Ensures (λ _. Same setup.storage s) (λ _. Same setup.storage s) (on_world m s)
  on_world-Same {A = A} m (s, w) = same (m w)
    where
      same :
          (r : Outcome A × W)
          → Ensures
              (λ _. Same setup.storage (s, w))
              (λ _. Same setup.storage (s, w))
              (r.0, (s, r.1))
      same (ok a, w') = Ensures-ok (refl, refl)
      same (err e, w') = Ensures-err (refl, refl)

  -- Of the rows of two calls, the first of which changes none.
  Only-after :
      (p : String → Bool) (s t u : StateStore × W)
      → Same setup.storage s t
      → Only p t u
      → Only p s u
  Only-after p s t u h k = Only-trans p p p s t u (λ j x. x) (λ j x. x) (Same-Only p s t h) k

  dispose-Only :
      (entry : Entry) (s : StateStore × W)
      → Ensures
          (λ _. Only (str_eq entry.bunker_id) s)
          (λ _. Only (str_eq entry.bunker_id) s)
          (dispose setup entry s)
  unfolding dispose
  dispose-Only entry s = elim (Bool-cases setup.execute) [
    | inl b ↦ rw b (
        Ensures-bind
          (Ensures-weaken (load_refines setup.storage entry.bunker_id s) (λ r t h. h.0)
            (λ e t h. Same-Only (str_eq entry.bunker_id) s t h))
          λ record_ t h.
            Ensures-bind
              (Ensures-weaken
                (on_world-Same
                  (teardown setup.host setup.backend setup.file_name (vm_of record_)
                    (switch_of record_) entry.bunker_id (new_outcome setup.fromisoformat entry))
                  t)
                (λ o u k. k) (λ e u k. Only-after _ s t u h (Same-Only _ t u k)))
              λ torn u k.
                Ensures-weaken (close_row-Only entry.bunker_id torn u)
                  (λ o v l. Only-after _ s t v h (Only-after _ t u v k l))
                  (λ e v l. Only-after _ s t v h (Only-after _ t u v k l)))
    | inr b ↦ rw b (Ensures-ok λ j. inl refl)
  ]

  take_up-Only :
      (j : Judgement) (entry : Entry) (report : ReapReport) (s : StateStore × W)
      → Ensures
          (λ _. Only (λ k. str_eq entry.bunker_id k && is_candidate j) s)
          (λ _. Only (λ k. str_eq entry.bunker_id k && is_candidate j) s)
          (take_up setup j entry report s)
  take_up-Only skip_state entry report s = Ensures-ok λ j. inl refl
  take_up-Only skip_recent entry report s = Ensures-ok λ j. inl refl
  take_up-Only candidate entry report s =
      Ensures-bind
        (Ensures-weaken (dispose-Only entry s) (λ o t h j. ground (arith, h j))
          (λ e t h j. ground (arith, h j)))
        λ outcome t h. Ensures-ok h

  scan_entries-Only :
      (selected : List BunkerState) (entries : List Entry) (report : ReapReport)
      (s : StateStore × W)
      → Ensures
          (λ _. Only (eligible selected entries) s)
          (λ _. Only (eligible selected entries) s)
          (scan_entries setup selected entries report s)
  unfolding scan_entries
  scan_entries-Only selected [] report s = Ensures-ok λ j. inl refl
  scan_entries-Only selected (entry ∷ entries) report s =
      let now_seen = record report { scanned = suc report.scanned } in
      Ensures-bind
        (Ensures-weaken (take_up-Only (judged_entry setup selected entry) entry now_seen s)
          (λ r t h. h) (λ e t h. first s t h))
        λ report' t h.
          Ensures-weaken (scan_entries-Only selected entries report' t) (λ r u k. both s t u h k)
            (λ e u k. both s t u h k)
    where
      here : String → Bool
      here k = str_eq entry.bunker_id k && is_candidate (judged_entry setup selected entry)

      first :
          (s t : StateStore × W) → Only here s t → Only (eligible selected (entry ∷ entries)) s t
      first s t h j = ground (arith, h j)

      both :
          (s t u : StateStore × W)
          → Only here s t
          → Only (eligible selected entries) t u
          → Only (eligible selected (entry ∷ entries)) s u
      both s t u h k j = ground (arith, h j, k j)

  -- What the store lists.
  abbrev pub listing : StateStore × W → List Entry
  listing s = setup.storage.newest_first (map entry_of s.0.bunkers)

  abbrev pub Spares : StateStore × W → StateStore × W → Type 0
  Spares s t =
      Same setup.storage s t
      ⊎ ((selected : List BunkerState) × (select_states setup.repr setup.states ≡ ok selected)
          × Only (eligible selected (listing s)) s t)

  -- A pass, whether it returns or raises, changes no row, or the states are permitted and every row that
  -- it changes is taken out and listed as a candidate for them.
  pub reap-Spares : (s : StateStore × W) → Ensures (λ _. Spares s) (λ _. Spares s) (reap setup s)
  unfolding reap
  reap-Spares s =
      lift-bind setup.storage (select_states setup.repr setup.states) s _
        (λ selected e.
          Ensures-bind
            (Ensures-weaken (list_all_lem setup.storage s) (λ entries t h. h) (λ e t h. inl h))
            λ entries t h.
              Ensures-weaken (scan_entries-Only selected entries (empty_report setup) t)
                (λ r u k. inr (selected, e, chosen selected entries t u h k))
                (λ x u k. inr (selected, e, chosen selected entries t u h k)))
        (λ e. inl (refl, refl))
    where
      chosen :
          (selected : List BunkerState) (entries : List Entry) (t u : StateStore × W)
          → Same setup.storage s t × (entries ≡ listing s)
          → Only (eligible selected entries) t u
          → Only (eligible selected (listing s)) s u
      chosen selected entries t u h k =
          rw h.1 at (Only-after (eligible selected entries) s t u h.0 k)
