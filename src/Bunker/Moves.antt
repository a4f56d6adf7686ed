-- ===== src/Bunker/Moves.antt =====
-- What one `Bunker.transition_to` does, on each of its branches.
use lumenos_hiper_v.Prelude.{
  ◌+◌, true, false, [], ◌∷◌, format, ◌≡◌, ◌⊎◌, inl, inr, refl, Ensures, Ensures-ok, Ensures-err,
  Bool-cases, eq_refl, invalid_state_transition, Exc,
}
use lumenos_hiper_v.Types.{BunkerState, state_eq, state_name, is_valid_transition}
use lumenos_hiper_v.Types.Transitions.{state_eq-eq}
use lumenos_hiper_v.Host.{Env}
use lumenos_hiper_v.Observability.{counter, set_gauge, counter-inc_by}
use lumenos_hiper_v.Bunker.{Bunker, enter, persist_state, transition_to}

enter-counted :
    (new : BunkerState) (b : Bunker)
    → let name = format ("transition_" ∷ state_name new ∷ []) in
      counter name (enter new b).monitor.metrics ≡ counter name b.monitor.metrics + 1
unfolding set_gauge
enter-counted new b =
    let name = format ("transition_" ∷ state_name new ∷ []) in
    rw (counter-inc_by name name 1 b.monitor.metrics, eq_refl name) refl

module _ {W : Type 0} (env : Env W) (new : BunkerState) (s : Bunker × W) where
  -- The move was made: along the diagram, counted, and saved as the state store sees it.
  pub record Moved (t : Bunker × W) : Type 0 where
    pub valid : is_valid_transition s.0.state new ≡ true
    pub arrived : t.0.state ≡ new
    pub counted :
        let name = format ("transition_" ∷ state_name new ∷ []) in
        counter name t.0.monitor.metrics ≡ counter name s.0.monitor.metrics + 1
    pub saved : t.1 ≡ persist_state env t.0 s.1

  -- A transition that the table does not have.
  pub record Rejected (e : Exc) (t : Bunker × W) : Type 0 where
    pub kind : e.kind ≡ invalid_state_transition
    pub not_valid : is_valid_transition s.0.state new ≡ false
    pub unchanged : t ≡ s

  -- `transition_to` returns True after a move along the diagram, which it counts once and saves; it
  -- returns False and changes nothing when the bunker is in that state already; and it raises
  -- InvalidStateTransition and changes nothing when the table does not have the transition.
  pub transition_to_outcome :
      Ensures
        (λ r t. ((r ≡ true) × Moved t) ⊎ ((r ≡ false) × (new ≡ s.0.state) × (t ≡ s)))
        Rejected
        (transition_to env new s)
  unfolding transition_to
  transition_to_outcome = elim (Bool-cases (state_eq new s.0.state)) [
    | inl same ↦
        rw (same, transition_to) (Ensures-ok (inr (refl, state_eq-eq new s.0.state same, refl)))
    | inr differs ↦ elim (Bool-cases (is_valid_transition s.0.state new)) [
      | inl valid ↦
          rw (differs, valid, transition_to)
            (Ensures-ok (
              inl (
                refl,
                record {
                  valid = valid;
                  arrived = refl;
                  counted = enter-counted new s.0;
                  saved = refl;
                },
              )))
      | inr invalid ↦
          rw (differs, invalid, transition_to)
            (Ensures-err (record { kind = refl; not_valid = invalid; unchanged = refl }))
    ]
  ]
