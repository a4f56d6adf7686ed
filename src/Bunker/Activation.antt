-- ===== src/Bunker/Activation.antt =====
-- What `Bunker.activate` leaves behind, whatever the hypervisor and the host do.
use lumenos_hiper_v.Prelude.{
  Bool, true, false, String, some, List, [], ◌∷◌, ◌++◌, map, All, All-append, ◌≡◌, refl, ap, ◌∙◌,
  Bool-cases, ◌≢◌, ◌⊎◌, inl, inr, arith, Exc, security_violation, bunker_not_ready,
  invalid_state_transition, ok, Ensures, Ensures-ok, Ensures-err, Ensures-bind, Ensures-except,
}
use lumenos_hiper_v.Types.{
  BunkerState, ready, active, destroyed, error, state_eq, is_valid_transition,
}
use lumenos_hiper_v.Host.{Env}
use lumenos_hiper_v.Layers
use lumenos_hiper_v.Layers.{Layer}
use lumenos_hiper_v.Layers.Laws.{activate-is_active, deactivate-is_active}
use lumenos_hiper_v.Monitoring.Monitor.{start_monitoring}
use lumenos_hiper_v.Bunker.{Bunker, transition_to, stamp}
use lumenos_hiper_v.Bunker.Session.{
  require_state, layer_up, activate_layers, activate_steps, activate_failed, activate,
}

abbrev pub Up : Layer → Type 0
Up l = l.is_active ≡ true

abbrev pub Down : Layer → Type 0
Down l = l.is_active ≡ false

map-deactivate : (ls : List Layer) → All Down (map Layers.deactivate ls)
map-deactivate [] = tt
map-deactivate (l ∷ ls) = (deactivate-is_active l, map-deactivate ls)

module _ {W : Type 0} (env : Env W) where
  -- Either every layer is up, or the exception leaves them all down.
  activate_layers-post :
      (done todo : List Layer) (s : Bunker × W)
      → All Up done
      → All Down todo
      → Ensures
          (λ _ t. (t.0.state ≡ s.0.state) × All Up t.0.layers)
          (λ e t.
            (e.kind ≡ security_violation)
            × (t.0.state ≡ s.0.state)
            × (t.0.session_active ≡ s.0.session_active)
            × All Down t.0.layers)
          (activate_layers env done todo s)
  unfolding activate_layers
  activate_layers-post done [] s up down = Ensures-ok (refl, up)
  activate_layers-post done (l ∷ ls) s up down =
      let (r, (l', w')) = Layers.activate env.shared l s.1 in
      let flag = activate-is_active env.shared l s.1 in
      elim (Bool-cases l'.is_active) [
        | inl on ↦
            rw (flag ∙ ap ok on, activate_layers)
              (activate_layers-post (done ++ l' ∷ []) ls (layer_up l' s.0, w')
                (All-append Up done (l' ∷ []) up (on, tt)) down.1)
        | inr off ↦
            rw (flag ∙ ap ok off, activate_layers)
              (Ensures-err (
                refl,
                refl,
                refl,
                All-append Down (map Layers.deactivate done) (l' ∷ ls) (map-deactivate done)
                    (off, down.1),
              ))
      ]

  pub require_step :
      (st : BunkerState) (message : String) (s : Bunker × W) {E : Exc → Bunker × W → Type 0}
      → s.0.state ≡ st
      → Ensures (λ _ t. t ≡ s) E (require_state st message s)
  unfolding require_state
  require_step st message s h = ground arith

  -- A transition of the table: the new state, and the same layers and session.
  pub move_step :
      (old new : BunkerState) (s : Bunker × W) {E : Exc → Bunker × W → Type 0}
      → s.0.state ≡ old
      → state_eq new old ≡ false
      → is_valid_transition old new ≡ true
      → Ensures
          (λ _ t.
            (t.0.state ≡ new)
            × (t.0.layers ≡ s.0.layers)
            × (t.0.session_active ≡ s.0.session_active)
            × (t.0.monitor.monitoring_active ≡ s.0.monitor.monitoring_active))
          E
          (transition_to env new s)
  unfolding transition_to
  move_step old new s h differs valid = ground arith

  -- A session that is running: every layer is up and the monitor watches.
  pub record Running (s : Bunker × W) : Type 0 where
    pub in_active : s.0.state ≡ active
    pub layers_up : All Up s.0.layers
    pub in_session : s.0.session_active ≡ true
    pub monitored : s.0.monitor.monitoring_active ≡ true

  activate_end :
      (s : Bunker × W) {E : Exc → Bunker × W → Type 0}
      → s.0.state ≡ active
      → All Up s.0.layers
      → s.0.monitor.monitoring_active ≡ true
      → Ensures
          (λ _. Running)
          E
          (stamp env (λ t b. record b { activated_at = some t; session_active = true }) s)
  unfolding stamp
  activate_end s st up m =
      Ensures-ok (record { in_active = st; layers_up = up; in_session = refl; monitored = m })

  -- What `activate_steps` leaves when a layer fails.
  abbrev LayerFailed : Bunker × W → Exc → Bunker × W → Type 0
  LayerFailed s e t =
      (e.kind ≡ security_violation)
      × (t.0.state ≡ active)
      × (t.0.session_active ≡ s.0.session_active)
      × All Down t.0.layers

  layers_step :
      (s₀ s : Bunker × W)
      → s.0.state ≡ active
      → s.0.layers ≡ s₀.0.layers
      → s.0.session_active ≡ s₀.0.session_active
      → All Down s₀.0.layers
      → Ensures
          (λ _ t. (t.0.state ≡ active) × All Up t.0.layers)
          (LayerFailed s₀)
          (activate_layers env [] s.0.layers s)
  layers_step s₀ s st same session down =
      let post = (activate_layers-post [] s.0.layers s tt (rw same down)).holds in
      record { holds = ground (arith, post) }

  activate_steps-post :
      (s : Bunker × W)
      → s.0.state ≡ ready
      → All Down s.0.layers
      → Ensures (λ r t. (r ≡ true) × Running t) (LayerFailed s) (activate_steps env s)
  unfolding activate_steps start_monitoring
  activate_steps-post s h down = Ensures-bind (require_step ready _ s h) λ _ s₁ h₁.
      Ensures-bind (move_step ready active s₁ (rw h₁ h) refl refl) λ _ s₂ h₂.
        Ensures-bind (layers_step s s₂ h₂.0 (rw h₂.1 (rw h₁)) (rw h₂.2 (rw h₁)) down) λ _ s₃ h₃.
          Ensures-bind
            (activate_end (record s₃.0 { monitor = start_monitoring s₃.0.monitor }, s₃.1) h₃.0 h₃.1
              refl)
            λ _ s₄ h₄. Ensures-ok (refl, h₄)

  -- A session that did not come up: ERROR, no layer up and no session.
  pub record NotStarted (before : Bunker × W) (s : Bunker × W) : Type 0 where
    pub in_error : s.0.state ≡ error
    pub layers_down : All Down s.0.layers
    pub no_session : s.0.session_active ≡ before.0.session_active

  activate_failed-post :
      (s₀ : Bunker × W) (e : Exc) (s : Bunker × W) {E : Exc → Bunker × W → Type 0}
      → LayerFailed s₀ e s
      → Ensures (λ r t. (r ≡ false) × NotStarted s₀ t) E (activate_failed env e s)
  unfolding activate_failed transition_to
  activate_failed-post s₀ e s h = ground arith

  -- `activate` of a READY bunker whose layers are down: it returns True with the session running,
  -- or it returns False with the bunker in ERROR and every layer down. It raises nothing.
  pub activate_outcome :
      (s : Bunker × W)
      → s.0.state ≡ ready
      → All Down s.0.layers
      → Ensures
          (λ r t. ((r ≡ true) × Running t) ⊎ ((r ≡ false) × NotStarted s t))
          (λ _ _. ⊥)
          (activate env s)
  unfolding activate
  activate_outcome s h down =
      Ensures-except (activate_steps-post s h down) (λ r t p. inl p)
        λ e t p. record {
          holds = ground (arith, (activate_failed-post s e t {E = λ _ _. ⊥} p).holds);
        }

  pub require_refused :
      (st : BunkerState) (message : String) (s : Bunker × W)
      → s.0.state ≢ st
      → Ensures
          (λ _ _. ⊥)
          (λ e t. (e.kind ≡ bunker_not_ready) × (t ≡ s))
          (require_state st message s)
  unfolding require_state
  require_refused st message s h = ground arith

  activate_steps-refused :
      (s : Bunker × W)
      → s.0.state ≢ ready
      → Ensures (λ _ _. ⊥) (λ e t. (e.kind ≡ bunker_not_ready) × (t ≡ s)) (activate_steps env s)
  unfolding activate_steps
  activate_steps-refused s h = Ensures-bind (require_refused ready _ s h) λ _ t p. absurd p

  -- What a refused call of `activate` leaves.
  abbrev pub Refused : Bunker × W → Bool → Bunker × W → Type 0
  Refused s r t =
      (r ≡ false)
      × (s.0.state ≢ destroyed)
      × (t.0.state ≡ error)
      × (t.0.layers ≡ s.0.layers)
      × (t.0.session_active ≡ s.0.session_active)

  abbrev pub RaisedDestroyed : Bunker × W → Exc → Bunker × W → Type 0
  RaisedDestroyed s e t = (e.kind ≡ invalid_state_transition) × (s.0.state ≡ destroyed) × (t ≡ s)

  activate_failed-Refused :
      (s : Bunker × W) (e : Exc)
      → e.kind ≡ bunker_not_ready
      → Ensures (Refused s) (RaisedDestroyed s) (activate_failed env e s)
  unfolding activate_failed transition_to
  activate_failed-Refused s e h = ground arith

  -- `activate` in another state never starts a session: a DESTROYED bunker raises
  -- InvalidStateTransition and is left as it was, and any other returns False and is in ERROR
  -- with its layers and session untouched.
  pub activate-Refused :
      (s : Bunker × W)
      → s.0.state ≢ ready
      → Ensures (Refused s) (RaisedDestroyed s) (activate env s)
  unfolding activate
  activate-Refused s h =
      Ensures-except (activate_steps-refused s h) (λ r t p. absurd p)
        λ e t p. rw p.1 (activate_failed-Refused s e p.0)

  pub activate_layers-state :
      (done todo : List Layer) (s : Bunker × W)
      → Ensures
          (λ _ t. t.0.state ≡ s.0.state)
          (λ e t. (e.kind ≡ security_violation) × (t.0.state ≡ s.0.state))
          (activate_layers env done todo s)
  unfolding activate_layers
  activate_layers-state done [] s = Ensures-ok refl
  activate_layers-state done (l ∷ ls) s =
      let (r, (l', w')) = Layers.activate env.shared l s.1 in
      let flag = activate-is_active env.shared l s.1 in
      elim (Bool-cases l'.is_active) [
        | inl on ↦
            rw (flag ∙ ap ok on, activate_layers)
              (activate_layers-state (done ++ l' ∷ []) ls (layer_up l' s.0, w'))
        | inr off ↦ rw (flag ∙ ap ok off, activate_layers) (Ensures-err (refl, refl))
      ]
