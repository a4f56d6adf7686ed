-- ===== src/Bunker/Lifecycle.antt =====
-- What `Bunker.initialize` leaves behind, whatever the hypervisor and the host do.
use lumenos_hiper_v.Prelude.{
  ℕ, true, false, String, Option, none, some, [], ◌∷◌, ◌≡◌, refl, ◌∙◌, ◌≢◌, ◌⊎◌, inl, inr, arith,
  Outcome, ok, err, Ensures-weaken, Bool, handle, format, Exc, Ensures, Ensures-ok, Ensures-bind,
  Ensures-except, is_deadline,
}
use lumenos_hiper_v.Types.{
  BunkerState, initializing, ready, destroyed, error, state_eq, is_valid_transition, BunkerConfig,
}
use lumenos_hiper_v.Host.{Env}
use lumenos_hiper_v.Bunker.{Bunker, transition_to, stamp}
use lumenos_hiper_v.Bunker.Init.{
  raise_if_deadline_exhausted, verify_system_requirements, load_base_image, allocate_resources,
  initialize_integrity_baseline, enable_guest, propagate_vm_credentials, initialize_steps,
  initialize_failed, initialize,
}
use lumenos_hiper_v.Bunker.CleanUp.{Released, Unresolved, initialize_failed-post}

-- The states from which `initialize` can go on.
abbrev pub CanStart : BunkerState → Type 0
CanStart st = (st ≡ destroyed) ⊎ (st ≡ initializing)

-- `f"bunker_{id}"` and `f"lumenos_{id}_switch"`
abbrev pub vm_of : BunkerConfig → String
vm_of c = format ("bunker_" ∷ c.id ∷ [])

abbrev pub switch_of : BunkerConfig → String
switch_of c = format ("lumenos_" ∷ c.id ∷ "_switch" ∷ [])

module _ {W : Type 0} where
  -- A bunker in a given state, with given names of its resources.
  pub record At (st : BunkerState) (c : BunkerConfig) (vm switch : Option String) (s : Bunker × W)
      : Type 0 where
    pub in_state : s.0.state ≡ st
    pub with_config : s.0.config ≡ c
    pub with_vm : s.0.vm_name ≡ vm
    pub with_switch : s.0.switch_name ≡ switch

  -- A failure that has not left the given state.
  abbrev pub Still : BunkerState → Exc → Bunker × W → Type 0
  Still st e s = s.0.state ≡ st

module _ {W : Type 0} (env : Env W) {st : BunkerState} {c : BunkerConfig}
    {vm switch : Option String} (s : Bunker × W) (h : At st c vm switch s) where
  check_step :
      (d : Option ℕ)
      → Ensures (λ _. At st c vm switch) (Still st) (raise_if_deadline_exhausted env d s)
  unfolding raise_if_deadline_exhausted
  check_step none = ground arith
  check_step (some d) = ground arith

  verify_step : Ensures (λ _. At st c vm switch) (Still st) (verify_system_requirements env s)
  unfolding verify_system_requirements
  verify_step = ground arith

  image_step : Ensures (λ _. At st c vm (some (switch_of c))) (Still st) (load_base_image env s)
  unfolding load_base_image
  image_step = ground arith

  allocate_step :
      Ensures (λ _. At st c (some (vm_of c)) switch) (Still st) (allocate_resources env s)
  unfolding allocate_resources
  allocate_step = ground arith

  baseline_step : Ensures (λ _. At st c vm switch) (Still st) (initialize_integrity_baseline env s)
  unfolding initialize_integrity_baseline
  baseline_step = ground arith

  guest_step : (d : Option ℕ) → Ensures (λ _. At st c vm switch) (Still st) (enable_guest env d s)
  unfolding enable_guest
  guest_step d = ground arith

  credentials_step : Ensures (λ _. At st c vm switch) (Still st) (propagate_vm_credentials env s)
  unfolding propagate_vm_credentials
  credentials_step = ground arith

  -- A transition of the table moves the state and leaves the rest that is tracked.
  pub enter_step :
      (new : BunkerState) {E : Exc → Bunker × W → Type 0}
      → state_eq new st ≡ false
      → is_valid_transition st new ≡ true
      → Ensures (λ _. At new c vm switch) E (transition_to env new s)
  unfolding transition_to
  enter_step new differs valid = ground arith

  created_step :
      Ensures
        (λ _. At st c vm switch)
        (Still st)
        (stamp env (λ t b. record b { created_at = some t }) s)
  unfolding stamp
  created_step = ground arith

module _ {W : Type 0} (env : Env W) where
  -- From INITIALIZING the first transition changes nothing.
  start_step :
      (s : Bunker × W) {E : Exc → Bunker × W → Type 0}
      → CanStart s.0.state
      → Ensures
          (λ _. At initializing s.0.config s.0.vm_name s.0.switch_name)
          E
          (transition_to env initializing s)
  unfolding transition_to
  start_step s h = ground arith

  initialize_steps-post :
      (d : Option ℕ) (s : Bunker × W)
      → CanStart s.0.state
      → let c = s.0.config in
        Ensures
          (λ r t. (r ≡ true) × At ready c (some (vm_of c)) (some (switch_of c)) t)
          (Still initializing)
          (initialize_steps env d s)
  unfolding initialize_steps
  initialize_steps-post d s h = Ensures-bind (start_step s h) λ _ s h.
      Ensures-bind (check_step env s h d) λ _ s h. Ensures-bind (verify_step env s h) λ _ s h.
        Ensures-bind (check_step env s h d) λ _ s h. Ensures-bind (image_step env s h) λ _ s h.
          Ensures-bind (check_step env s h d) λ _ s h. Ensures-bind (allocate_step env s h) λ _ s h.
            Ensures-bind (check_step env s h d) λ _ s h.
              Ensures-bind (baseline_step env s h) λ _ s h.
                Ensures-bind (guest_step env s h d) λ _ s h.
                  Ensures-bind (check_step env s h d) λ _ s h.
                    Ensures-bind (credentials_step env s h) λ _ s h.
                      Ensures-bind (created_step env s h) λ _ s h.
                        Ensures-bind (enter_step env s h ready refl refl)
                          λ _ s h. Ensures-ok (refl, h)

  -- `initialize` failed at a moment `m`, with the exception `e`.
  abbrev pub FailedAt : Option ℕ → Bunker × W → Exc → Bunker × W → Type 0
  FailedAt d s e m = initialize_steps env d s ≡ (err e, m)

  -- A call that returned False after it had failed, and one that raised.
  abbrev pub GaveUp : Option ℕ → Bunker × W → Bunker × W → Type 0
  GaveUp d s t = (e : Exc) × (m : Bunker × W) × FailedAt d s e m × Released env m t

  abbrev pub Raised : Option ℕ → Bunker × W → Exc → Bunker × W → Type 0
  Raised d s x t =
      (e : Exc) × (m : Bunker × W) × FailedAt d s e m
      × (((x ≡ e) × (is_deadline e.kind ≡ true) × Released env m t) ⊎ Unresolved env m x t)

  handled :
      {Q : Bool → Bunker × W → Type 0} {P : Exc → Bunker × W → Type 0} (d : Option ℕ)
      (s : Bunker × W) (q : Outcome Bool × (Bunker × W))
      → initialize_steps env d s ≡ q
      → ((e : Exc) (m : Bunker × W) → P e m → m.0.state ≢ destroyed)
      → Ensures Q P q
      → Ensures
          (λ r t. Q r t ⊎ ((r ≡ false) × GaveUp d s t))
          (λ x t.
            (e : Exc) × (m : Bunker × W) × FailedAt d s e m
            × P e m
            × (((x ≡ e) × (is_deadline e.kind ≡ true) × Released env m t) ⊎ Unresolved env m x t))
          (handle q.0 (initialize_failed env) q.1)
  handled d s (ok r, t) same live h = Ensures-ok (inl h.holds)
  handled d s (err e, m) same live h =
      Ensures-weaken (initialize_failed-post env e m (live e m h.holds))
        (λ r t p. inr (p.0, (e, m, same, p.1))) λ x t p. (e, m, same, h.holds, p)

  pub initialize_outcome :
      (d : Option ℕ) (s : Bunker × W)
      → CanStart s.0.state
      → let c = s.0.config in
        Ensures
          (λ r t.
            ((r ≡ true) × At ready c (some (vm_of c)) (some (switch_of c)) t)
            ⊎ ((r ≡ false) × GaveUp d s t))
          (λ x t. Raised d s x t × ((t.0.state ≡ error) ⊎ (t.0.state ≡ initializing)))
          (initialize env d s)
  unfolding initialize
  initialize_outcome d s h =
      Ensures-weaken
        (handled d s (initialize_steps env d s) refl (λ e m p. ground (arith, p))
          (initialize_steps-post d s h))
        (λ r t p. p)
        λ x t (e, m, same, p, q).
          ((e, m, same, q), elim q [ inl k ↦ inl k.2.failed | inr k ↦ inr (k.same_state ∙ p) ])

  start_refused :
      (s : Bunker × W)
      → ¬ CanStart s.0.state
      → Ensures
          (λ _ _. ⊥)
          (λ e t. (is_deadline e.kind ≡ false) × (t ≡ s))
          (transition_to env initializing s)
  unfolding transition_to
  start_refused s h = ground arith

  initialize_steps-refused :
      (d : Option ℕ) (s : Bunker × W)
      → ¬ CanStart s.0.state
      → Ensures
          (λ _ _. ⊥)
          (λ e t. (is_deadline e.kind ≡ false) × (t ≡ s))
          (initialize_steps env d s)
  unfolding initialize_steps
  initialize_steps-refused d s h = Ensures-bind (start_refused s h) λ _ t p. absurd p

  pub initialize_live :
      (d : Option ℕ) (s : Bunker × W)
      → ¬ CanStart s.0.state
      → Ensures (λ r t. (r ≡ false) × Released env s t) (Unresolved env s) (initialize env d s)
  unfolding initialize
  initialize_live d s h =
      Ensures-except (initialize_steps-refused d s h) (λ r t p. absurd p)
        λ e t p.
          let live : s.0.state ≢ destroyed = λ q. h (inl q) in
          rw p.1 (
            Ensures-weaken (initialize_failed-post env e s live) (λ r u q. q)
              λ x u q. elim q [ inl k ↦ absurd (ground (arith, p.0, k.1)) | inr k ↦ k ])
