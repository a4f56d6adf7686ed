-- ===== src/Bunker/CleanUp.antt =====
-- What the clean-up of `Bunker.initialize` in lumenos_sandbox/bunker.py leaves behind, whatever the
-- hypervisor and the host do.
use lumenos_hiper_v.Prelude.{
  true, false, String, Option, ◌≡◌, refl, ap, sym, ◌∙◌, ◌≢◌, ◌⊎◌, inl, inr, arith, is_given, get_or,
  Outcome, ok, err, Ensures-err, Ensures-weaken, Bool-cases, if◌then◌else◌, Bool, continue, handle,
  pure, Exc, Ensures, Ensures-ok, Ensures-bind, is_deadline,
}
use mathlib.Core.Path.{subst}
use lumenos_hiper_v.Types.{destroyed, error, state_eq}
use lumenos_hiper_v.Host.{Env}
use lumenos_hiper_v.Bunker.{Bunker, transition_to}
use lumenos_hiper_v.Bunker.Init.{
  cleanup_vm, cleanup_switch, cleanup_disk, delete_in, cleanup_on_failure, fail_quietly,
  initialize_failed,
}

module _ {W : Type 0} (env : Env W) where
  -- The world after the removal of the machine and of the switch, where the bunker names one.
  abbrev pub without_vm : Option String → W → W
  without_vm vm w = if is_given vm then (env.own.remove_vm (get_or vm "") true w).1 else w

  abbrev pub without_switch : Option String → W → W
  without_switch switch w =
      if is_given switch then (env.own.remove_switch (get_or switch "") w).1 else w

  abbrev pub removed : Bunker × W → W
  removed s = without_switch s.0.switch_name (without_vm s.0.vm_name s.1)

  -- From one world to the next: nothing, or the deletion of a disk.
  abbrev pub DiskDeleted : W → W → Type 0
  DiskDeleted v w = (folder : String) × (disk : String) × (w ≡ delete_in env folder disk v)

  -- From one world to the next: nothing, or a transition to ERROR of a bunker.
  abbrev pub LastMove : W → W → Type 0
  LastMove v w = (w ≡ v) ⊎ ((b : Bunker) × (w ≡ (transition_to env error (b, v)).1.1))

  -- What is left of a bunker that failed at the moment `s`: it is in ERROR and names no resource; and what
  -- was done since is that the machine and the switch that it had named were removed, in this order,
  -- then its disk deleted, and then the bunker saved.
  pub record Released (s t : Bunker × W) : Type 0 where
    pub failed : t.0.state ≡ error
    pub no_vm : is_given t.0.vm_name ≡ false
    pub no_switch : is_given t.0.switch_name ≡ false
    pub calls : (v : W) × DiskDeleted (removed s) v × LastMove v t.1

  -- What is left where a path of the disk could not be resolved: the bunker names no resource and is in
  -- the state that it was in, and the machine and the switch were removed.
  pub record Unresolved (s : Bunker × W) (e : Exc) (t : Bunker × W) : Type 0 where
    pub same_state : t.0.state ≡ s.0.state
    pub no_vm : is_given t.0.vm_name ≡ false
    pub no_switch : is_given t.0.switch_name ≡ false
    pub calls : t.1 ≡ removed s
    pub raised : (path : String) × (env.host.resolve path t.1 ≡ err e)

  cleanup_vm_step :
      (s : Bunker × W) {E : Exc → Bunker × W → Type 0}
      → Ensures
          (λ _ t.
            (t.0.state ≡ s.0.state)
            × (is_given t.0.vm_name ≡ false)
            × (t.0.switch_name ≡ s.0.switch_name)
            × (t.1 ≡ without_vm s.0.vm_name s.1))
          E
          (cleanup_vm env s)
  unfolding cleanup_vm
  cleanup_vm_step s = ground arith

  cleanup_switch_step :
      (s : Bunker × W) {E : Exc → Bunker × W → Type 0}
      → Ensures
          (λ _ t.
            (t.0.state ≡ s.0.state)
            × (t.0.vm_name ≡ s.0.vm_name)
            × (is_given t.0.switch_name ≡ false)
            × (t.1 ≡ without_switch s.0.switch_name s.1))
          E
          (cleanup_switch env s)
  unfolding cleanup_switch
  cleanup_switch_step s = ground arith

  cleanup_disk_step :
      (s : Bunker × W)
      → Ensures
          (λ _ t. (t.0 ≡ s.0) × DiskDeleted s.1 t.1)
          (λ e t. (t ≡ s) × ((path : String) × (env.host.resolve path s.1 ≡ err e)))
          (cleanup_disk env s)
  unfolding cleanup_disk
  cleanup_disk_step (b, w) = folder_known _ refl
    where
      disk_known :
          (folder path : String) (o : Outcome String)
          → env.host.resolve path w ≡ o
          → Ensures
              (λ _ t. (t.0 ≡ b) × DiskDeleted w t.1)
              (λ e t. (t ≡ (b, w)) × ((path : String) × (env.host.resolve path w ≡ err e)))
              (elim o as (λ _. Outcome (Unit {0}) × (Bunker × W)) [
                | err e ↦ (err e, (b, w))
                | ok disk ↦ (ok tt, (b, delete_in env folder disk w))
              ])
      disk_known folder path (ok disk) h = Ensures-ok (refl, (folder, disk, refl))
      disk_known folder path (err e) h = Ensures-err (refl, (path, h))

      folder_known :
          (o : Outcome String)
          → env.host.resolve "snapshots" w ≡ o
          → Ensures
              (λ _ t. (t.0 ≡ b) × DiskDeleted w t.1)
              (λ e t. (t ≡ (b, w)) × ((path : String) × (env.host.resolve path w ≡ err e)))
              (cleanup_disk env (b, w))
      folder_known (ok folder) h = rw (h, cleanup_disk) (disk_known folder _ _ refl)
      folder_known (err e) h = rw (h, cleanup_disk) (Ensures-err (refl, ("snapshots", h)))

  -- The clean-up removes what the bunker names, forgets the names, and leaves the state.
  cleanup_step :
      (s : Bunker × W)
      → Ensures
          (λ _ t.
            (t.0.state ≡ s.0.state)
            × (is_given t.0.vm_name ≡ false)
            × (is_given t.0.switch_name ≡ false)
            × DiskDeleted (removed s) t.1)
          (Unresolved s)
          (cleanup_on_failure env s)
  unfolding cleanup_on_failure
  cleanup_step s = Ensures-bind (cleanup_vm_step s) λ _ s₁ h₁.
      Ensures-bind (cleanup_switch_step s₁) λ _ s₂ h₂.
        let done : s₂.1 ≡ removed s =
          h₂.3 ∙ ap (λ o. without_switch o s₁.1) h₁.2 ∙ ap (without_switch s.0.switch_name) h₁.3 in
        Ensures-weaken (cleanup_disk_step s₂)
          (λ _ t p. (
            ap (λ (b : Bunker). b.state) p.0 ∙ h₂.0 ∙ h₁.0,
            ap (λ (b : Bunker). is_given b.vm_name) p.0 ∙ ap is_given h₂.1 ∙ h₁.1,
            ap (λ (b : Bunker). is_given b.switch_name) p.0 ∙ h₂.2,
            subst (λ (v : W). DiskDeleted v t.1) done p.1,
          ))
          λ e t p. record {
            same_state = ap (λ (q : Bunker × W). q.0.state) p.0 ∙ h₂.0 ∙ h₁.0;
            no_vm = ap (λ (q : Bunker × W). is_given q.0.vm_name) p.0 ∙ ap is_given h₂.1 ∙ h₁.1;
            no_switch = ap (λ (q : Bunker × W). is_given q.0.switch_name) p.0 ∙ h₂.2;
            calls = ap (λ (q : Bunker × W). q.1) p.0 ∙ done;
            raised = (p.1.0, ap (λ (q : Bunker × W). env.host.resolve p.1.0 q.1) p.0 ∙ p.1.1);
          }

  -- From every state but DESTROYED the last transition succeeds, or there is nothing to do.
  fail_state :
      (s : Bunker × W) {E : Exc → Bunker × W → Type 0}
      → s.0.state ≢ destroyed
      → Ensures
          (λ _ t.
            (t.0.state ≡ error) × (t.0.vm_name ≡ s.0.vm_name) × (t.0.switch_name ≡ s.0.switch_name))
          E
          (fail_quietly env s)
  unfolding fail_quietly
  fail_state s h = ground arith

  -- A call whose exceptions are passed over ends in the world that the call left.
  passed_over :
      (q : Outcome Bool × (Bunker × W))
      → let (r, t) = continue q.0 (λ _. pure tt) q.1 in (handle r (λ e. pure tt) t).1.1 ≡ q.1.1
  passed_over (ok r, t) = refl
  passed_over (err e, t) = refl

  fail_world : (s : Bunker × W) → LastMove s.1 (fail_quietly env s).1.1
  unfolding fail_quietly
  fail_world s = elim (Bool-cases (state_eq s.0.state error)) [
    | inl e ↦ rw e (inl refl)
    | inr e ↦ rw e (inr (s.0, passed_over (transition_to env error s)))
  ]

  also :
      {A : Type 0} {Q : A → Bunker × W → Type 0} {E : Exc → Bunker × W → Type 0} (P : W → Type 0)
      (r : Outcome A × (Bunker × W))
      → Ensures Q E r
      → P r.1.1
      → Ensures (λ a t. Q a t × P t.1) E r
  also P (ok a, t) h p = Ensures-ok (h.holds, p)
  also P (err e, t) h p = Ensures-err h.holds

  pub initialize_failed-post :
      (e : Exc) (s : Bunker × W)
      → s.0.state ≢ destroyed
      → Ensures
          (λ r t. (r ≡ false) × Released s t)
          (λ x t. ((x ≡ e) × (is_deadline e.kind ≡ true) × Released s t) ⊎ Unresolved s x t)
          (initialize_failed env e s)
  unfolding initialize_failed
  initialize_failed-post e s h =
      Ensures-bind (Ensures-weaken (cleanup_step s) (λ _ t p. p) (λ x t p. inr p)) λ _ s₁ h₁.
        Ensures-bind
          (also (LastMove s₁.1) (fail_quietly env s₁) (fail_state s₁ (λ q. h (sym h₁.0 ∙ q)))
            (fail_world s₁))
          λ _ s₂ h₂.
            let done : Released s s₂ = record {
              failed = h₂.0.0;
              no_vm = ap is_given h₂.0.1 ∙ h₁.1;
              no_switch = ap is_given h₂.0.2 ∙ h₁.2;
              calls = (s₁.1, h₁.3, h₂.1);
            } in
            elim (Bool-cases (is_deadline e.kind)) [
              | inl d ↦ rw d (Ensures-err (inl (refl, refl, done)))
              | inr d ↦ rw d (Ensures-ok (refl, done))
            ]
