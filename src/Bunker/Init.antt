-- ===== src/Bunker/Init.antt =====
-- `Bunker.initialize` of lumenos_sandbox/bunker.py and the clean-up after it fails.
use lumenos_hiper_v.Prelude.{
  ℕ, Bool, true, false, String, Option, none, some, List, [], ◌∷◌, map, get_or, is_given, str_eq,
  ltb, format, Exc, system_error, analysis_deadline_exceeded, Outcome, ok, err, pure, raise, again,
  is_deadline, ◌>>=◌, ◌>>◌, try_except, if◌then◌else◌,
}
use lumenos_hiper_v.Types.{initializing, ready, error, state_eq}
use lumenos_hiper_v.Host.{Env, component_baseline_digest}
use lumenos_hiper_v.Monitoring.Integrity.{IntegrityVerifier, critical_components, set_baseline}
use lumenos_hiper_v.Monitoring.Monitor.{set_vm_credentials}
use lumenos_hiper_v.Layers.{set_layer_credentials}
use lumenos_hiper_v.Bunker.{Method, call, read, on_bunker, stamp, transition_to, get_guest_password}

module _ {W : Type 0} (env : Env W) where
  open env use {host, own}

  -- `_raise_if_deadline_exhausted`
  unfoldable pub raise_if_deadline_exhausted : Option ℕ → Method W (Unit {0})
  raise_if_deadline_exhausted none = pure tt
  raise_if_deadline_exhausted (some deadline) = do
    t ← call (λ w. let (t, w') = host.monotonic w in (ok t, w'))
    if ltb t deadline
        then pure tt
        else raise analysis_deadline_exceeded
            "analysis deadline exceeded during bunker initialization"

  unfoldable pub verify_system_requirements : Method W (Unit {0})
  verify_system_requirements = do
    available ← call own.check_available
    if available then pure tt else raise system_error "Hyper-V/KVM is not available on this host"

  -- The name is set before the switch is made.
  unfoldable pub load_base_image : Method W Bool
  load_base_image = do
    name ← read (λ b. format ("lumenos_" ∷ b.config.id ∷ "_switch" ∷ []))
    on_bunker (λ b. record b { switch_name = some name })
    call (own.create_internal_switch name)

  unfoldable pub allocate_resources : Method W (Unit {0})
  allocate_resources = do
    b ← read (λ b. b)
    let vm = format ("bunker_" ∷ b.config.id ∷ [])
    let disk = host.join "snapshots" (format (b.config.id ∷ "_system.vhdx" ∷ []))
    call (host.make_dir "snapshots")
    success ← call (own.create_vm vm b.config.memory_mb b.config.cpu_cores disk b.switch_name)
    if success
        then on_bunker (λ c. record c { vm_name = some vm })
        else raise system_error (format ("Failed to create VM for bunker " ∷ b.config.id ∷ []))

  unfoldable pub baseline_each : List String → IntegrityVerifier → IntegrityVerifier
  baseline_each [] v = v
  baseline_each (c ∷ cs) v = baseline_each cs (set_baseline c (component_baseline_digest host c) v)

  unfoldable pub initialize_integrity_baseline : Method W (Unit {0})
  unfolding baseline_each
  initialize_integrity_baseline =
      on_bunker (λ b. record b { verifier = baseline_each critical_components b.verifier })

  -- `if self._vm_name: …`, with its deadline check
  unfoldable pub enable_guest : Option ℕ → Method W Bool
  unfolding raise_if_deadline_exhausted
  enable_guest deadline = do
    vm ← read (λ b. b.vm_name)
    if is_given vm
        then (raise_if_deadline_exhausted deadline
            >> call (own.enable_guest_integration (get_or vm "")))
        else pure true

  unfoldable pub propagate_vm_credentials : Method W (Unit {0})
  unfolding get_guest_password
  propagate_vm_credentials = do
    password ← get_guest_password env
    on_bunker (λ b.
        let vm = get_or b.vm_name "" in
        let user = b.config.guest_username in
        record b {
          layers = map (set_layer_credentials vm user password) b.layers;
          monitor = set_vm_credentials vm user password b.monitor;
        })

  -- The `try` of `initialize`.
  unfoldable pub initialize_steps : Option ℕ → Method W Bool
  unfolding transition_to raise_if_deadline_exhausted verify_system_requirements load_base_image
      allocate_resources initialize_integrity_baseline enable_guest propagate_vm_credentials stamp
  initialize_steps deadline = do
    transition_to env initializing
    raise_if_deadline_exhausted deadline
    verify_system_requirements
    raise_if_deadline_exhausted deadline
    load_base_image
    raise_if_deadline_exhausted deadline
    allocate_resources
    raise_if_deadline_exhausted deadline
    initialize_integrity_baseline
    enable_guest deadline
    raise_if_deadline_exhausted deadline
    propagate_vm_credentials
    stamp env (λ t b. record b { created_at = some t })
    transition_to env ready
    pure true

  -- `try: f(name)` with the exception logged, then the name is forgotten.
  abbrev pub quietly : {A : Type 0} → (W → Outcome A × W) → W → W
  quietly f w = (f w).1

  unfoldable pub cleanup_vm : Method W (Unit {0})
  cleanup_vm (b, w) =
      if is_given b.vm_name
      then (
        ok tt,
        (record b { vm_name = none }, quietly (own.remove_vm (get_or b.vm_name "") true) w),
      )
      else (ok tt, (b, w))

  unfoldable pub cleanup_switch : Method W (Unit {0})
  cleanup_switch (b, w) =
      if is_given b.switch_name
      then (
        ok tt,
        (record b { switch_name = none }, quietly (own.remove_switch (get_or b.switch_name "")) w),
      )
      else (ok tt, (b, w))

  unfoldable pub delete_if_there : String → W → Outcome Bool × W
  delete_if_there disk = do
    there ← host.path_exists disk
    if there then own.delete_file disk else pure false

  -- A disk is deleted only if it lies directly in snapshots/, and a failure is logged.
  abbrev pub delete_in : String → String → W → W
  delete_in folder disk w =
      if str_eq (host.parent disk) folder then quietly (delete_if_there disk) w else w

  -- The two paths are resolved outside the `try`.
  unfoldable pub cleanup_disk : Method W (Unit {0})
  unfolding delete_if_there
  cleanup_disk (b, w) = elim (host.resolve "snapshots" w) [
    | err e ↦ (err e, (b, w))
    | ok folder ↦
        elim (host.resolve (host.join folder (format (b.config.id ∷ "_system.vhdx" ∷ []))) w) [
          | err e ↦ (err e, (b, w))
          | ok disk ↦ (ok tt, (b, delete_in folder disk w))
        ]
  ]

  unfoldable pub cleanup_on_failure : Method W (Unit {0})
  unfolding cleanup_vm cleanup_switch cleanup_disk
  cleanup_on_failure = do cleanup_vm; cleanup_switch; cleanup_disk

  -- `if self.state != ERROR: try: self.transition_to(ERROR) except Exception: pass`
  unfoldable pub fail_quietly : Method W (Unit {0})
  unfolding transition_to
  fail_quietly = do
    s ← read (λ b. b.state)
    if state_eq s error
        then pure tt
        else try_except (transition_to env error >> pure tt) (λ e. pure tt)

  -- The `except` of `initialize`.
  unfoldable pub initialize_failed : Exc → Method W Bool
  unfolding cleanup_on_failure fail_quietly
  initialize_failed e = do
    cleanup_on_failure
    fail_quietly
    if is_deadline e.kind then again e else pure false

  unfoldable pub initialize : Option ℕ → Method W Bool
  unfolding initialize_steps initialize_failed
  initialize deadline = try_except (initialize_steps deadline) initialize_failed
