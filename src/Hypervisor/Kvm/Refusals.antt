-- ===== src/Hypervisor/Kvm/Refusals.antt =====
-- What the security layers and the runs of samples get from the backend of
-- lumenos_sandbox/hypervisor/kvm_backend.py.
use lumenos_hiper_v.Prelude.{
  ℕ, suc, zero, Bool, true, false, ◌&&◌, String, Option, none, some, ◌≡◌, ◌≢◌, ◌⊎◌, inl, inr, refl,
  is_given, is_nonempty, Bool-cases, Outcome, ok, err, Exc, guest_telemetry_unavailable,
}
use lumenos_hiper_v.Types.{SecurityLayer, network, filesystem, process, memory, hypervisor}
use lumenos_hiper_v.Hypervisor.{BackendResult}
use lumenos_hiper_v.Hypervisor.Kvm.{ExecStatus, Tools}
use lumenos_hiper_v.Hypervisor.Kvm.Guest.{
  unavailable, result_of, poll, polled, agent_command, execute_in_guest, kvm_backend,
}
use lumenos_hiper_v.Layers
use lumenos_hiper_v.Layers.{Layer, do_verify}

module _ {W : Type 0} (tools : Tools W) where
  abbrev Refused : Outcome Bool × W → W → Type 0
  Refused r w = (e : Exc) × (r ≡ (err e, w)) × (e.kind ≡ guest_telemetry_unavailable)

  do_verify-Kvm :
      (kind : SecurityLayer) (l : Layer) (w : W)
      → kind ≢ hypervisor
      → Refused (do_verify (kvm_backend tools) kind l w) w
  unfolding do_verify kvm_backend
  do_verify-Kvm network l w n = (_, refl, refl)
  do_verify-Kvm filesystem l w n = (_, refl, refl)
  do_verify-Kvm process l w n = (_, refl, refl)
  do_verify-Kvm memory l w n = (_, refl, refl)
  do_verify-Kvm hypervisor l w n = absurd (n refl)

  -- On KVM every layer that has a machine is refused its verification, except the hypervisor layer: the
  -- call raises GuestTelemetryUnavailable, and nothing was done.
  pub verify-Kvm :
      (l : Layer) (w : W)
      → is_given l.vm_name ≡ true
      → l.layer ≢ hypervisor
      → (e : Exc) × (Layers.verify (kvm_backend tools) l w ≡ (err e, w))
        × (e.kind ≡ guest_telemetry_unavailable)
  unfolding Layers.verify
  verify-Kvm l w given n = rw given (do_verify-Kvm l.layer l w n)

  -- A result comes from a poll that said that the command has ended.
  abbrev pub Ended : BackendResult → Type 0
  Ended result =
      (out : String) × (status : ExecStatus) × (tools.status_of out ≡ ok status)
      × (status.exited ≡ true)
      × (result ≡ result_of tools status)

  abbrev Told : BackendResult → Type 0
  Told result = (result ≡ unavailable) ⊎ Ended result

  status-Told :
      (out : String) (o : Outcome ExecStatus) (rest : BackendResult × W) (w : W)
      → tools.status_of out ≡ o
      → Told rest.0
      → Told
          (elim o as (λ _. BackendResult × W) [
            | err e ↦ (unavailable, w)
            | ok status ↦ elim status.exited as (λ _. BackendResult × W) [
              | true ↦ (result_of tools status, w)
              | false ↦ rest
            ]
          ]).0
  status-Told out (err e) rest w h t = inl refl
  status-Told out (ok status) rest w h t = elim (Bool-cases status.exited) [
    | inl e ↦ rw e (inr (out, status, h, e, refl))
    | inr e ↦ rw e t
  ]

  poll-Told : (vm_name pid : String) (n : ℕ) (w : W) → Told (poll tools vm_name pid n w).0
  unfolding poll
  poll-Told vm_name pid zero w = inl refl
  poll-Told vm_name pid (suc n) w =
      let (r, w') =
        agent_command tools vm_name (tools.status_payload pid) 10 (tools.sleep_half w) in
      let rest = poll-Told vm_name pid n w' in
      elim (Bool-cases (r.success && is_nonempty r.out)) [
        | inl e ↦
            rw (poll, e)
              (status-Told r.out (tools.status_of r.out) (poll tools vm_name pid n w') w' refl rest)
        | inr e ↦ rw (poll, e) rest
      ]

  polled-Told :
      (vm_name : String) (o : Outcome (Option String)) (w : W) → Told (polled tools vm_name o w).0
  polled-Told vm_name (ok (some pid)) w = poll-Told vm_name pid 10 w
  polled-Told vm_name (ok none) w = inl refl
  polled-Told vm_name (err e) w = inl refl

  -- A command in a guest on KVM comes to a result that the guest agent gave when it said that the
  -- command had ended, or to the failure that stands for an agent that did not answer.
  pub execute_in_guest_outcome :
      (vm_name command : String) (timeout : ℕ) (w : W)
      → let result = (execute_in_guest tools vm_name command timeout w).0 in
        (result ≡ unavailable) ⊎ Ended result
  unfolding execute_in_guest
  execute_in_guest_outcome vm_name command timeout w =
      let (r, w') = agent_command tools vm_name (tools.exec_payload command) timeout w in
      elim (Bool-cases (r.success && is_nonempty r.out)) [
        | inl e ↦ rw e (polled-Told vm_name (tools.pid_of r.out) w')
        | inr e ↦ rw e (inl refl)
      ]
