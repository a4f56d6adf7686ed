-- ===== src/Hypervisor/Kvm/Guest.antt =====
-- The guest side of lumenos_sandbox/hypervisor/kvm_backend.py: commands through the guest agent, and what
-- this backend cannot do. `kvm_backend` is the backend as a whole.
use lumenos_hiper_v.Prelude.{
  ℕ, suc, zero, ◌==◌, Bool, true, false, ◌&&◌, String, Option, none, some, [], ◌∷◌, is_nonempty,
  Outcome, ok, err, guest_telemetry_unavailable, format, if◌then◌else◌,
}
use lumenos_hiper_v.Hypervisor.{HypervisorBackend, BackendResult}
use lumenos_hiper_v.Hypervisor.Kvm.{
  Run, ExecStatus, Tools, check_available, get_vm_status, get_vm_info, create_vm, start_vm, stop_vm,
  remove_vm, succeeds, answered, create_differencing_disk, delete_file, create_internal_switch,
  remove_switch, verify_host_integrity,
}

-- `_warn_unsupported_setup`
abbrev pub warn_unsupported_setup : {W : Type 0} → String → W → Outcome Bool × W
warn_unsupported_setup capability w = (ok false, w)

-- `_raise_unsupported`: the text of `GuestTelemetryUnavailable` with its detail
unfoldable pub raise_unsupported : {W A : Type 0} → String → W → Outcome A × W
raise_unsupported capability w = (
  err (record {
    kind = guest_telemetry_unavailable;
    message =
        format
          ("guest telemetry unavailable: " ∷ capability ∷ " (not implemented by KvmBackend)" ∷ []);
  }),
  w,
)

abbrev pub unavailable : BackendResult
unavailable = record {
  success = false;
  stdout = "";
  stderr = "guest agent unavailable — fallback SSH not configured";
}

module _ {W : Type 0} (tools : Tools W) where
  open tools use {run, sleep_half, exec_payload, status_payload, pid_of, status_of, b64decode}

  -- `try: base64.b64decode(text).decode() except: text`
  abbrev pub decoded : String → Outcome String → String
  decoded text (ok stdout) = stdout
  decoded text (err e) = text

  abbrev pub result_of : ExecStatus → BackendResult
  result_of status = record {
    success = status.exitcode == 0;
    stdout = decoded status.out_data (b64decode status.out_data);
    stderr = status.err_data;
  }

  abbrev pub agent_command : String → String → ℕ → W → Run × W
  agent_command vm_name payload limit =
      run ("virsh" ∷ "qemu-agent-command" ∷ vm_name ∷ payload ∷ []) limit

  -- The polls of `guest-exec-status` that are left. An answer that is no JSON ends them.
  unfoldable pub poll : String → String → ℕ → W → BackendResult × W
  poll vm_name pid zero w = (unavailable, w)
  poll vm_name pid (suc n) w =
      let (r, w') = agent_command vm_name (status_payload pid) 10 (sleep_half w) in
      let rest = poll vm_name pid n w' in
      elim (r.success && is_nonempty r.out) [
        | false ↦ rest
        | true ↦ elim (status_of r.out) [
          | err e ↦ (unavailable, w')
          | ok status ↦ elim status.exited [ true ↦ (result_of status, w') | false ↦ rest ]
        ]
      ]

  abbrev pub polled : String → Outcome (Option String) → W → BackendResult × W
  polled vm_name (ok (some pid)) w = poll vm_name pid 10 w
  polled vm_name (ok none) w = (unavailable, w)
  polled vm_name (err e) w = (unavailable, w)

  unfoldable pub execute_in_guest : String → String → ℕ → W → BackendResult × W
  unfolding poll
  execute_in_guest vm_name command timeout w =
      let (r, w') = agent_command vm_name (exec_payload command) timeout w in
      if r.success && is_nonempty r.out then polled vm_name (pid_of r.out) w' else (unavailable, w')

  unfoldable pub kvm_backend : HypervisorBackend W
  unfolding raise_unsupported execute_in_guest stop_vm remove_vm create_vm get_vm_status get_vm_info
      create_internal_switch remove_switch verify_host_integrity check_available
  kvm_backend = record {
    check_available = λ w. answered tools (check_available tools w);
    get_vm_status = λ vm w. answered tools (get_vm_status tools vm w);
    get_vm_info = λ vm w. answered tools (get_vm_info tools vm w);
    create_vm =
        λ vm memory cpus vhd switch w. answered tools (create_vm tools vm memory cpus vhd switch w);
    start_vm = λ vm w. answered tools (start_vm tools vm w);
    stop_vm = λ vm force w. answered tools (stop_vm tools vm force w);
    remove_vm = λ vm force w. answered tools (remove_vm tools vm force w);
    create_checkpoint = λ vm checkpoint w.
        answered tools
          (succeeds tools ("virsh" ∷ "snapshot-create-as" ∷ vm ∷ checkpoint ∷ []) 60 w);
    restore_checkpoint = λ vm checkpoint w.
        answered tools (succeeds tools ("virsh" ∷ "snapshot-revert" ∷ vm ∷ checkpoint ∷ []) 60 w);
    create_differencing_disk = create_differencing_disk tools;
    delete_file = λ path w. answered tools (delete_file tools path w);
    create_internal_switch = create_internal_switch tools;
    remove_switch = λ switch w. answered tools (remove_switch tools switch w);
    verify_host_integrity = λ w. answered tools (verify_host_integrity tools w);
    enable_guest_integration = λ vm. warn_unsupported_setup "enable_guest_integration";
    execute_in_guest = λ vm user password command timeout w.
        answered tools (execute_in_guest vm command timeout w);
    configure_guest_firewall =
        λ vm user password outbound dns. warn_unsupported_setup "configure_guest_firewall";
    test_guest_connectivity = λ vm user password. raise_unsupported "test_guest_connectivity";
    get_guest_processes = λ vm user password. raise_unsupported "get_guest_processes";
    kill_guest_process = λ vm user password name. raise_unsupported "kill_guest_process";
    check_guest_vbs_status = λ vm user password. raise_unsupported "check_guest_vbs_status";
    read_guest_event_log =
        λ vm user password log max_events. raise_unsupported "read_guest_event_log";
    check_guest_registry = λ vm user password key. raise_unsupported "check_guest_registry";
    install_sysmon_in_guest = λ vm user password path. raise_unsupported "install_sysmon_in_guest";
  }
