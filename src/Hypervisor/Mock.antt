-- ===== src/Hypervisor/Mock.antt =====
-- lumenos_sandbox/hypervisor/mock_backend.py, where no test has patched a function: every method
-- returns its safe default and touches nothing.
use lumenos_hiper_v.Prelude.{true, false, none, [], Outcome, ok}
use lumenos_hiper_v.Hypervisor.{HypervisorBackend}

answer : {W A : Type 0} → A → W → Outcome A × W
answer a w = (ok a, w)

unfoldable pub mock_backend : {W : Type 0} → HypervisorBackend W
unfolding answer
mock_backend = record {
  check_available = answer true;
  get_vm_status = λ vm. answer none;
  get_vm_info = λ vm. answer none;
  create_vm = λ vm mem cpus vhd switch. answer true;
  start_vm = λ vm. answer true;
  stop_vm = λ vm force. answer true;
  remove_vm = λ vm force. answer true;
  create_checkpoint = λ vm checkpoint. answer true;
  restore_checkpoint = λ vm checkpoint. answer true;
  create_differencing_disk = λ base diff. answer true;
  delete_file = λ path. answer true;
  create_internal_switch = λ switch. answer true;
  remove_switch = λ switch. answer true;
  verify_host_integrity =
      answer (record { success = true; stdout = "Mock hypervisor — no host checks"; stderr = "" });
  enable_guest_integration = λ vm. answer true;
  execute_in_guest = λ vm user password command timeout.
      answer (record { success = false; stdout = ""; stderr = "Mock backend — guest unavailable" });
  configure_guest_firewall = λ vm user password outbound dns. answer true;
  test_guest_connectivity = λ vm user password. answer true;
  get_guest_processes = λ vm user password. answer [];
  kill_guest_process = λ vm user password name. answer false;
  check_guest_vbs_status =
      λ vm user password. answer (record { vbs_enabled = true; secure_boot = true });
  read_guest_event_log = λ vm user password log max_events. answer [];
  check_guest_registry = λ vm user password key. answer [];
  install_sysmon_in_guest = λ vm user password path. answer false;
}
