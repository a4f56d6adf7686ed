-- ===== src/Hypervisor.antt =====
-- lumenos_sandbox/hypervisor/base.py: the interface that every backend implements. A method takes
-- the state of the outside world and returns the new one; any method may raise.
pub mod Mock
pub mod Factory
pub mod Kvm
use lumenos_hiper_v.Prelude.{ℕ, Bool, String, List, Option, Dict, Outcome}

pub record BackendResult : Type 0 where
  pub success : Bool
  pub stdout : String
  pub stderr : String

-- An entry of the guest's event log, with the keys that the code reads.
pub record GuestEvent : Type 0 where
  pub event_id : Option ℕ
  pub message : Option String
  pub process_name : Option String
  pub provider_name : Option String

-- An entry of the guest's process list, with the keys that the code reads.
pub record GuestProcess : Type 0 where
  pub pid : Option ℕ
  pub process_name : Option String

-- What `check_guest_vbs_status` returns, with the keys that the code reads.
pub record VbsStatus : Type 0 where
  pub vbs_enabled : Bool
  pub secure_boot : Bool

pub record HypervisorBackend (W : Type 0) : Type 0 where
  pub check_available : W → Outcome Bool × W
  pub get_vm_status : String → W → Outcome (Option String) × W
  -- the values of the dict as text
  pub get_vm_info : String → W → Outcome (Option (Dict String)) × W
  -- vm_name, memory_mb, cpu_cores, vhd_path, switch_name
  pub create_vm : String → ℕ → ℕ → String → Option String → W → Outcome Bool × W
  pub start_vm : String → W → Outcome Bool × W
  -- vm_name, force
  pub stop_vm : String → Bool → W → Outcome Bool × W
  pub remove_vm : String → Bool → W → Outcome Bool × W
  -- vm_name, checkpoint_name
  pub create_checkpoint : String → String → W → Outcome Bool × W
  pub restore_checkpoint : String → String → W → Outcome Bool × W
  -- base_vhd, diff_vhd
  pub create_differencing_disk : String → String → W → Outcome Bool × W
  pub delete_file : String → W → Outcome Bool × W
  pub create_internal_switch : String → W → Outcome Bool × W
  pub remove_switch : String → W → Outcome Bool × W
  pub verify_host_integrity : W → Outcome BackendResult × W
  pub enable_guest_integration : String → W → Outcome Bool × W
  -- vm_name, username, password, command, timeout
  pub execute_in_guest : String → String → String → String → ℕ → W → Outcome BackendResult × W
  -- vm_name, username, password, block_outbound, allow_dns
  pub configure_guest_firewall : String → String → String → Bool → Bool → W → Outcome Bool × W
  -- vm_name, username, password
  pub test_guest_connectivity : String → String → String → W → Outcome Bool × W
  pub get_guest_processes : String → String → String → W → Outcome (List GuestProcess) × W
  -- vm_name, username, password, process_name
  pub kill_guest_process : String → String → String → String → W → Outcome Bool × W
  pub check_guest_vbs_status : String → String → String → W → Outcome VbsStatus × W
  -- vm_name, username, password, log_name, max_events
  pub read_guest_event_log :
      String → String → String → String → ℕ → W → Outcome (List GuestEvent) × W
  -- vm_name, username, password, key_path
  pub check_guest_registry : String → String → String → String → W → Outcome (List String) × W
  -- vm_name, username, password, sysmon_path
  pub install_sysmon_in_guest : String → String → String → String → W → Outcome Bool × W
