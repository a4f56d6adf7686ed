-- ===== src/Hypervisor/Kvm.antt =====
-- lumenos_sandbox/hypervisor/kvm_backend.py over what it calls: `_run`, which starts a program and never
-- raises, the file system, JSON and base64. What is only logged is left out.
pub mod Guest
pub mod Refusals
pub mod Bridge
use Prim.Native.String
use lumenos_hiper_v.Prelude.{
  ℕ, Bool, true, false, not, ◌&&◌, ◌||◌, String, Option, none, some, List, [], ◌∷◌, is_nonempty,
  is_given, get_or, format, Dict, take_text, drop_text, Outcome, ok, err, ExcKind,
  guest_telemetry_unavailable, if◌then◌else◌,
}
use lumenos_hiper_v.Hypervisor.{HypervisorBackend, BackendResult}

-- Whether the program succeeded, and its output and its errors, stripped.
pub record Run : Type 0 where
  pub success : Bool
  pub out : String
  pub errors : String

-- The answer to `guest-exec-status`.
pub record ExecStatus : Type 0 where
  pub exited : Bool
  pub exitcode : ℕ
  pub out_data : String
  pub err_data : String

pub record Tools (W : Type 0) : Type 0 where
  -- the program with its arguments, and its time limit
  pub run : List String → ℕ → W → Run × W
  -- `shutil.which(name) is not None`
  pub which : String → W → Bool
  -- `Path(path).parent.mkdir(parents=True, exist_ok=True)`
  pub make_parent : String → W → Outcome (Unit {0}) × W
  -- `Path(path).unlink(missing_ok=True)`
  pub unlink : String → W → Outcome (Unit {0}) × W
  -- a temporary file with a text in it, by its name
  pub write_temp : String → W → Outcome String × W
  pub sleep_half : W → W
  pub str : ℕ → String
  -- `hashlib.sha256(text.encode()).hexdigest()`, and `int(text, 16)` as a decimal text
  pub sha256 : String → String
  pub decimal_of_hex : String → String
  -- the `guest-exec` and the `guest-exec-status` calls as JSON
  pub exec_payload : String → String
  pub status_payload : String → String
  -- the pid in the answer to `guest-exec`, and the answer to `guest-exec-status`
  pub pid_of : String → Outcome (Option String)
  pub status_of : String → Outcome ExecStatus
  -- `base64.b64decode(text).decode()`
  pub b64decode : String → Outcome String

-- `text[a:b]`
abbrev pub slice_text : ℕ → ℕ → String → String
slice_text a b text = drop_text a (take_text b text)

module _ {W : Type 0} (tools : Tools W) where
  open tools use {
    run, which, make_parent, unlink, write_temp, sleep_half, str, sha256, decimal_of_hex,
    exec_payload, status_payload, pid_of, status_of, b64decode,
  }

  abbrev pub bridge_name : String → String
  bridge_name switch_name = String.◌++◌ "br-" (take_text 12 (sha256 switch_name))

  -- `_isolated_network_xml`
  unfoldable pub isolated_network_xml : String → String
  unfolding take_text drop_text
  isolated_network_xml switch_name =
      let digest = sha256 switch_name in
      format (
        "<network><name>"
        ∷ switch_name
        ∷ "</name>"
        ∷ "<forward mode='none'/>"
        ∷ "<bridge name='"
        ∷ bridge_name switch_name
        ∷ "'/>"
        ∷ "<ip address='10."
        ∷ decimal_of_hex (slice_text 12 14 digest)
        ∷ "."
        ∷ decimal_of_hex (slice_text 14 16 digest)
        ∷ ".1' netmask='255.255.255.0'/>"
        ∷ "</network>"
        ∷ [])

  -- A program of which only the success counts.
  abbrev pub succeeds : List String → ℕ → W → Bool × W
  succeeds command limit w = let (r, w') = run command limit w in (r.success, w')

  abbrev pub answered : {A : Type 0} → A × W → Outcome A × W
  answered (a, w) = (ok a, w)

  unfoldable pub check_available : W → Bool × W
  check_available w =
      if not (which "virsh" w) || not (which "qemu-img" w)
      then (false, w)
      else succeeds ("virsh" ∷ "--version" ∷ []) 5 w

  -- `if ok and out: return …; return None`
  abbrev pub found : {A : Type 0} → (String → A) → Run × W → Option A × W
  found f (r, w) = (if r.success && is_nonempty r.out then some (f r.out) else none, w)

  unfoldable pub get_vm_status : String → W → Option String × W
  get_vm_status vm_name w = found (λ out. out) (run ("virsh" ∷ "domstate" ∷ vm_name ∷ []) 10 w)

  unfoldable pub get_vm_info : String → W → Option (Dict String) × W
  get_vm_info vm_name w =
      found (λ out. ("xml", out) ∷ ("name", vm_name) ∷ [])
        (run ("virsh" ∷ "dumpxml" ∷ vm_name ∷ []) 10 w)

  abbrev pub net_xml : Option String → String
  net_xml switch_name =
      if is_given switch_name
      then format (
          "<interface type='network'><source network='"
          ∷ get_or switch_name ""
          ∷ "'/></interface>"
          ∷ [])
      else ""

  abbrev pub disk_xml : String → String
  disk_xml vhd_path =
      if is_nonempty vhd_path
      then format (
          "<disk type='file' device='disk'><driver name='qemu' type='qcow2'/><source file='"
          ∷ vhd_path ∷ "'/><target dev='vda' bus='virtio'/></disk>" ∷ [])
      else ""

  abbrev pub domain_xml : String → ℕ → ℕ → String → Option String → String
  domain_xml vm_name memory_mb cpu_cores vhd_path switch_name = format (
      "<domain type='kvm'><name>"
      ∷ vm_name
      ∷ "</name><memory unit='MiB'>"
      ∷ str memory_mb
      ∷ "</memory><vcpu>"
      ∷ str cpu_cores
      ∷ "</vcpu><os><type arch='x86_64' machine='pc'>hvm</type><boot dev='hd'/></os><devices>"
      ∷ disk_xml vhd_path
      ∷ net_xml switch_name
      ∷ "<channel type='unix'><target type='virtio' name='org.qemu.guest_agent.0'/></channel></devices></domain>"
      ∷ [])

  -- `finally: try: os.unlink(tmp) except: pass`
  abbrev pub removed : {A : Type 0} → String → A × W → A × W
  removed tmp (a, w) = (a, (unlink tmp w).1)

  abbrev pub define_vm : Outcome String × W → Bool × W
  define_vm (ok tmp, w) = removed tmp (succeeds ("virsh" ∷ "define" ∷ tmp ∷ []) 30 w)
  define_vm (err e, w) = (false, w)

  -- The disk, if a path is given: a folder that cannot be made ends the call, a disk that cannot be
  -- made does not.
  abbrev pub make_disk : String → W → Outcome (Unit {0}) × W
  make_disk vhd_path w =
      if is_nonempty vhd_path
      then (let (r, w') = make_parent vhd_path w in
          elim r [
            | err e ↦ (err e, w')
            | ok u ↦ (
              ok tt,
              (run ("qemu-img" ∷ "create" ∷ "-f" ∷ "qcow2" ∷ vhd_path ∷ "100G" ∷ []) 60 w').1,
            )
          ])
      else (ok tt, w)

  unfoldable pub create_vm : String → ℕ → ℕ → String → Option String → W → Bool × W
  create_vm vm_name memory_mb cpu_cores vhd_path switch_name w =
      let (r, w') = make_disk vhd_path w in
      elim r [
        | err e ↦ (false, w')
        | ok u ↦
            define_vm (write_temp (domain_xml vm_name memory_mb cpu_cores vhd_path switch_name) w')
      ]

  abbrev pub start_vm : String → W → Bool × W
  start_vm vm_name = succeeds ("virsh" ∷ "start" ∷ vm_name ∷ []) 60

  unfoldable pub stop_vm : String → Bool → W → Bool × W
  stop_vm vm_name force =
      succeeds ("virsh" ∷ (if force then "destroy" else "shutdown") ∷ vm_name ∷ []) 60

  -- The machine is stopped by force whatever `force` says.
  unfoldable pub remove_vm : String → Bool → W → Bool × W
  unfolding stop_vm
  remove_vm vm_name force w =
      let (stopped, w₁) = stop_vm vm_name true w in
      let (success, w₂) =
        succeeds ("virsh" ∷ "undefine" ∷ vm_name ∷ "--remove-all-storage" ∷ []) 30 w₁ in
      if not success then succeeds ("virsh" ∷ "undefine" ∷ vm_name ∷ []) 30 w₂ else (success, w₂)

  abbrev pub create_differencing_disk : String → String → W → Outcome Bool × W
  create_differencing_disk base_vhd diff_vhd w =
      let (r, w') = make_parent diff_vhd w in
      elim r [
        | err e ↦ (err e, w')
        | ok u ↦ answered (
            succeeds ("qemu-img" ∷ "create" ∷ "-f" ∷ "qcow2" ∷ "-b" ∷ base_vhd ∷ diff_vhd ∷ []) 30
              w')
      ]

  abbrev pub delete_file : String → W → Bool × W
  delete_file path w = let (r, w') = unlink path w in (elim r [ ok u ↦ true | err e ↦ false ], w')

  -- The network is defined from a temporary file, started and marked for a start with the host.
  abbrev pub define_network : String → String → W → Bool × W
  define_network switch_name tmp w =
      let (success, w₁) = succeeds ("virsh" ∷ "net-define" ∷ tmp ∷ []) 15 w in
      if not success
      then (false, w₁)
      else (let w₂ = (run ("virsh" ∷ "net-start" ∷ switch_name ∷ []) 15 w₁).1 in
          (true, (run ("virsh" ∷ "net-autostart" ∷ switch_name ∷ []) 15 w₂).1))

  unfoldable pub create_internal_switch : String → W → Outcome Bool × W
  unfolding isolated_network_xml
  create_internal_switch switch_name w =
      let (r, w') = write_temp (isolated_network_xml switch_name) w in
      elim r [
        | err e ↦ (err e, w')
        | ok tmp ↦ answered (removed tmp (define_network switch_name tmp w'))
      ]

  -- Always True, whatever became of the network.
  unfoldable pub remove_switch : String → W → Bool × W
  remove_switch switch_name w =
      let w' = (run ("virsh" ∷ "net-destroy" ∷ switch_name ∷ []) 15 w).1 in
      (true, (run ("virsh" ∷ "net-undefine" ∷ switch_name ∷ []) 15 w').1)

  unfoldable pub verify_host_integrity : W → BackendResult × W
  unfolding check_available
  verify_host_integrity w =
      let (available, w') = check_available w in
      (
        if not available
            then record { success = false; stdout = ""; stderr = "KVM not available" }
            else record { success = true; stdout = "KVM available"; stderr = "" },
        w',
      )
