-- ===== src/Phone/Machines.antt =====
-- Starting and stopping the machines of lumenos_sandbox/phone_support.py, and what it recommends. Starting
-- a program gives its return code or an exception, a time limit among them.
use lumenos_hiper_v.Prelude.{
  ℕ, ◌*◌, ◌/◌, ◌==◌, min, Bool, true, false, not, String, Option, none, some, List, [], ◌∷◌, format,
  lookup, Outcome, ok, err, if◌then◌else◌,
}
use lumenos_hiper_v.Phone.{
  DevicePlatform, windows_arm64, linux_arm64, android_arm64, ios_arm64, platform_value,
  HypervisorType, hyper_v, whp, kvm, qemu, no_hypervisor, hypervisor_value, DeviceCapabilities,
  PhoneVmConfig, PhoneSupport, Device, detected, ensured,
}

pub record Programs (W : Type 0) : Type 0 where
  -- `subprocess.run(command, timeout=…).returncode`
  pub run : List String → ℕ → W → Outcome ℕ × W
  -- `os.makedirs(os.path.dirname(path), exist_ok=True)`
  pub make_folder : String → W → Outcome (Unit {0}) × W
  pub str : ℕ → String

-- Whether a program ended well: `r.returncode == 0`, and False where an exception was raised.
abbrev pub ended_well : Outcome ℕ → Bool
ended_well (ok returncode) = returncode == 0
ended_well (err e) = false

module _ {W : Type 0} (programs : Programs W) where
  open programs use {run, make_folder, str}

  abbrev pub succeeds : List String → ℕ → W → Bool × W
  succeeds command limit w = let (r, w') = run command limit w in (ended_well r, w')

  -- The script of `_start_whp` and `_start_hyper_v`, after its first lines, for a switch.
  abbrev pub new_vm_script : String → String → PhoneVmConfig → String
  new_vm_script start switch config = format (
      start
      ∷ "                New-VM -Name \""
      ∷ config.name
      ∷ "\" `\n                    -MemoryStartupBytes "
      ∷ str (config.memory_mb * 1024 * 1024)
      ∷ " `\n                    -Generation 2 `\n                    -SwitchName \""
      ∷ switch
      ∷ "\"\n                Set-VM -Name \""
      ∷ config.name
      ∷ "\" -ProcessorCount "
      ∷ str config.cpu_cores
      ∷ "\n                Start-VM -Name \""
      ∷ config.name
      ∷ "\"\n                "
      ∷ [])

  abbrev pub start_whp : PhoneVmConfig → W → Bool × W
  start_whp config =
      succeeds
        ("powershell"
          ∷ "-NoProfile"
          ∷ "-Command"
          ∷ new_vm_script "\n                # WHP on ARM64 uses the same Hyper-V cmdlets\n"
              "Default Switch" config
          ∷ [])
        30

  abbrev pub start_hyper_v : PhoneVmConfig → W → Bool × W
  start_hyper_v config =
      succeeds
        ("powershell" ∷ "-NoProfile" ∷ "-Command" ∷ new_vm_script "\n" "InternalSwitch" config ∷ [])
        30

  abbrev pub image_command : String → PhoneVmConfig → List String
  image_command disk_path config =
      "qemu-img"
      ∷ "create"
      ∷ "-f"
      ∷ "qcow2"
      ∷ disk_path
      ∷ format (str config.disk_mb ∷ "M" ∷ [])
      ∷ []

  abbrev pub qemu_command : String → String → List String → PhoneVmConfig → List String
  qemu_command machine disk_path more config =
      "qemu-system-aarch64"
      ∷ "-machine"
      ∷ machine
      ∷ "-cpu"
      ∷ "cortex-a72"
      ∷ "-m"
      ∷ str config.memory_mb
      ∷ "-smp"
      ∷ str config.cpu_cores
      ∷ "-drive"
      ∷ format ("file=" ∷ disk_path ∷ ",format=qcow2" ∷ [])
      ∷ "-nographic"
      ∷ more

  -- The machine is started only once its disk image was made.
  unfoldable pub create_and_start : String → List String → PhoneVmConfig → W → Bool × W
  create_and_start disk_path start config w =
      let (made, w') = succeeds (image_command disk_path config) 10 w in
      if not made then (false, w') else succeeds start 10 w'

  abbrev pub start_kvm : PhoneVmConfig → W → Bool × W
  start_kvm config =
      let disk_path = format ("/var/lib/lumenos/" ∷ config.name ∷ ".qcow2" ∷ []) in
      create_and_start disk_path
        (qemu_command "virt,gic-version=3" disk_path ("-enable-kvm" ∷ []) config) config

  abbrev pub start_qemu : PhoneVmConfig → W → Bool × W
  start_qemu config w =
      let disk_path = format ("/tmp/lumenos/" ∷ config.name ∷ ".qcow2" ∷ []) in
      let (r, w') = make_folder disk_path w in
      elim r [
        | err e ↦ (false, w')
        | ok u ↦ create_and_start disk_path (qemu_command "virt" disk_path [] config) config w'
      ]

  abbrev pub start_by : HypervisorType → PhoneVmConfig → W → Bool × W
  start_by whp config w = start_whp config w
  start_by kvm config w = start_kvm config w
  start_by qemu config w = start_qemu config w
  start_by hyper_v config w = start_hyper_v config w
  start_by no_hypervisor config w = (false, w)

  unfoldable pub start_vm : Device → PhoneVmConfig → PhoneSupport × W → Bool × (PhoneSupport × W)
  unfolding create_and_start detected
  start_vm device config (phone, w) =
      let caps = ensured device phone in
      let (started, w') = start_by caps.hypervisor config w in
      (started, (record phone { capabilities = some caps }, w'))

  -- `_stop_kvm`, which `_stop_qemu` calls: True unless the program could not be run
  abbrev pub stop_kvm : PhoneVmConfig → W → Bool × W
  stop_kvm config w =
      let (r, w') =
        run ("pkill" ∷ "-f" ∷ format ("qemu-system-aarch64.*" ∷ config.name ∷ []) ∷ []) 5 w in
      (elim r [ ok returncode ↦ true | err e ↦ false ], w')

  abbrev pub stop_by : HypervisorType → PhoneVmConfig → W → Bool × W
  stop_by kvm config w = stop_kvm config w
  stop_by qemu config w = stop_kvm config w
  stop_by _ config w = (false, w)

  abbrev pub stop_known : Option PhoneVmConfig → Option DeviceCapabilities → W → Bool × W
  stop_known (some config) (some caps) w = stop_by caps.hypervisor config w
  stop_known (some config) none w = (false, w)
  stop_known none caps w = (false, w)

  unfoldable pub stop_vm : String → PhoneSupport × W → Bool × (PhoneSupport × W)
  stop_vm name (phone, w) =
      let (stopped, w') = stop_known (lookup name phone.vms) phone.capabilities w in
      (stopped, (phone, w'))

pub record Recommendation : Type 0 where
  pub platform : String
  pub hypervisor : String
  pub max_vms : ℕ
  pub recommended_vm_memory_mb : ℕ
  pub recommended_vm_cpu_cores : ℕ
  pub gpu_passthrough : Bool
  pub features : List String
  pub warnings : List String
  pub tips : List String

abbrev pub warnings_for : DevicePlatform → Bool → List String
warnings_for android_arm64 termux_available =
    "Android: limited memory, use small VMs"
    ∷ (if not termux_available then "Termux not detected — install for QEMU support" ∷ [] else [])
warnings_for ios_arm64 termux_available =
    "iOS: very limited virtualization" ∷ "No KVM/WHP — QEMU user-mode only" ∷ []
warnings_for _ termux_available = []

abbrev pub tips_for : DevicePlatform → List String
tips_for android_arm64 =
    "Use QEMU user-mode for lightweight analysis" ∷ "Keep VMs under 512MB RAM" ∷ []
tips_for windows_arm64 =
    "WHP is native — best performance" ∷ "GPU passthrough available for AI workloads" ∷ []
tips_for linux_arm64 =
    "KVM is native — excellent performance" ∷ "Consider containers for lightweight workloads" ∷ []
tips_for ios_arm64 = "Use QEMU user-mode for binary analysis" ∷ []
tips_for _ = []

unfoldable pub get_recommendation : Device → PhoneSupport → Recommendation × PhoneSupport
unfolding detected
get_recommendation device phone =
    let caps = ensured device phone in
    (
      record {
        platform = platform_value caps.platform;
        hypervisor = hypervisor_value caps.hypervisor;
        max_vms = caps.max_vm_count;
        recommended_vm_memory_mb = min 512 (caps.total_memory_mb / 4);
        recommended_vm_cpu_cores = min 2 (caps.cpu_cores / 2);
        gpu_passthrough = caps.gpu_available;
        features = caps.features;
        warnings = warnings_for caps.platform caps.termux_available;
        tips = tips_for caps.platform;
      },
      record phone { capabilities = some caps },
    )
