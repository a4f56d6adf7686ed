-- ===== src/Phone.antt =====
-- `PhoneSupport` of lumenos_sandbox/phone_support.py: what a device is found to be, the configs of its
-- machines and how they are started. The answers of the platform, the file system and the programs
-- that are started are arguments; Phone/Machines has what starts and stops a machine.
pub mod Machines
pub mod Bounds
use Prim.Native.Char.{code}
use Prim.Native.String
use lumenos_hiper_v.Prelude.{
  ℕ, ◌*◌, ◌/◌, ◌==◌, min, max, Bool, true, false, not, ◌&&◌, ◌||◌, String, Option, none, some, List,
  [], ◌∷◌, ◌++◌, str_eq, is_nonempty, get_or, Dict, insert, values, Outcome, ok, err, if◌then◌else◌,
}
use lumenos_hiper_v.Monitoring.Patterns.{codes, occurs}
use lumenos_hiper_v.Inspect.{lstrip, rstrip}

pub data DevicePlatform : Type 0 where
  windows_arm64 windows_x64 linux_arm64 android_arm64 ios_arm64 unknown : DevicePlatform

abbrev pub platform_value : DevicePlatform → String
platform_value windows_arm64 = "windows-arm64"
platform_value windows_x64 = "windows-x64"
platform_value linux_arm64 = "linux-arm64"
platform_value android_arm64 = "android-arm64"
platform_value ios_arm64 = "ios-arm64"
platform_value unknown = "unknown"

pub data HypervisorType : Type 0 where
  hyper_v whp kvm qemu no_hypervisor : HypervisorType

abbrev pub hypervisor_value : HypervisorType → String
hypervisor_value hyper_v = "hyper-v"
hypervisor_value whp = "whp"
hypervisor_value kvm = "kvm"
hypervisor_value qemu = "qemu"
hypervisor_value no_hypervisor = "none"

pub record DeviceCapabilities : Type 0 where
  pub platform : DevicePlatform
  pub architecture : String
  pub hypervisor : HypervisorType
  pub total_memory_mb : ℕ
  pub cpu_cores : ℕ
  pub gpu_available : Bool
  pub gpu_type : String
  pub android_api_level : ℕ
  pub termux_available : Bool
  pub max_vm_count : ℕ
  pub features : List String

pub record PhoneVmConfig : Type 0 where
  pub name : String
  pub memory_mb : ℕ
  pub cpu_cores : ℕ
  pub disk_mb : ℕ
  pub image_path : String
  pub gpu_passthrough : Bool
  pub network_isolated : Bool
  pub headless : Bool

pub record PhoneSupport : Type 0 where
  pub capabilities : Option DeviceCapabilities
  pub vms : Dict PhoneVmConfig

-- What the device answers.
pub record Device : Type 0 where
  -- `platform.machine().lower()` and `platform.system().lower()`
  pub machine : String
  pub system : String
  -- /data/data/com.termux, /dev/kvm and /dev/dri
  pub has_termux : Bool
  pub has_dev_kvm : Bool
  pub has_dri : Bool
  pub cpu_count : Option ℕ
  -- what PowerShell prints of the feature, and of the names of the video controllers
  pub hyper_v_feature : Outcome String
  pub video_controllers : Outcome String
  -- the memory in MB, as Windows tells it, and the first MemTotal of /proc/meminfo in kB
  pub windows_memory : Outcome ℕ
  pub meminfo_total : Outcome (Option ℕ)
  -- `int(os.environ["ANDROID_API_LEVEL"])`, none if it is missing or empty
  pub api_level : Outcome (Option ℕ)

-- `text.split("\n")[0]`
unfoldable pub first_line : String → String
first_line String.[] = ""
first_line (String.◌∷◌ c s) =
    let rest = first_line s in if code c == 10 then "" else String.◌∷◌ c rest

-- `part in text`
abbrev pub contains : String → String → Bool
contains part text = occurs (codes part) (codes text)

abbrev pub is_windows : DevicePlatform → Bool
is_windows windows_arm64 = true
is_windows windows_x64 = true
is_windows _ = false

abbrev pub is_android : DevicePlatform → Bool
is_android android_arm64 = true
is_android _ = false

module _ (device : Device) where
  open device use {
    machine, system, has_termux, has_dev_kvm, has_dri, cpu_count, hyper_v_feature,
    video_controllers, windows_memory, meminfo_total, api_level,
  }

  unfoldable pub detect_platform : DevicePlatform
  detect_platform =
      let arm = contains "arm" machine in
      if str_eq system "windows" && arm
      then windows_arm64
      else if str_eq system "windows"
      then windows_x64
      else if str_eq system "linux" && arm
      then (if has_termux then android_arm64 else linux_arm64)
      else if str_eq system "linux"
      then linux_arm64
      else if str_eq system "darwin" && arm
      then ios_arm64
      else unknown

  abbrev pub windows_hypervisor : Outcome String → HypervisorType
  windows_hypervisor (ok stdout) = if contains "Enabled" stdout then hyper_v else whp
  windows_hypervisor (err e) = whp

  unfoldable pub detect_hypervisor : DevicePlatform → HypervisorType
  detect_hypervisor windows_x64 = windows_hypervisor hyper_v_feature
  detect_hypervisor windows_arm64 = windows_hypervisor hyper_v_feature
  detect_hypervisor linux_arm64 = if has_dev_kvm then kvm else qemu
  detect_hypervisor android_arm64 = if has_termux then qemu else no_hypervisor
  detect_hypervisor ios_arm64 = no_hypervisor
  detect_hypervisor unknown = no_hypervisor

  abbrev pub kilobytes_or_default : Outcome (Option ℕ) → ℕ
  kilobytes_or_default (ok (some kb)) = kb / 1024
  kilobytes_or_default (ok none) = 4096
  kilobytes_or_default (err e) = 4096

  abbrev pub megabytes_or_default : Outcome ℕ → ℕ
  megabytes_or_default (ok mb) = mb
  megabytes_or_default (err e) = 4096

  unfoldable pub detect_memory : ℕ
  detect_memory =
      if str_eq system "windows"
      then megabytes_or_default windows_memory
      else if str_eq system "linux"
      then kilobytes_or_default meminfo_total
      else 4096

  abbrev pub named_gpu : Outcome String → Bool × String
  named_gpu (ok stdout) =
      let names = rstrip (lstrip stdout) in
      if is_nonempty names then (true, first_line names) else (false, "")
  named_gpu (err e) = (false, "")

  unfoldable pub detect_gpu : DevicePlatform → Bool × String
  unfolding lstrip rstrip first_line
  detect_gpu windows_x64 = named_gpu video_controllers
  detect_gpu windows_arm64 = named_gpu video_controllers
  detect_gpu linux_arm64 = if has_dri then (true, "DRM/GPU") else (false, "")
  detect_gpu _ = (false, "")

  abbrev pub level_or_zero : Outcome (Option ℕ) → ℕ
  level_or_zero (ok level) = get_or level 0
  level_or_zero (err e) = 0

-- `_detect_features`
abbrev pub hypervisor_features : HypervisorType → List String
hypervisor_features hyper_v = "vm-isolation" ∷ "gpu-passthrough" ∷ "dynamic-memory" ∷ []
hypervisor_features whp = "vm-isolation" ∷ []
hypervisor_features kvm = "vm-isolation" ∷ "gpu-passthrough" ∷ []
hypervisor_features _ = []

abbrev pub platform_features : DevicePlatform → List String
platform_features android_arm64 = "mobile-analysis" ∷ []
platform_features windows_arm64 = "arm-native" ∷ []
platform_features _ = []

abbrev pub detect_features : DevicePlatform → HypervisorType → List String
detect_features plat hv = hypervisor_features hv ++ platform_features plat

module _ (device : Device) where
  unfoldable pub detected : DeviceCapabilities
  unfolding detect_platform detect_hypervisor detect_memory detect_gpu
  detected =
      let plat = detect_platform device in
      let hv = detect_hypervisor device plat in
      let (gpu_available, gpu_type) = detect_gpu device plat in
      record {
        platform = plat;
        architecture = device.machine;
        hypervisor = hv;
        total_memory_mb = detect_memory device;
        cpu_cores = (let count = get_or device.cpu_count 2 in if count == 0 then 2 else count);
        gpu_available = gpu_available;
        gpu_type = gpu_type;
        android_api_level = if is_android plat then level_or_zero device device.api_level else 0;
        termux_available = is_android plat && device.has_termux;
        max_vm_count = max 1 (detect_memory device / 256);
        features = detect_features plat hv;
      }

  abbrev pub detect_capabilities : PhoneSupport → DeviceCapabilities × PhoneSupport
  detect_capabilities phone = (detected, record phone { capabilities = some detected })

  -- `if not self._capabilities: self.detect_capabilities()`
  abbrev pub ensured : PhoneSupport → DeviceCapabilities
  ensured phone = get_or phone.capabilities detected

  abbrev pub config_for : DeviceCapabilities → String → ℕ → ℕ → PhoneVmConfig
  config_for caps name memory_mb cpu_cores =
      let max_mem = min memory_mb (caps.total_memory_mb / 4) in
      let max_cpu = min cpu_cores (caps.cpu_cores / 2) in
      record {
        name = name;
        memory_mb = max 128 max_mem;
        cpu_cores = max 1 max_cpu;
        disk_mb = min 4096 (max_mem * 2);
        image_path = "";
        gpu_passthrough = false;
        network_isolated = true;
        headless = true;
      }

  unfoldable pub create_config : String → ℕ → ℕ → PhoneSupport → PhoneVmConfig × PhoneSupport
  unfolding detected
  create_config name memory_mb cpu_cores phone =
      let caps = ensured phone in
      let config = config_for caps name memory_mb cpu_cores in
      (config, record { capabilities = some caps; vms = insert name config phone.vms })

abbrev pub list_vms : PhoneSupport → List PhoneVmConfig
list_vms phone = values phone.vms
