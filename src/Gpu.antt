-- ===== src/Gpu.antt =====
-- `class GPUPassthrough` of lumenos_sandbox/gpu.py: the GPUs of the host and the machines they are
-- assigned to. The four PowerShell calls, which answer False when they raise, are arguments; so is
-- what the query of `detect_gpus` gives.
pub mod Exclusive
use lumenos_hiper_v.Prelude.{
  ℕ, ◌*◌, ◌/◌, Bool, true, false, ◌||◌, not, String, Option, none, some, List, [], ◌∷◌, is_nonempty,
  is_some, get_or, length, count_if, keep_if, map, Dict, lookup, insert, erase, values, Outcome, ok,
  err, if◌then◌else◌,
}
use lumenos_hiper_v.Monitoring.Patterns.{codes, lower, occurs}

pub data GpuVendor : Type 0 where
  nvidia amd intel unknown_vendor : GpuVendor

pub record GpuDevice : Type 0 where
  pub device_id : String
  pub name : String
  pub vendor : GpuVendor
  pub memory_mb : ℕ
  pub driver_version : String
  pub available : Bool
  pub assigned_vm : Option String

pub record GpuPassthrough : Type 0 where
  pub devices : Dict GpuDevice
  -- from machines to devices
  pub assignments : Dict String

abbrev pub new_passthrough : GpuPassthrough
new_passthrough = record { devices = []; assignments = [] }

-- An entry of the query: a missing key is None; a memory that is no number raises.
pub record GpuInfo : Type 0 where
  pub device_id : Option String
  pub name : Option String
  pub adapter_ram : Outcome ℕ
  pub driver_version : Option String

-- The helpers that run PowerShell.
pub record Dda (W : Type 0) : Type 0 where
  pub dismount_from_host : String → W → Bool × W
  pub mount_to_host : String → W → Bool × W
  pub assign_dda : String → String → W → Bool × W
  pub remove_dda : String → String → W → Bool × W

-- `text in name_lower`
abbrev mentions : String → String → Bool
mentions text name = occurs (codes text) (lower (codes name))

unfoldable pub detect_vendor : String → GpuVendor
detect_vendor name =
    if mentions "nvidia" name || mentions "geforce" name || mentions "quadro" name
    then nvidia
    else if mentions "amd" name || mentions "radeon" name
    then amd
    else if mentions "intel" name
    then intel
    else unknown_vendor

abbrev detected : GpuInfo → ℕ → GpuDevice
detected gpu ram = record {
  device_id = get_or gpu.device_id "";
  name = get_or gpu.name "Unknown GPU";
  vendor = detect_vendor (get_or gpu.name "");
  memory_mb = ram / (1024 * 1024);
  driver_version = get_or gpu.driver_version "unknown";
  available = true;
  assigned_vm = none;
}

-- The loop over the entries, which ends at the first that raises.
unfoldable pub add_detected : List GpuInfo → Dict GpuDevice → Dict GpuDevice
unfolding detect_vendor
add_detected [] devices = devices
add_detected (gpu ∷ gpus) devices = elim gpu.adapter_ram [
  | ok ram ↦ add_detected gpus (insert (get_or gpu.device_id "") (detected gpu ram) devices)
  | err e ↦ devices
]

abbrev query_entries : Outcome (List GpuInfo) → List GpuInfo
query_entries (ok gpus) = gpus
query_entries (err e) = []

-- `detect_gpus`, by what the query and its parsing gave
unfoldable pub detect_gpus :
    Outcome (List GpuInfo) → GpuPassthrough → List GpuDevice × GpuPassthrough
unfolding add_detected
detect_gpus query g =
    let devices = add_detected (query_entries query) [] in
    (values devices, record g { devices = devices })

unfoldable pub get_assignment : String → GpuPassthrough → Option GpuDevice
get_assignment vm_id g = elim (lookup vm_id g.assignments) [
  | none ↦ none
  | some device_id ↦ if is_nonempty device_id then lookup device_id g.devices else none
]

abbrev pub is_available : GpuDevice → Bool
is_available device = device.available

unfoldable pub list_available : GpuPassthrough → List GpuDevice
list_available g = keep_if is_available (values g.devices)

-- The counts of `get_summary`.
pub record GpuSummary : Type 0 where
  pub total_gpus : ℕ
  pub available : ℕ
  pub assigned : ℕ
  pub devices : List GpuDevice

unfoldable pub get_summary : GpuPassthrough → GpuSummary
get_summary g = record {
  total_gpus = length g.devices;
  available = count_if is_available (values g.devices);
  assigned = length g.assignments;
  devices = values g.devices;
}

-- The tables after an assignment and after a release.
abbrev pub assigned_to : String → String → GpuDevice → GpuPassthrough → GpuPassthrough
assigned_to device_id vm_id device g = record {
  devices =
      insert device_id (record device { available = false; assigned_vm = some vm_id }) g.devices;
  assignments = insert vm_id device_id g.assignments;
}

abbrev pub released_from : String → String → GpuDevice → GpuPassthrough → GpuPassthrough
released_from device_id vm_id device g = record {
  devices = insert device_id (record device { available = true; assigned_vm = none }) g.devices;
  assignments = erase vm_id g.assignments;
}

module _ {W : Type 0} (dda : Dda W) where
  open dda use {dismount_from_host, mount_to_host, assign_dda, remove_dda}

  -- The two calls of `assign_to_vm`: the second is made if the first succeeds.
  unfoldable pub attach : String → String → W → Bool × W
  attach device_id vm_id w =
      let (dismounted, w') = dismount_from_host device_id w in
      if dismounted then assign_dda device_id vm_id w' else (false, w')

  abbrev pub assign_known :
      Option GpuDevice → String → String → GpuPassthrough × W → Bool × (GpuPassthrough × W)
  assign_known none device_id vm_id s = (false, s)
  assign_known (some device) device_id vm_id (g, w) =
      if not device.available || is_some (lookup vm_id g.assignments)
      then (false, (g, w))
      else let (attached, w') = attach device_id vm_id w in
        (attached, ((if attached then assigned_to device_id vm_id device g else g), w'))

  unfoldable pub assign_to_vm : String → String → GpuPassthrough × W → Bool × (GpuPassthrough × W)
  unfolding attach
  assign_to_vm device_id vm_id s = assign_known (lookup device_id s.0.devices) device_id vm_id s

  -- The calls of `release_from_vm`; what the mount answers is ignored.
  unfoldable pub detach : String → String → W → Bool × W
  detach device_id vm_id w =
      let (removed, w') = remove_dda device_id vm_id w in
      if removed then (true, (mount_to_host device_id w').1) else (false, w')

  abbrev pub release_known :
      Option GpuDevice → String → String → GpuPassthrough × W → Bool × (GpuPassthrough × W)
  release_known none device_id vm_id s = (false, s)
  release_known (some device) device_id vm_id (g, w) =
      let (removed, w') = detach device_id vm_id w in
      (removed, ((if removed then released_from device_id vm_id device g else g), w'))

  abbrev pub release_held :
      Option String → String → GpuPassthrough × W → Bool × (GpuPassthrough × W)
  release_held none vm_id s = (false, s)
  release_held (some device_id) vm_id s =
      if is_nonempty device_id
      then release_known (lookup device_id s.0.devices) device_id vm_id s
      else (false, s)

  unfoldable pub release_from_vm : String → GpuPassthrough × W → Bool × (GpuPassthrough × W)
  unfolding detach
  release_from_vm vm_id s = release_held (lookup vm_id s.0.assignments) vm_id s
