-- ===== src/Resources.antt =====
-- lumenos_sandbox/resource_manager.py: what each machine was given of the host's memory, cores and
-- GPUs. Memory is in whole megabytes; `int(usage * 1.25)` and the comparisons with a share of the
-- profile's memory are exact for usages below 2^50. Reading the host's resources is not modelled.
pub mod Memory
pub mod Gpus
use lumenos_hiper_v.Prelude.{
  ℕ, ◌+◌, ◌*◌, ◌/◌, ◌-◌, min, max, ltb, leb, ◌==◌, Bool, true, false, ◌||◌, String, Option, none,
  some, List, [], ◌∷◌, is_some, format, Dict, lookup, insert, erase, values, length, sum_of,
  count_if, Exec, pure, raise, modify, gets, value_error, key_error, if◌then◌else◌,
}

pub data ResourceProfile : Type 0 where
  tiny small medium large custom : ResourceProfile

pub data VmState : Type 0 where
  created running paused saved terminated : VmState

abbrev pub vm_state_value : VmState → ℕ
vm_state_value created = 1
vm_state_value running = 2
vm_state_value paused = 3
vm_state_value saved = 4
vm_state_value terminated = 5

pub record ProfileSpec : Type 0 where
  pub memory_mb : ℕ
  pub cpu_cores : ℕ
  pub disk_gb : ℕ

-- `PROFILE_SPECS`, a dict without CUSTOM
abbrev pub profile_specs : ResourceProfile → Option ProfileSpec
profile_specs tiny = some (record { memory_mb = 512; cpu_cores = 1; disk_gb = 10 })
profile_specs small = some (record { memory_mb = 2048; cpu_cores = 2; disk_gb = 50 })
profile_specs medium = some (record { memory_mb = 8192; cpu_cores = 4; disk_gb = 100 })
profile_specs large = some (record { memory_mb = 16384; cpu_cores = 8; disk_gb = 200 })
profile_specs custom = none

pub record VmResourceAlloc : Type 0 where
  pub vm_id : String
  pub profile : ResourceProfile
  pub memory_mb : ℕ
  pub cpu_cores : ℕ
  pub disk_gb : ℕ
  pub gpu_count : ℕ
  pub gpu_memory_mb : ℕ
  pub priority : ℕ
  pub state : VmState
  pub memory_compressed : Bool
  pub created_at : String
  pub last_accessed : String

pub record HostResources : Type 0 where
  pub total_memory_mb : ℕ
  pub available_memory_mb : ℕ
  pub total_cpu_cores : ℕ
  pub available_cpu_cores : ℕ
  pub total_gpu_count : ℕ
  pub available_gpu_count : ℕ
  pub gpu_memory_total_mb : ℕ
  pub gpu_memory_used_mb : ℕ

pub record ResourceManager : Type 0 where
  pub allocations : Dict VmResourceAlloc
  pub host : HostResources

-- `ResourceManager()`, on a host that was detected
abbrev pub new_resource_manager : HostResources → ResourceManager
new_resource_manager host = record { allocations = []; host = host }

-- The allocation that a profile gives, at the two readings of the clock.
abbrev pub new_alloc :
    String → ResourceProfile → ProfileSpec → ℕ → ℕ → String → String → VmResourceAlloc
new_alloc vm_id profile spec gpu_count priority created_at last_accessed = record {
  vm_id = vm_id;
  profile = profile;
  memory_mb = spec.memory_mb;
  cpu_cores = spec.cpu_cores;
  disk_gb = spec.disk_gb;
  gpu_count = gpu_count;
  gpu_memory_mb = 0;
  priority = priority;
  state = created;
  memory_compressed = false;
  created_at = created_at;
  last_accessed = last_accessed;
}

abbrev pub put_alloc : String → VmResourceAlloc → ResourceManager → ResourceManager
put_alloc vm_id alloc m = record m { allocations = insert vm_id alloc m.allocations }

-- `spec = PROFILE_SPECS[profile]` and what follows
abbrev pub allocate_spec :
    Option ProfileSpec
    → String
    → ResourceProfile
    → ℕ
    → ℕ
    → String
    → String
    → Exec ResourceManager VmResourceAlloc
allocate_spec none vm_id profile gpu_count priority created_at last_accessed m =
    raise key_error "ResourceProfile.CUSTOM" m
allocate_spec (some spec) vm_id profile gpu_count priority created_at last_accessed m =
    let alloc = new_alloc vm_id profile spec gpu_count priority created_at last_accessed in
    pure alloc (put_alloc vm_id alloc m)

unfoldable pub allocate :
    String → ResourceProfile → ℕ → ℕ → String → String → Exec ResourceManager VmResourceAlloc
allocate vm_id profile gpu_count priority created_at last_accessed m =
    if is_some (lookup vm_id m.allocations)
    then raise value_error (format ("VM " ∷ vm_id ∷ " already allocated" ∷ [])) m
    else allocate_spec (profile_specs profile) vm_id profile gpu_count priority created_at
        last_accessed m

unfoldable pub deallocate : String → ResourceManager → ResourceManager
deallocate vm_id m = record m { allocations = erase vm_id m.allocations }

unfoldable pub get_allocation : String → ResourceManager → Option VmResourceAlloc
get_allocation vm_id m = lookup vm_id m.allocations

-- The new memory of an allocation whose profile has `base` megabytes.
unfoldable pub ballooned : ℕ → ℕ → ℕ → ℕ
ballooned base memory_mb usage =
    if ltb (usage * 2) base
    then max (base / 4) (usage * 5 / 4)
    else if ltb (base * 4) (usage * 5)
    then min (base * 3 / 2) (usage * 3 / 2)
    else memory_mb

abbrev pub resize : Option ProfileSpec → String → VmResourceAlloc → ℕ → Exec ResourceManager ℕ
resize none vm_id alloc usage m = raise key_error "ResourceProfile.CUSTOM" m
resize (some spec) vm_id alloc usage m =
    let memory_mb = ballooned spec.memory_mb alloc.memory_mb usage in
    pure memory_mb (put_alloc vm_id (record alloc { memory_mb = memory_mb }) m)

abbrev pub resize_known : Option VmResourceAlloc → String → ℕ → Exec ResourceManager ℕ
resize_known none vm_id usage = pure 0
resize_known (some alloc) vm_id usage = resize (profile_specs alloc.profile) vm_id alloc usage

unfoldable pub calculate_dynamic_memory : String → ℕ → Exec ResourceManager ℕ
calculate_dynamic_memory vm_id usage m = resize_known (lookup vm_id m.allocations) vm_id usage m

abbrev is_idle : Option VmResourceAlloc → Bool
is_idle none = false
is_idle (some alloc) =
    vm_state_value alloc.state == vm_state_value paused
    || vm_state_value alloc.state == vm_state_value saved

unfoldable pub should_compress : String → ResourceManager → Bool
should_compress vm_id m = is_idle (lookup vm_id m.allocations)

abbrev pub compress : Option VmResourceAlloc → String → Exec ResourceManager Bool
compress none vm_id m = pure false m
compress (some alloc) vm_id m =
    pure true (put_alloc vm_id (record alloc { memory_compressed = true }) m)

unfoldable pub compress_memory : String → Exec ResourceManager Bool
compress_memory vm_id m = compress (lookup vm_id m.allocations) vm_id m

-- The plan of `calculate_lazy_load`.
pub record LoadPlan : Type 0 where
  pub immediate : List String
  pub deferred : List String

abbrev plan : Option VmResourceAlloc → LoadPlan
plan none = record { immediate = []; deferred = [] }
plan (some alloc) =
    if leb 8 alloc.priority
    then record { immediate = "kernel" ∷ "runtime" ∷ "model" ∷ "data" ∷ []; deferred = [] }
    else if leb 5 alloc.priority
    then record { immediate = "kernel" ∷ "runtime" ∷ []; deferred = "model" ∷ "data" ∷ [] }
    else record { immediate = "kernel" ∷ []; deferred = "runtime" ∷ "model" ∷ "data" ∷ [] }

unfoldable pub calculate_lazy_load : String → ResourceManager → LoadPlan
calculate_lazy_load vm_id m = plan (lookup vm_id m.allocations)

abbrev pub with_gpus : ℕ → ResourceManager → ResourceManager
with_gpus available m = record m { host = record m.host { available_gpu_count = available } }

abbrev pub give_gpu : Option VmResourceAlloc → String → ℕ → Exec ResourceManager Bool
give_gpu none vm_id count m = pure false m
give_gpu (some alloc) vm_id count m =
    if ltb m.host.available_gpu_count count
    then pure false m
    else pure true (
        with_gpus (m.host.available_gpu_count - count)
          (put_alloc vm_id (record alloc { gpu_count = count }) m))

unfoldable pub allocate_gpu : String → ℕ → Exec ResourceManager Bool
allocate_gpu vm_id count m = give_gpu (lookup vm_id m.allocations) vm_id count m

abbrev pub take_gpu : Option VmResourceAlloc → String → ResourceManager → ResourceManager
take_gpu none vm_id m = m
take_gpu (some alloc) vm_id m =
    if ltb 0 alloc.gpu_count
    then with_gpus (m.host.available_gpu_count + alloc.gpu_count)
        (put_alloc vm_id (record alloc { gpu_count = 0 }) m)
    else m

unfoldable pub release_gpu : String → ResourceManager → ResourceManager
release_gpu vm_id m = take_gpu (lookup vm_id m.allocations) vm_id m

-- The counts of `get_summary`; its percentages are floats and left out.
pub record ResourceSummary : Type 0 where
  pub host : HostResources
  pub memory_mb : ℕ
  pub cpu_cores : ℕ
  pub gpu_count : ℕ
  pub vm_count : ℕ
  pub memory_compressed_vms : ℕ

unfoldable pub get_summary : ResourceManager → ResourceSummary
get_summary m = record {
  host = m.host;
  memory_mb = sum_of (λ a. a.memory_mb) (values m.allocations);
  cpu_cores = sum_of (λ a. a.cpu_cores) (values m.allocations);
  gpu_count = sum_of (λ a. a.gpu_count) (values m.allocations);
  vm_count = length m.allocations;
  memory_compressed_vms = count_if (λ a. a.memory_compressed) (values m.allocations);
}

-- A call of a client, with its arguments.
pub data Call : Type 0 where
  to_allocate : String → ResourceProfile → ℕ → ℕ → String → String → Call
  to_deallocate : String → Call
  to_resize : String → ℕ → Call
  to_compress : String → Call
  to_allocate_gpu : String → ℕ → Call
  to_release_gpu : String → Call

-- The manager after a call, whether it returned or raised.
unfoldable pub after_call : Call → ResourceManager → ResourceManager
unfolding allocate deallocate calculate_dynamic_memory compress_memory allocate_gpu release_gpu
after_call (to_allocate vm_id profile gpu_count priority created_at last_accessed) m =
    (allocate vm_id profile gpu_count priority created_at last_accessed m).1
after_call (to_deallocate vm_id) m = deallocate vm_id m
after_call (to_resize vm_id usage) m = (calculate_dynamic_memory vm_id usage m).1
after_call (to_compress vm_id) m = (compress_memory vm_id m).1
after_call (to_allocate_gpu vm_id count) m = (allocate_gpu vm_id count m).1
after_call (to_release_gpu vm_id) m = release_gpu vm_id m

unfoldable pub after_calls : List Call → ResourceManager → ResourceManager
unfolding after_call
after_calls [] m = m
after_calls (call ∷ calls) m = after_calls calls (after_call call m)
