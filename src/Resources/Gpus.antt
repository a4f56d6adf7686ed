-- ===== src/Resources/Gpus.antt =====
-- The GPUs of the host, those that the machines hold and those that are free, in
-- lumenos_sandbox/resource_manager.py.
use lumenos_hiper_v.Prelude.{
  ℕ, ◌+◌, ltb, true, String, Option, none, some, List, [], ◌∷◌, ◌≡◌, refl, lookup, insert, values,
  sum_of, Distinct, Distinct-insert, Distinct-erase, at_key, sum-insert, sum-erase, if◌then◌else◌,
  arith, is_some,
}
use lumenos_hiper_v.Resources.{
  ProfileSpec, ResourceProfile, ballooned, new_alloc, profile_specs, VmResourceAlloc,
  ResourceManager, allocate, allocate_spec, deallocate, resize, resize_known,
  calculate_dynamic_memory, compress_memory, compress, give_gpu, take_gpu, allocate_gpu,
  release_gpu, Call, to_allocate, to_deallocate, to_resize, to_compress, to_allocate_gpu,
  to_release_gpu, after_call, after_calls,
}

abbrev pub held : VmResourceAlloc → ℕ
held alloc = alloc.gpu_count

-- The GPUs that are held or free.
abbrev pub known_gpus : ResourceManager → ℕ
known_gpus m = sum_of held (values m.allocations) + m.host.available_gpu_count

-- The GPUs that a call hands out although they are still counted as free.
abbrev pub conjured : Call → ResourceManager → ℕ
conjured (to_allocate vm_id profile gpu_count priority created_at last_accessed) m =
    if is_some (lookup vm_id m.allocations)
    then 0
    else (if is_some (profile_specs profile) then gpu_count else 0)
conjured _ m = 0

-- The GPUs that a call takes away from a machine without returning them.
abbrev pub leaked : Call → ResourceManager → ℕ
leaked (to_deallocate vm_id) m = at_key held (lookup vm_id m.allocations)
leaked (to_allocate_gpu vm_id count) m =
    if ltb m.host.available_gpu_count count then 0 else at_key held (lookup vm_id m.allocations)
leaked _ m = 0

abbrev pub all_conjured : List Call → ResourceManager → ℕ
all_conjured [] m = 0
all_conjured (call ∷ calls) m = conjured call m + all_conjured calls (after_call call m)

abbrev pub all_leaked : List Call → ResourceManager → ℕ
all_leaked [] m = 0
all_leaked (call ∷ calls) m = leaked call m + all_leaked calls (after_call call m)

abbrev Balanced : Call → ResourceManager → ResourceManager → Type 0
Balanced call m t =
    (Distinct t.allocations) × (known_gpus t + leaked call m ≡ known_gpus m + conjured call m)

-- An allocation that is written back under its key.
put-known :
    (m : ResourceManager) (vm_id : String) (alloc : VmResourceAlloc)
    → Distinct m.allocations
    → Distinct (insert vm_id alloc m.allocations)
      × (sum_of held (values (insert vm_id alloc m.allocations))
            + at_key held (lookup vm_id m.allocations)
          ≡ sum_of held (values m.allocations) + alloc.gpu_count)
put-known m vm_id alloc d =
    (Distinct-insert vm_id alloc m.allocations d, sum-insert held vm_id alloc m.allocations)

module _ (m : ResourceManager) (vm_id : String) (d : Distinct m.allocations) where
  compress-balance :
      (o : Option VmResourceAlloc)
      → lookup vm_id m.allocations ≡ o
      → Balanced (to_compress vm_id) m (compress o vm_id m).1
  compress-balance none e = (d, refl)
  compress-balance (some alloc) e =
      let p = put-known m vm_id (record alloc { memory_compressed = true }) d in
      (p.0, ground (arith, p.1, e))

  take_gpu-balance :
      (o : Option VmResourceAlloc)
      → lookup vm_id m.allocations ≡ o
      → Balanced (to_release_gpu vm_id) m (take_gpu o vm_id m)
  take_gpu-balance none e = (d, refl)
  take_gpu-balance (some alloc) e =
      let p = put-known m vm_id (record alloc { gpu_count = 0 }) d in ground (arith, p.0, p.1, e)

  give_gpu-balance :
      (o : Option VmResourceAlloc) (count : ℕ)
      → lookup vm_id m.allocations ≡ o
      → Balanced (to_allocate_gpu vm_id count) m (give_gpu o vm_id count m).1
  give_gpu-balance none count e = ground (arith, e)
  give_gpu-balance (some alloc) count e =
      let p = put-known m vm_id (record alloc { gpu_count = count }) d in
      ground (arith, p.0, p.1, e)

  resize-balance :
      (spec : Option ProfileSpec) (alloc : VmResourceAlloc) (usage : ℕ)
      → lookup vm_id m.allocations ≡ some alloc
      → Balanced (to_resize vm_id usage) m (resize spec vm_id alloc usage m).1
  resize-balance none alloc usage e = (d, refl)
  resize-balance (some spec) alloc usage e =
      let p =
        put-known m vm_id
          (record alloc { memory_mb = ballooned spec.memory_mb alloc.memory_mb usage }) d in
      (p.0, ground (arith, p.1, e))

  resize_known-balance :
      (o : Option VmResourceAlloc) (usage : ℕ)
      → lookup vm_id m.allocations ≡ o
      → Balanced (to_resize vm_id usage) m (resize_known o vm_id usage m).1
  resize_known-balance none usage e = (d, refl)
  resize_known-balance (some alloc) usage e =
      resize-balance (profile_specs alloc.profile) alloc usage e

  allocate_spec-balance :
      (spec : Option ProfileSpec) (profile : ResourceProfile) (gpu_count priority : ℕ)
      (created_at last_accessed : String)
      → lookup vm_id m.allocations ≡ none
      → let t =
          (allocate_spec spec vm_id profile gpu_count priority created_at last_accessed m).1 in
        (Distinct t.allocations)
        × (known_gpus t ≡ known_gpus m + (if is_some spec then gpu_count else 0))
  allocate_spec-balance none profile gpu_count priority created_at last_accessed e =
      (d, omega arith)
  allocate_spec-balance (some spec) profile gpu_count priority created_at last_accessed e =
      let p =
        put-known m vm_id (new_alloc vm_id profile spec gpu_count priority created_at last_accessed)
          d in
      (p.0, ground (arith, p.1, e))

  allocate-balance :
      (profile : ResourceProfile) (gpu_count priority : ℕ) (created_at last_accessed : String)
      (o : Option VmResourceAlloc)
      → lookup vm_id m.allocations ≡ o
      → let call = to_allocate vm_id profile gpu_count priority created_at last_accessed in
        Balanced call m (after_call call m)
  unfolding after_call allocate
  allocate-balance profile gpu_count priority created_at last_accessed (some alloc) e =
      rw (after_call, allocate, e) (d, refl)
  allocate-balance profile gpu_count priority created_at last_accessed none e =
      let p =
        allocate_spec-balance (profile_specs profile) profile gpu_count priority created_at
          last_accessed e in
      rw (after_call, allocate, e) (p.0, omega (arith, p.1))

after_call-balance :
    (call : Call) (m : ResourceManager)
    → Distinct m.allocations
    → Balanced call m (after_call call m)
unfolding after_call deallocate calculate_dynamic_memory compress_memory allocate_gpu release_gpu
after_call-balance (to_allocate vm_id profile gpu_count priority created_at last_accessed) m d =
    allocate-balance m vm_id d profile gpu_count priority created_at last_accessed
      (lookup vm_id m.allocations) refl
after_call-balance (to_deallocate vm_id) m d =
    (Distinct-erase vm_id m.allocations d, ground (arith, sum-erase held vm_id m.allocations d))
after_call-balance (to_resize vm_id usage) m d =
    resize_known-balance m vm_id d (lookup vm_id m.allocations) usage refl
after_call-balance (to_compress vm_id) m d =
    compress-balance m vm_id d (lookup vm_id m.allocations) refl
after_call-balance (to_allocate_gpu vm_id count) m d =
    give_gpu-balance m vm_id d (lookup vm_id m.allocations) count refl
after_call-balance (to_release_gpu vm_id) m d =
    take_gpu-balance m vm_id d (lookup vm_id m.allocations) refl

-- From a manager whose machines have distinct ids, the GPUs that are held or free change, over any
-- calls of `allocate`, `deallocate`, `calculate_dynamic_memory`, `compress_memory`, `allocate_gpu`
-- and `release_gpu` with counts that are not negative and no new detection of the host between
-- them, by exactly those that `allocate` hands out without taking them from the free ones, less
-- those that `deallocate` and a second `allocate_gpu` take from a machine without returning them.
pub after_calls-balance :
    (calls : List Call) (m : ResourceManager)
    → Distinct m.allocations
    → known_gpus (after_calls calls m) + all_leaked calls m ≡ known_gpus m + all_conjured calls m
unfolding after_calls
after_calls-balance [] m d = refl
after_calls-balance (call ∷ calls) m d =
    let step = after_call-balance call m d in
    omega (arith, step.1, after_calls-balance calls (after_call call m) step.0)
