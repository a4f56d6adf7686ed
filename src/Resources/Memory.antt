-- ===== src/Resources/Memory.antt =====
-- The memory that the resource manager of lumenos_sandbox/resource_manager.py gives to a machine.
use lumenos_hiper_v.Prelude.{
  ℕ, ◌*◌, ◌/◌, ◌%◌, ◌≤◌, ◌<◌, min, ltb, true, String, Option, none, some, List, [], ◌∷◌, ◌≡◌, refl,
  ◌⊎◌, inl, inr, lookup, insert, values, All, All-insert, All-erase, All-lookup, arith, Bool-cases,
  is_some,
}
use lumenos_hiper_v.Resources.{
  ResourceProfile, tiny, small, medium, large, custom, ProfileSpec, profile_specs, VmResourceAlloc,
  ResourceManager, allocate, allocate_spec, ballooned, resize, resize_known, compress, give_gpu,
  take_gpu, Call, to_allocate, to_deallocate, to_resize, to_compress, to_allocate_gpu,
  to_release_gpu, after_call, after_calls,
}

-- Between a quarter and one and a half of what the profile gives.
abbrev pub Within : Option ProfileSpec → ℕ → ℕ → Type 0
Within none memory_mb cpu_cores = ⊥
Within (some spec) memory_mb cpu_cores =
    (spec.memory_mb ≤ 4 * memory_mb)
    × (2 * memory_mb ≤ 3 * spec.memory_mb)
    × (cpu_cores ≡ spec.cpu_cores)

abbrev pub InBounds : VmResourceAlloc → Type 0
InBounds alloc = Within (profile_specs alloc.profile) alloc.memory_mb alloc.cpu_cores

abbrev pub AllInBounds : ResourceManager → Type 0
AllInBounds m = All InBounds (values m.allocations)

-- A base that is a multiple of four, as those of all the profiles are.
ballooned-bounds :
    (base memory_mb usage : ℕ)
    → base % 4 ≡ 0
    → base ≤ 4 * memory_mb
    → 2 * memory_mb ≤ 3 * base
    → (base ≤ 4 * ballooned base memory_mb usage) × (2 * ballooned base memory_mb usage ≤ 3 * base)
unfolding ballooned
ballooned-bounds base memory_mb usage d l u = ground arith

abbrev Divisible : Option ProfileSpec → Type 0
Divisible none = Unit
Divisible (some spec) = spec.memory_mb % 4 ≡ 0

profile-Divisible : (p : ResourceProfile) → Divisible (profile_specs p)
profile-Divisible tiny = refl
profile-Divisible small = refl
profile-Divisible medium = refl
profile-Divisible large = refl
profile-Divisible custom = tt

put-AllInBounds :
    (m : ResourceManager) (vm_id : String) (alloc : VmResourceAlloc)
    → AllInBounds m
    → InBounds alloc
    → AllInBounds (record m { allocations = insert vm_id alloc m.allocations })
put-AllInBounds m vm_id alloc h k = All-insert InBounds vm_id alloc m.allocations k h

lookup-InBounds :
    (m : ResourceManager) (vm_id : String) (alloc : VmResourceAlloc)
    → AllInBounds m
    → lookup vm_id m.allocations ≡ some alloc
    → InBounds alloc
lookup-InBounds m vm_id alloc h e = All-lookup InBounds vm_id alloc m.allocations h e

allocate-bounds :
    (spec : Option ProfileSpec) (vm_id : String) (profile : ResourceProfile)
    (gpu_count priority : ℕ) (created_at last_accessed : String) (m : ResourceManager)
    → profile_specs profile ≡ spec
    → AllInBounds m
    → AllInBounds (allocate_spec spec vm_id profile gpu_count priority created_at last_accessed m).1
allocate-bounds none vm_id profile gpu_count priority created_at last_accessed m e h = h
allocate-bounds (some spec) vm_id profile gpu_count priority created_at last_accessed m e h =
    put-AllInBounds m vm_id _ h (rw e (omega arith, omega arith, refl))

resize-bounds :
    (spec : Option ProfileSpec) (vm_id : String) (alloc : VmResourceAlloc) (usage : ℕ)
    (m : ResourceManager)
    → profile_specs alloc.profile ≡ spec
    → AllInBounds m
    → InBounds alloc
    → AllInBounds (resize spec vm_id alloc usage m).1
resize-bounds none vm_id alloc usage m e h k = h
resize-bounds (some spec) vm_id alloc usage m e h k =
    let w : Within (some spec) alloc.memory_mb alloc.cpu_cores = rw e at k in
    let b =
      ballooned-bounds spec.memory_mb alloc.memory_mb usage
        (rw e at (profile-Divisible alloc.profile)) w.0 w.1 in
    put-AllInBounds m vm_id _ h (rw e (b.0, b.1, w.2))

-- Each call, at the allocation that it looks up.
module _ (m : ResourceManager) (vm_id : String) (h : AllInBounds m) where
  resize_known-bounds :
      (o : Option VmResourceAlloc) (usage : ℕ)
      → lookup vm_id m.allocations ≡ o
      → AllInBounds (resize_known o vm_id usage m).1
  resize_known-bounds none usage e = h
  resize_known-bounds (some alloc) usage e =
      resize-bounds (profile_specs alloc.profile) vm_id alloc usage m refl h
        (lookup-InBounds m vm_id alloc h e)

  compress-bounds :
      (o : Option VmResourceAlloc)
      → lookup vm_id m.allocations ≡ o
      → AllInBounds (compress o vm_id m).1
  compress-bounds none e = h
  compress-bounds (some alloc) e =
      put-AllInBounds m vm_id (record alloc { memory_compressed = true }) h
        (lookup-InBounds m vm_id alloc h e)

  give_gpu-bounds :
      (o : Option VmResourceAlloc) (count : ℕ)
      → lookup vm_id m.allocations ≡ o
      → AllInBounds (give_gpu o vm_id count m).1
  give_gpu-bounds none count e = h
  give_gpu-bounds (some alloc) count e = elim (Bool-cases (ltb m.host.available_gpu_count count)) [
    | inl t ↦ rw t h
    | inr t ↦ rw t (
        put-AllInBounds m vm_id (record alloc { gpu_count = count }) h
          (lookup-InBounds m vm_id alloc h e))
  ]

  take_gpu-bounds :
      (o : Option VmResourceAlloc)
      → lookup vm_id m.allocations ≡ o
      → AllInBounds (take_gpu o vm_id m)
  take_gpu-bounds none e = h
  take_gpu-bounds (some alloc) e = elim (Bool-cases (ltb 0 alloc.gpu_count)) [
    | inl t ↦ rw t (
        put-AllInBounds m vm_id (record alloc { gpu_count = 0 }) h
          (lookup-InBounds m vm_id alloc h e))
    | inr t ↦ rw t h
  ]

after_call-bounds :
    (call : Call) (m : ResourceManager) → AllInBounds m → AllInBounds (after_call call m)
unfolding after_call allocate
after_call-bounds (to_allocate vm_id profile gpu_count priority created_at last_accessed) m h =
    elim (Bool-cases (is_some (lookup vm_id m.allocations))) [
      | inl t ↦ rw (after_call, allocate, t) h
      | inr t ↦
          rw (after_call, allocate, t)
            (allocate-bounds (profile_specs profile) vm_id profile gpu_count priority created_at
              last_accessed m refl h)
    ]
after_call-bounds (to_deallocate vm_id) m h = All-erase InBounds vm_id m.allocations h
after_call-bounds (to_resize vm_id usage) m h =
    resize_known-bounds m vm_id h (lookup vm_id m.allocations) usage refl
after_call-bounds (to_compress vm_id) m h =
    compress-bounds m vm_id h (lookup vm_id m.allocations) refl
after_call-bounds (to_allocate_gpu vm_id count) m h =
    give_gpu-bounds m vm_id h (lookup vm_id m.allocations) count refl
after_call-bounds (to_release_gpu vm_id) m h =
    take_gpu-bounds m vm_id h (lookup vm_id m.allocations) refl

-- After any calls on a new manager, every machine has the cores of its profile and between a quarter
-- and one and a half of its memory; no machine has the profile CUSTOM.
after_calls-AllInBounds :
    (calls : List Call) (m : ResourceManager) → AllInBounds m → AllInBounds (after_calls calls m)
unfolding after_calls
after_calls-AllInBounds [] m h = h
after_calls-AllInBounds (call ∷ calls) m h =
    after_calls-AllInBounds calls (after_call call m) (after_call-bounds call m h)

-- A machine that uses less than half of its base gets at least what it uses; one that uses more than
-- four fifths gets at least what it uses, up to one and a half of the base; in between it keeps what
-- it has, even if that is less than what it uses.
pub ballooned-Covers :
    (base memory_mb usage : ℕ)
    → ((usage * 2 < base) × (usage ≤ ballooned base memory_mb usage))
      ⊎ (((base * 4 < usage * 5) × (min usage (base * 3 / 2) ≤ ballooned base memory_mb usage))
          ⊎ ((base ≤ usage * 2)
              × (usage * 5 ≤ base * 4)
              × (ballooned base memory_mb usage ≡ memory_mb)))
unfolding ballooned
ballooned-Covers base memory_mb usage = elim (Bool-cases (ltb (usage * 2) base)) [
  | inl t ↦ inl (ground arith)
  | inr t ↦ elim (Bool-cases (ltb (base * 4) (usage * 5))) [
    | inl u ↦ inr (inl (ground arith))
    | inr u ↦ inr (inr (ground arith))
  ]
]
