-- ===== src/Gpu/Exclusive.antt =====
-- The two tables of lumenos_sandbox/gpu.py: no GPU is given to two machines.
use lumenos_hiper_v.Prelude.{
  Bool, true, false, not, ◌||◌, String, Option, none, some, List, [], ◌∷◌, ◌≡◌, refl, sym, ap, ◌⊎◌,
  inl, inr, is_some, is_nonempty, str_eq, eq_iff, eq_refl, Dict, lookup, insert, lookup-insert,
  lookup-erase, arith, Bool-cases,
}
use lumenos_hiper_v.Gpu.{
  GpuDevice, GpuPassthrough, Dda, assigned_to, released_from, attach, assign_known, assign_to_vm,
  detach, release_known, release_held, release_from_vm,
}

-- A device that knows the machine as its own.
abbrev pub HeldBy : String → Option GpuDevice → Type 0
HeldBy vm_id none = ⊥
HeldBy vm_id (some device) = (device.available ≡ false) × (device.assigned_vm ≡ some vm_id)

abbrev pub Held : String → Option String → Dict GpuDevice → Type 0
Held vm_id none devices = Unit
Held vm_id (some device_id) devices = HeldBy vm_id (lookup device_id devices)

-- Every assignment is known to its device.
abbrev pub Paired : GpuPassthrough → Type 0
Paired g = (vm_id : String) → Held vm_id (lookup vm_id g.assignments) g.devices

-- A device that is written back.
Held-insert :
    (vm_id : String) (o : Option String) (device_id : String) (device : GpuDevice)
    (devices : Dict GpuDevice)
    → Held vm_id o devices
    → (o ≡ some device_id → HeldBy vm_id (some device))
    → Held vm_id o (insert device_id device devices)
Held-insert vm_id none device_id device devices h k = tt
Held-insert vm_id (some other) device_id device devices h k =
    elim (Bool-cases (str_eq device_id other)) [
      | inl t ↦
          rw (lookup-insert device_id other device devices, t)
            (k (ap (λ x. some x) (sym ((eq_iff device_id other).0 t))))
      | inr t ↦ rw (lookup-insert device_id other device devices, t) h
    ]

-- What the tables say of a device that a machine has.
held_device :
    (g : GpuPassthrough) (vm_id device_id : String) (device : GpuDevice)
    → Paired g
    → lookup vm_id g.assignments ≡ some device_id
    → lookup device_id g.devices ≡ some device
    → HeldBy vm_id (some device)
held_device g vm_id device_id device h e l = rw l at (rw e at (h vm_id))

-- Two machines never have the same GPU.
pub Paired-exclusive :
    (g : GpuPassthrough) (u v device_id : String)
    → Paired g
    → lookup u g.assignments ≡ some device_id
    → lookup v g.assignments ≡ some device_id
    → u ≡ v
Paired-exclusive g u v device_id h e f =
    both (lookup device_id g.devices) (rw e at (h u)) (rw f at (h v))
  where
    both : (o : Option GpuDevice) → HeldBy u o → HeldBy v o → u ≡ v
    both none p q = elim p [ ]
    both (some device) p q = ground (arith, p, q)

assigned_to-Paired :
    (g : GpuPassthrough) (device_id vm_id : String) (device : GpuDevice)
    → Paired g
    → lookup device_id g.devices ≡ some device
    → device.available ≡ true
    → Paired (assigned_to device_id vm_id device g)
assigned_to-Paired g device_id vm_id device h l a u = elim (Bool-cases (str_eq vm_id u)) [
  | inl t ↦
      rw
        (
          lookup-insert vm_id u device_id g.assignments,
          t,
          lookup-insert device_id device_id
              (record device { available = false; assigned_vm = some vm_id }) g.devices,
          eq_refl device_id,
        )
        (refl, ap (λ x. some x) ((eq_iff vm_id u).0 t))
  | inr t ↦
      rw (lookup-insert vm_id u device_id g.assignments, t)
        (Held-insert u (lookup u g.assignments) device_id _ g.devices (h u)
          λ q. ground (arith, a, held_device g u device_id device h q l))
]

released_from-Paired :
    (g : GpuPassthrough) (device_id vm_id : String) (device : GpuDevice)
    → Paired g
    → lookup vm_id g.assignments ≡ some device_id
    → lookup device_id g.devices ≡ some device
    → Paired (released_from device_id vm_id device g)
released_from-Paired g device_id vm_id device h e l u = elim (Bool-cases (str_eq vm_id u)) [
  | inl t ↦ rw (lookup-erase vm_id u g.assignments, t) tt
  | inr t ↦
      rw (lookup-erase vm_id u g.assignments, t)
        (Held-insert u (lookup u g.assignments) device_id _ g.devices (h u)
          λ q. ground (arith, t, eq_iff vm_id u, Paired-exclusive g vm_id u device_id h e q))
]

-- A client's call.
pub data Call : Type 0 where
  to_assign : String → String → Call
  to_release : String → Call

module _ {W : Type 0} (dda : Dda W) where
  unfoldable pub after_calls : List Call → GpuPassthrough × W → GpuPassthrough × W
  unfolding assign_to_vm release_from_vm
  after_calls [] s = s
  after_calls (to_assign device_id vm_id ∷ calls) s =
      after_calls calls (assign_to_vm dda device_id vm_id s).1
  after_calls (to_release vm_id ∷ calls) s = after_calls calls (release_from_vm dda vm_id s).1

  -- Nothing was assigned, or a GPU that was free to a machine that had none.
  abbrev pub AssignOutcome :
      Option GpuDevice → String → String → GpuPassthrough → Bool × (GpuPassthrough × W) → Type 0
  AssignOutcome o device_id vm_id g r =
      ((r.0 ≡ false) × (r.1.0 ≡ g))
      ⊎ ((r.0 ≡ true)
          × (device : GpuDevice) × (o ≡ some device)
          × (device.available ≡ true)
          × (lookup vm_id g.assignments ≡ none)
          × (r.1.0 ≡ assigned_to device_id vm_id device g))

  assign_known_outcome :
      (o : Option GpuDevice) (device_id vm_id : String) (s : GpuPassthrough × W)
      → AssignOutcome o device_id vm_id s.0 (assign_known dda o device_id vm_id s)
  assign_known_outcome none device_id vm_id s = inl (refl, refl)
  assign_known_outcome (some device) device_id vm_id (g, w) =
      elim (Bool-cases (not device.available || is_some (lookup vm_id g.assignments))) [
        | inl t ↦ inl (rw t (refl, refl))
        | inr t ↦ elim (Bool-cases (attach dda device_id vm_id w).0) [
          | inl u ↦ inr (
              rw (t, u)
                (
                  refl,
                  device,
                  refl,
                  free_device _ t,
                  without_gpu (lookup vm_id g.assignments) _ t,
                  refl,
                ))
          | inr u ↦ inl (rw (t, u) (refl, refl))
        ]
      ]
    where
      free_device : (b : Bool) → not device.available || b ≡ false → device.available ≡ true
      free_device b t = ground (arith, t)

      without_gpu : (o : Option String) (b : Bool) → b || is_some o ≡ false → o ≡ none
      without_gpu none b t = refl
      without_gpu (some x) b t = ground (arith, t)

  -- `assign_to_vm` answers False and leaves both tables as they are, or it answers True, the GPU was
  -- free, the machine had none, and the tables give it this one.
  pub assign_to_vm_outcome :
      (device_id vm_id : String) (s : GpuPassthrough × W)
      → AssignOutcome
          (lookup device_id s.0.devices)
          device_id
          vm_id
          s.0
          (assign_to_vm dda device_id vm_id s)
  unfolding assign_to_vm
  assign_to_vm_outcome device_id vm_id s =
      assign_known_outcome (lookup device_id s.0.devices) device_id vm_id s

  assign_to_vm-Paired :
      (device_id vm_id : String) (s : GpuPassthrough × W)
      → Paired s.0
      → Paired (assign_to_vm dda device_id vm_id s).1.0
  assign_to_vm-Paired device_id vm_id s h = elim (assign_to_vm_outcome device_id vm_id s) [
    | inl p ↦ rw p.1 h
    | inr p ↦ rw p.5 (assigned_to-Paired s.0 device_id vm_id p.1 h p.2 p.3)
  ]

  release_known-Paired :
      (o : Option GpuDevice) (device_id vm_id : String) (s : GpuPassthrough × W)
      → Paired s.0
      → lookup vm_id s.0.assignments ≡ some device_id
      → lookup device_id s.0.devices ≡ o
      → Paired (release_known dda o device_id vm_id s).1.0
  release_known-Paired none device_id vm_id s h e l = h
  release_known-Paired (some device) device_id vm_id (g, w) h e l =
      elim (Bool-cases (detach dda device_id vm_id w).0) [
        | inl t ↦ rw t (released_from-Paired g device_id vm_id device h e l)
        | inr t ↦ rw t h
      ]

  release_held-Paired :
      (o : Option String) (vm_id : String) (s : GpuPassthrough × W)
      → Paired s.0
      → lookup vm_id s.0.assignments ≡ o
      → Paired (release_held dda o vm_id s).1.0
  release_held-Paired none vm_id s h e = h
  release_held-Paired (some device_id) vm_id s h e = elim (Bool-cases (is_nonempty device_id)) [
    | inl t ↦ rw t (release_known-Paired (lookup device_id s.0.devices) device_id vm_id s h e refl)
    | inr t ↦ rw t h
  ]

  after_calls-Paired :
      (calls : List Call) (s : GpuPassthrough × W) → Paired s.0 → Paired (after_calls calls s).0
  unfolding after_calls release_from_vm
  after_calls-Paired [] s h = h
  after_calls-Paired (to_assign device_id vm_id ∷ calls) s h =
      after_calls-Paired calls _ (assign_to_vm-Paired device_id vm_id s h)
  after_calls-Paired (to_release vm_id ∷ calls) s h =
      after_calls-Paired calls _ (release_held-Paired (lookup vm_id s.0.assignments) vm_id s h refl)

  -- After any assignments and releases, whatever the PowerShell calls answer, no GPU is assigned to two
  -- machines, if every assignment was known to its device at first.
  pub after_calls-exclusive :
      (calls : List Call) (s : GpuPassthrough × W) (u v device_id : String)
      → Paired s.0
      → str_eq u v ≡ false
      → ¬ (
          (lookup u (after_calls calls s).0.assignments ≡ some device_id)
          × (lookup v (after_calls calls s).0.assignments ≡ some device_id))
  after_calls-exclusive calls s u v device_id h d (p, q) =
      let same =
        Paired-exclusive (after_calls calls s).0 u v device_id (after_calls-Paired calls s h) p q in
      ground (arith, d, same, eq_iff u v)
