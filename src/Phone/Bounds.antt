-- ===== src/Phone/Bounds.antt =====
-- The size of the machines that lumenos_sandbox/phone_support.py configures, and the hypervisors that it
-- finds.
use lumenos_hiper_v.Prelude.{
  ℕ, ◌*◌, ◌/◌, ◌≤◌, min, max, String, some, ◌≡◌, refl, arith, lookup, lookup-insert, eq_refl,
}
use lumenos_hiper_v.Phone.{PhoneSupport, Device, ensured, config_for, create_config}

memory-bounds :
    (m t : ℕ)
    → let max_mem = min m (t / 4) in
      let memory = max 128 max_mem in
      (128 ≤ memory)
      × (memory ≤ max 128 m)
      × (512 ≤ t → memory * 4 ≤ t)
      × (min 4096 (max_mem * 2) ≤ 4096)
      × (min 4096 (max_mem * 2) ≤ memory * 2)
memory-bounds m t = omega arith

cpu-bounds : (c k : ℕ) → let cores = max 1 (min c (k / 2)) in (1 ≤ cores) × (2 ≤ k → cores * 2 ≤ k)
cpu-bounds c k = omega arith

-- A config that is made has at least 128 MB and one core, and no more memory than was asked for unless
-- that is less than 128 MB. Four machines of its size fit into a device of 512 MB or more, and two
-- into the cores of a device of two cores or more. Its disk has at most 4096 MB and at most twice the
-- memory. It is kept under its name, and the device is not looked at again.
pub create_config_bounds :
    (device : Device) (name : String) (memory_mb cpu_cores : ℕ) (phone : PhoneSupport)
    → let caps = ensured device phone in
      let (config, after) = create_config device name memory_mb cpu_cores phone in
      (128 ≤ config.memory_mb)
      × (config.memory_mb ≤ max 128 memory_mb)
      × (512 ≤ caps.total_memory_mb → config.memory_mb * 4 ≤ caps.total_memory_mb)
      × (1 ≤ config.cpu_cores)
      × (2 ≤ caps.cpu_cores → config.cpu_cores * 2 ≤ caps.cpu_cores)
      × (config.disk_mb ≤ 4096)
      × (config.disk_mb ≤ config.memory_mb * 2)
      × (lookup name after.vms ≡ some config)
      × (after.capabilities ≡ some caps)
unfolding create_config
create_config_bounds device name memory_mb cpu_cores phone =
    let caps = ensured device phone in
    let m = memory-bounds memory_mb caps.total_memory_mb in
    let c = cpu-bounds cpu_cores caps.cpu_cores in
    let config = config_for device caps name memory_mb cpu_cores in
    (
      m.0,
      m.1,
      m.2,
      c.0,
      c.1,
      m.3,
      m.4,
      ground (arith, lookup-insert name name config phone.vms, eq_refl name),
      refl,
    )
