-- ===== src/Tests/Hosts.antt =====
-- The theorems on the cluster and on the passthrough of GPUs, at small tables.
use lumenos_hiper_v.Prelude.{
  ℕ, ◌*◌, ◌/◌, ◌≤◌, ◌<◌, ◌⊎◌, ◌↔◌, max, Bool, true, false, String, Option, none, some, List, [],
  ◌∷◌, ◌≡◌, refl, All, Dict, lookup, ok,
}
use lumenos_hiper_v.Cluster.{
  HostNode, worker, default_cluster, MultiHostManager, new_cluster, get_online_hosts, register_vm,
}
use lumenos_hiper_v.Cluster.Choice.{Demand, host_score, find_best_host}
use lumenos_hiper_v.Cluster.Best.{FirstBest, find_best_host_outcome}
use lumenos_hiper_v.Cluster.Failover.{to_add, to_register, after_call}
use lumenos_hiper_v.Cluster.Upkeep.{Reached, start, next, Reached-Sane}
use lumenos_hiper_v.Cluster.Registry.{Sane}
use lumenos_hiper_v.Gpu.{nvidia, GpuPassthrough, GpuInfo, Dda, assign_to_vm, detect_gpus}
use lumenos_hiper_v.Gpu.Exclusive.{to_assign, after_calls, after_calls-exclusive}

abbrev demand : Demand
demand = record { memory_mb = 2048; cpu_cores = 2; gpu_count = 0 }

abbrev two_hosts : MultiHostManager
two_hosts = after_call (to_register "vm1" "h1") (
    after_call (to_add "h2" "10.0.0.2" worker)
      (after_call (to_add "h1" "10.0.0.1" worker) (new_cluster default_cluster)))

two_hosts-Reached : Reached default_cluster two_hosts
unfolding after_call lumenos_hiper_v.Prelude.lookup lumenos_hiper_v.Prelude.insert
two_hosts-Reached =
    next (to_register "vm1" "h1")
      (next (to_add "h2" "10.0.0.2" worker)
        (next (to_add "h1" "10.0.0.1" worker) start (refl, refl)) (refl, refl))
      tt

Reached-Sane_example : Sane two_hosts
Reached-Sane_example = Reached-Sane two_hosts-Reached

-- A host that is full, and one that lacks the memory and the cores.
find_best_host_outcome_example :
    let f = host_score two_hosts.config demand in
    let hosts = get_online_hosts two_hosts in
    ((find_best_host demand two_hosts ≡ none) × All (λ host. f host ≤ 100) hosts)
    ⊎ ((host : HostNode) × (find_best_host demand two_hosts ≡ some host)
        × (100 < f host)
        × FirstBest f host hosts)
find_best_host_outcome_example = find_best_host_outcome demand two_hosts

-- A machine that is registered on a second host is still listed by the first.
listed_twice_test :
    let m = (register_vm "vm1" "h2" two_hosts).1 in
    (lookup "vm1" m.vm_hosts ≡ some "h2") × (lookup "h1" m.hosts ≡ lookup "h1" two_hosts.hosts)
unfolding after_call lumenos_hiper_v.Prelude.lookup lumenos_hiper_v.Prelude.insert
listed_twice_test = (refl, refl)

abbrev test_dda : Dda ℕ
test_dda = record {
  dismount_from_host = λ device_id w. (true, w);
  mount_to_host = λ device_id w. (true, w);
  assign_dda = λ device_id vm_id w. (true, w);
  remove_dda = λ device_id vm_id w. (true, w);
}

abbrev query : List GpuInfo
query =
    record {
      device_id = some "PCI0";
      name = some "GeForce";
      adapter_ram = ok 0;
      driver_version = none;
    }
    ∷ []

abbrev one_gpu : GpuPassthrough
one_gpu = record {
  devices =
      (
        "PCI0",
        record {
          device_id = "PCI0";
          name = "GeForce";
          vendor = nvidia;
          memory_mb = 0;
          driver_version = "unknown";
          available = true;
          assigned_vm = none;
        },
      )
      ∷ [];
  assignments = [];
}

abbrev both_ask : GpuPassthrough
both_ask =
    (after_calls test_dda (to_assign "PCI0" "vm1" ∷ to_assign "PCI0" "vm2" ∷ []) (one_gpu, 0)).0

after_calls-exclusive_example : ¬ (
    (lookup "vm1" both_ask.assignments ≡ some "PCI0")
    × (lookup "vm2" both_ask.assignments ≡ some "PCI0"))
unfolding lumenos_hiper_v.Prelude.lookup
after_calls-exclusive_example =
    after_calls-exclusive test_dda (to_assign "PCI0" "vm1" ∷ to_assign "PCI0" "vm2" ∷ [])
      (one_gpu, 0) "vm1" "vm2" "PCI0" (λ vm_id. tt) refl

-- A GPU that is detected again while it is assigned is assigned once more.
assigned_twice_test :
    let s = (assign_to_vm test_dda "PCI0" "vm1" (one_gpu, 0)).1 in
    let t = (detect_gpus (ok query) s.0).1 in
    let u = (assign_to_vm test_dda "PCI0" "vm2" (t, s.1)).1 in
    (lookup "vm1" u.0.assignments ≡ some "PCI0") × (lookup "vm2" u.0.assignments ≡ some "PCI0")
unfolding assign_to_vm detect_gpus lumenos_hiper_v.Prelude.lookup lumenos_hiper_v.Prelude.insert
assigned_twice_test = (refl, refl)
