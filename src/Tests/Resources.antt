-- ===== src/Tests/Resources.antt =====
-- The theorems on the resource manager, over a host with four GPUs.
use lumenos_hiper_v.Prelude.{ℕ, ◌+◌, ◌/◌, ◌*◌, ◌≤◌, ◌<◌, ◌⊎◌, min, String, [], ◌∷◌, List, ◌≡◌, refl}
use lumenos_hiper_v.Resources.{
  small, tiny, HostResources, new_resource_manager, Call, to_allocate, to_deallocate, to_resize,
  to_allocate_gpu, after_calls,
}
use lumenos_hiper_v.Resources.Gpus.{known_gpus, all_leaked, all_conjured, after_calls-balance}

abbrev host : HostResources
host = record {
  total_memory_mb = 65536;
  available_memory_mb = 32768;
  total_cpu_cores = 16;
  available_cpu_cores = 16;
  total_gpu_count = 4;
  available_gpu_count = 4;
  gpu_memory_total_mb = 0;
  gpu_memory_used_mb = 0;
}

abbrev calls : List Call
calls =
    to_allocate "a" small 0 5 "t" "t"
    ∷ to_allocate_gpu "a" 2
    ∷ to_allocate_gpu "a" 1
    ∷ to_resize "a" 1900
    ∷ to_allocate "b" tiny 0 9 "t" "t"
    ∷ to_resize "b" 10
    ∷ to_deallocate "a"
    ∷ []

after_calls-balance_example :
    known_gpus (after_calls calls (new_resource_manager host))
      + all_leaked calls (new_resource_manager host)
    ≡ known_gpus (new_resource_manager host) + all_conjured calls (new_resource_manager host)
after_calls-balance_example = after_calls-balance calls (new_resource_manager host) tt

-- The three GPUs of the machine are lost to the host.
known_gpus_test : known_gpus (after_calls calls (new_resource_manager host)) ≡ 1
unfolding after_calls lumenos_hiper_v.Prelude.values lumenos_hiper_v.Prelude.erase
    lumenos_hiper_v.Prelude.lookup lumenos_hiper_v.Prelude.insert
known_gpus_test = refl
