-- ===== src/Cluster/Failover.antt =====
-- Taking machines off the hosts of lumenos_sandbox/multi_host.py: `unregister_vm`, and
-- `evict_offline_vms` for the hosts that do not answer.
use lumenos_hiper_v.Prelude.{
  ltb, Bool, true, false, ◌&&◌, String, Option, none, some, List, [], ◌∷◌, ◌++◌, map, is_nonempty,
  str_eq, Dict, lookup, insert, erase, length, if◌then◌else◌,
}
use lumenos_hiper_v.Cluster.{
  status_eq, put_host, add_host, remove_host, heartbeat, is_in, with_vms, register_vm, HostRole,
  HostNode, MultiHostManager, offline,
}

-- `vm_ids.remove(vm_id)`: the first occurrence
unfoldable pub remove_first : String → List String → List String
remove_first vm_id [] = []
remove_first vm_id (other ∷ others) =
    let rest = remove_first vm_id others in if str_eq vm_id other then others else other ∷ rest

-- `host.vm_ids.remove(vm_id)` and the new count, if the machine is there
unfoldable pub strike : Option HostNode → String → String → Dict HostNode → Dict HostNode
unfolding remove_first
strike none vm_id host_name hosts = hosts
strike (some host) vm_id host_name hosts =
    if is_in vm_id host.vm_ids
    then insert host_name (with_vms (remove_first vm_id host.vm_ids) host) hosts
    else hosts

unfoldable pub unregister_at : Option String → String → MultiHostManager → Bool × MultiHostManager
unfolding strike
unregister_at none vm_id m = (false, m)
unregister_at (some host_name) vm_id m =
    if is_nonempty host_name
    then (
      true,
      record m {
        hosts = strike (lookup host_name m.hosts) vm_id host_name m.hosts;
        vm_hosts = erase vm_id m.vm_hosts;
      },
    )
    else (false, m)

unfoldable pub unregister_vm : String → MultiHostManager → Bool × MultiHostManager
unfolding unregister_at
unregister_vm vm_id m = unregister_at (lookup vm_id m.vm_hosts) vm_id m

unfoldable pub unregister_all : List String → MultiHostManager → MultiHostManager
unfolding unregister_vm
unregister_all [] m = m
unregister_all (vm_id ∷ vm_ids) m = unregister_all vm_ids (unregister_vm vm_id m).1

-- `host.vm_ids.clear(); host.vm_count = 0`
abbrev pub clear_host : Option HostNode → String → MultiHostManager → MultiHostManager
clear_host none name m = m
clear_host (some host) name m = put_host name (with_vms [] host) m

abbrev pub must_evict : HostNode → Bool
must_evict host = status_eq host.status offline && ltb 0 (length host.vm_ids)

unfoldable pub evict_host :
    Option HostNode → String → MultiHostManager → List String × MultiHostManager
unfolding unregister_all
evict_host none name m = ([], m)
evict_host (some host) name m =
    if must_evict host
    then (
      host.vm_ids,
      (let m' = unregister_all host.vm_ids m in clear_host (lookup name m'.hosts) name m'),
    )
    else ([], m)

-- The loop over the hosts, which are looked up by name: none is added or removed on the way.
unfoldable pub evict_named : List String → MultiHostManager → List String × MultiHostManager
unfolding evict_host
evict_named [] m = ([], m)
evict_named (name ∷ names) m =
    let (evicted, m') = evict_host (lookup name m.hosts) name m in
    let (more, m'') = evict_named names m' in (evicted ++ more, m'')

abbrev pub key_of : String × HostNode → String
key_of (name, host) = name

unfoldable pub evict_offline_vms : MultiHostManager → List String × MultiHostManager
unfolding evict_named
evict_offline_vms m = evict_named (map key_of m.hosts) m

-- A call of a client.
pub data Call : Type 0 where
  to_add : String → String → HostRole → Call
  to_remove : String → Call
  to_ping : (String → Bool × String) → Call
  to_register : String → String → Call
  to_unregister : String → Call
  to_evict : Call

unfoldable pub after_call : Call → MultiHostManager → MultiHostManager
unfolding add_host remove_host heartbeat register_vm unregister_vm evict_offline_vms
after_call (to_add name address role) m = (add_host name address role m).1
after_call (to_remove name) m = (remove_host name m).1
after_call (to_ping ping) m = (heartbeat ping m).1
after_call (to_register vm_id host_name) m = (register_vm vm_id host_name m).1
after_call (to_unregister vm_id) m = (unregister_vm vm_id m).1
after_call to_evict m = (evict_offline_vms m).1
