-- ===== src/Cluster/Counts.antt =====
-- The number of machines that a host of lumenos_sandbox/multi_host.py keeps beside their list.
use lumenos_hiper_v.Prelude.{
  Bool, true, false, String, Option, none, some, List, [], ◌∷◌, ◌≡◌, refl, inl, inr, is_nonempty,
  Dict, lookup, insert, values, length, All, All-insert, All-erase, All-lookup, Bool-cases, map,
}
use lumenos_hiper_v.Cluster.{
  HostNode, HostRole, MultiHostManager, new_host, put_host, appoint, coordinator, worker, storage,
  add_host, remove_known, remove_host, pinged, heartbeat_hosts, heartbeat, is_in, with_vms,
  registered, register_at, register_vm, is_online,
}
use lumenos_hiper_v.Cluster.Failover.{
  remove_first, strike, unregister_at, unregister_vm, unregister_all, clear_host, must_evict,
  key_of, evict_host, evict_named, evict_offline_vms, Call, to_add, to_remove, to_ping, to_register,
  to_unregister, to_evict, after_call,
}

abbrev pub Counts : HostNode → Type 0
Counts host = host.vm_count ≡ length host.vm_ids

abbrev pub AllCount : MultiHostManager → Type 0
AllCount m = All Counts (values m.hosts)

appoint-AllCount :
    (role : HostRole) (name : String) (m : MultiHostManager)
    → AllCount m
    → AllCount (appoint role name m)
appoint-AllCount worker name m h = h
appoint-AllCount storage name m h = h
appoint-AllCount coordinator name m h = h

registered-Counts :
    (vm_id : String) (host : HostNode) → Counts host → Counts (registered vm_id host)
registered-Counts vm_id host h = elim (Bool-cases (is_in vm_id host.vm_ids)) [
  | inl t ↦ rw t h
  | inr t ↦ rw t refl
]

module _ (m : MultiHostManager) (h : AllCount m) where
  put-AllCount :
      (name : String) (host : HostNode)
      → Counts host
      → All Counts (values (insert name host m.hosts))
  put-AllCount name host c = All-insert Counts name host m.hosts c h

  register_at-AllCount :
      (o : Option HostNode) (vm_id name : String)
      → lookup name m.hosts ≡ o
      → AllCount (register_at o vm_id name m).1
  register_at-AllCount none vm_id name e = h
  register_at-AllCount (some host) vm_id name e = elim (Bool-cases (is_online host)) [
    | inl t ↦ rw t (
        put-AllCount name (registered vm_id host)
          (registered-Counts vm_id host (All-lookup Counts name host m.hosts h e)))
    | inr t ↦ rw t h
  ]

  strike-AllCount :
      (o : Option HostNode) (vm_id name : String)
      → All Counts (values (strike o vm_id name m.hosts))
  unfolding strike
  strike-AllCount none vm_id name = h
  strike-AllCount (some host) vm_id name = elim (Bool-cases (is_in vm_id host.vm_ids)) [
    | inl t ↦ rw t (put-AllCount name (with_vms (remove_first vm_id host.vm_ids) host) refl)
    | inr t ↦ rw t h
  ]

  unregister_at-AllCount :
      (o : Option String) (vm_id : String) → AllCount (unregister_at o vm_id m).1
  unfolding unregister_at
  unregister_at-AllCount none vm_id = h
  unregister_at-AllCount (some name) vm_id = elim (Bool-cases (is_nonempty name)) [
    | inl t ↦ rw t (strike-AllCount (lookup name m.hosts) vm_id name)
    | inr t ↦ rw t h
  ]

  clear_host-AllCount : (o : Option HostNode) (name : String) → AllCount (clear_host o name m)
  clear_host-AllCount none name = h
  clear_host-AllCount (some host) name = put-AllCount name (with_vms [] host) refl

  remove_known-AllCount : (o : Option HostNode) (name : String) → AllCount (remove_known o name m).1
  remove_known-AllCount none name = h
  remove_known-AllCount (some host) name = All-erase Counts name m.hosts h

unregister_all-AllCount :
    (vm_ids : List String) (m : MultiHostManager) → AllCount m → AllCount (unregister_all vm_ids m)
unfolding unregister_all unregister_vm
unregister_all-AllCount [] m h = h
unregister_all-AllCount (vm_id ∷ vm_ids) m h =
    unregister_all-AllCount vm_ids (unregister_vm vm_id m).1
      (unregister_at-AllCount m h (lookup vm_id m.vm_hosts) vm_id)

evict_host-AllCount :
    (o : Option HostNode) (name : String) (m : MultiHostManager)
    → AllCount m
    → AllCount (evict_host o name m).1
unfolding evict_host
evict_host-AllCount none name m h = h
evict_host-AllCount (some host) name m h = elim (Bool-cases (must_evict host)) [
  | inl t ↦
      let rest = unregister_all host.vm_ids m in
      rw t (
        clear_host-AllCount rest (unregister_all-AllCount host.vm_ids m h) (lookup name rest.hosts)
          name)
  | inr t ↦ rw t h
]

evict_named-AllCount :
    (names : List String) (m : MultiHostManager) → AllCount m → AllCount (evict_named names m).1
unfolding evict_named
evict_named-AllCount [] m h = h
evict_named-AllCount (name ∷ names) m h =
    evict_named-AllCount names (evict_host (lookup name m.hosts) name m).1
      (evict_host-AllCount (lookup name m.hosts) name m h)

pinged-Counts :
    (stamp : String) (alive : Bool) (host : HostNode)
    → Counts host
    → Counts (pinged stamp alive host)
pinged-Counts stamp true host h = h
pinged-Counts stamp false host h = h

heartbeat-AllCount :
    (ping : String → Bool × String) (hosts : Dict HostNode)
    → All Counts (values hosts)
    → All Counts (values (heartbeat_hosts ping hosts))
unfolding values heartbeat_hosts
heartbeat-AllCount ping [] h = tt
heartbeat-AllCount ping ((key, host) ∷ hosts) h = (
  pinged-Counts (ping host.address).1 (ping host.address).0 host h.0,
  heartbeat-AllCount ping hosts h.1,
)

-- Every call keeps, for every host, the count of its machines equal to the length of their list.
pub after_call-AllCount :
    (call : Call) (m : MultiHostManager) → AllCount m → AllCount (after_call call m)
unfolding after_call add_host remove_host register_vm unregister_vm heartbeat evict_offline_vms
after_call-AllCount (to_add name address role) m h =
    appoint-AllCount role name (put_host name (new_host name address role) m)
      (put-AllCount m h name (new_host name address role) refl)
after_call-AllCount (to_remove name) m h = remove_known-AllCount m h (lookup name m.hosts) name
after_call-AllCount (to_ping ping) m h = heartbeat-AllCount ping m.hosts h
after_call-AllCount (to_register vm_id name) m h =
    register_at-AllCount m h (lookup name m.hosts) vm_id name refl
after_call-AllCount (to_unregister vm_id) m h =
    unregister_at-AllCount m h (lookup vm_id m.vm_hosts) vm_id
after_call-AllCount to_evict m h = evict_named-AllCount (map key_of m.hosts) m h
