-- ===== src/Cluster/Upkeep.antt =====
-- The two tables of a cluster of lumenos_sandbox/multi_host.py over sequences of calls.
use lumenos_hiper_v.Prelude.{
  Bool, true, false, String, Option, none, some, List, [], ◌∷◌, ◌≡◌, refl, sym, ap, ◌∙◌, inl, inr,
  is_nonempty, str_eq, eq_iff, Dict, lookup, erase, lookup-erase, if◌then◌else◌, arith, Bool-cases,
  map,
}
use lumenos_hiper_v.Cluster.{
  HostNode, MultiHostManager, forget_all, remove_known, remove_host, pinged, heartbeat_hosts,
  heartbeat, is_in, with_vms, register_vm, new_cluster, ClusterConfig,
}
use lumenos_hiper_v.Cluster.Failover.{
  unregister_vm, unregister_all, clear_host, must_evict, key_of, evict_host, evict_named,
  evict_offline_vms, Call, to_add, to_remove, to_ping, to_register, to_unregister, to_evict,
  after_call,
}
use lumenos_hiper_v.Cluster.Registry.{
  Lists, At, Sane, At-insert, no_blank-insert, known-nonempty, found-listed, add_host-Sane,
  register_at-Sane, Struck, unregister_at-Struck,
}

unregister_all-Struck :
    (vm_ids : List String) (m : MultiHostManager) (sane : Sane m)
    → Struck m sane (λ u. is_in u vm_ids) (unregister_all vm_ids m)
unfolding unregister_all unregister_vm
unregister_all-Struck [] m sane = (sane, λ u. refl)
unregister_all-Struck (vm_id ∷ vm_ids) m sane =
    let p = unregister_at-Struck m sane (lookup vm_id m.vm_hosts) vm_id refl in
    let q = unregister_all-Struck vm_ids (unregister_vm vm_id m).1 p.0 in
    (q.0, λ u. ground (arith, p.1 u, q.1 u))

module _ (m : MultiHostManager) (sane : Sane m) where
  clear_host-Sane :
      (vm_ids : List String) (name : String) (t : MultiHostManager)
      (struck : Struck m sane (λ u. is_in u vm_ids) t) (host : HostNode) (o : Option HostNode)
      → lookup name m.hosts ≡ some host
      → vm_ids ≡ host.vm_ids
      → lookup name t.hosts ≡ o
      → Sane (clear_host o name t)
  clear_host-Sane vm_ids name t struck host none e v f = struck.0
  clear_host-Sane vm_ids name t struck host (some now) e v f = record {
    no_blank =
        no_blank-insert name (with_vms [] now) t.hosts (known-nonempty m sane name host e)
          struck.0.no_blank;
    located = λ u.
        At-insert u (lookup u t.vm_hosts) name (with_vms [] now) t.hosts (struck.0.located u) λ q.
          elim (Bool-cases (is_in u vm_ids)) [
            | inl b ↦ ground (arith, b, q, struck.1 u)
            | inr b ↦ ground (arith, b, q, struck.1 u, v, found-listed m sane u name host)
          ];
  }

  evict_host-Sane :
      (o : Option HostNode) (name : String) → lookup name m.hosts ≡ o → Sane (evict_host o name m).1
  unfolding evict_host
  evict_host-Sane none name e = sane
  evict_host-Sane (some host) name e = elim (Bool-cases (must_evict host)) [
    | inl t ↦ rw t (
        clear_host-Sane host.vm_ids name (unregister_all host.vm_ids m)
          (unregister_all-Struck host.vm_ids m sane) host
          (lookup name (unregister_all host.vm_ids m).hosts) e refl refl)
    | inr t ↦ rw t sane
  ]

  lookup-forget_all :
      (u : String) (vm_ids : List String) (d : Dict String)
      → lookup u (forget_all vm_ids d) ≡ (if is_in u vm_ids then none else lookup u d)
  unfolding forget_all
  lookup-forget_all u [] d = refl
  lookup-forget_all u (vm_id ∷ vm_ids) d =
      lookup-forget_all u vm_ids (erase vm_id d)
      ∙ ground (arith, lookup-erase vm_id u d, eq_iff u vm_id, eq_iff vm_id u)

  remove-At :
      (u name : String) (host : HostNode)
      → lookup name m.hosts ≡ some host
      → At u (if is_in u host.vm_ids then none else lookup u m.vm_hosts) (erase name m.hosts)
  remove-At u name host e = elim (Bool-cases (is_in u host.vm_ids)) [
    | inl t ↦ rw t tt
    | inr t ↦ rw t (
        kept (lookup u m.vm_hosts) (sane.located u)
          (λ q. ground (arith, t, found-listed m sane u name host q e)))
  ]
    where
      kept : (o : Option String) → At u o m.hosts → ¬ (o ≡ some name) → At u o (erase name m.hosts)
      kept none h k = tt
      kept (some other) h k = elim (Bool-cases (str_eq name other)) [
        | inl t ↦ elim (k (ap (λ x. some x) (sym ((eq_iff name other).0 t)))) [ ]
        | inr t ↦ rw (lookup-erase name other m.hosts, t) h
      ]

  remove_known-Sane :
      (o : Option HostNode) (name : String)
      → lookup name m.hosts ≡ o
      → Sane (remove_known o name m).1
  remove_known-Sane none name e = sane
  remove_known-Sane (some host) name e = record {
    no_blank = lookup-erase name "" m.hosts ∙ ground (arith, sane.no_blank);
    located = λ u. rw (lookup-forget_all u host.vm_ids m.vm_hosts) (remove-At u name host e);
  }

pinged-Lists :
    (stamp : String) (alive : Bool) (u : String) (host : HostNode)
    → Lists u (some host)
    → Lists u (some (pinged stamp alive host))
pinged-Lists stamp true u host h = h
pinged-Lists stamp false u host h = h

-- A ping leaves the hosts and their machines in place.
heartbeat-Lists :
    (ping : String → Bool × String) (u name : String) (hosts : Dict HostNode)
    → Lists u (lookup name hosts)
    → Lists u (lookup name (heartbeat_hosts ping hosts))
unfolding lookup heartbeat_hosts
heartbeat-Lists ping u name [] h = h
heartbeat-Lists ping u name ((key, host) ∷ hosts) h =
    let answer = ping host.address in
    elim (Bool-cases (str_eq key name)) [
      | inl t ↦ rw t (pinged-Lists answer.1 answer.0 u host (rw t at h))
      | inr t ↦ rw t (heartbeat-Lists ping u name hosts (rw t at h))
    ]

heartbeat-blank :
    (ping : String → Bool × String) (name : String) (hosts : Dict HostNode)
    → lookup name hosts ≡ none
    → lookup name (heartbeat_hosts ping hosts) ≡ none
unfolding lookup heartbeat_hosts
heartbeat-blank ping name [] h = h
heartbeat-blank ping name ((key, host) ∷ hosts) h =
    ground (arith, h, heartbeat-blank ping name hosts)

heartbeat-At :
    (ping : String → Bool × String) (u : String) (o : Option String) (hosts : Dict HostNode)
    → At u o hosts
    → At u o (heartbeat_hosts ping hosts)
heartbeat-At ping u none hosts h = tt
heartbeat-At ping u (some name) hosts h = heartbeat-Lists ping u name hosts h

evict_named-Sane :
    (names : List String) (m : MultiHostManager) → Sane m → Sane (evict_named names m).1
unfolding evict_named
evict_named-Sane [] m sane = sane
evict_named-Sane (name ∷ names) m sane =
    evict_named-Sane names (evict_host (lookup name m.hosts) name m).1
      (evict_host-Sane m sane (lookup name m.hosts) name refl)

-- A host is added under a name of its own, which is not empty.
abbrev pub Fits : Call → MultiHostManager → Type 0
Fits (to_add name address role) m = (lookup name m.hosts ≡ none) × (is_nonempty name ≡ true)
Fits _ m = Unit

after_call-Sane :
    (call : Call) (m : MultiHostManager) → Fits call m → Sane m → Sane (after_call call m)
unfolding after_call remove_host register_vm unregister_vm heartbeat evict_offline_vms
after_call-Sane (to_add name address role) m f sane = add_host-Sane m sane name address role f.0 f.1
after_call-Sane (to_remove name) m f sane = remove_known-Sane m sane (lookup name m.hosts) name refl
after_call-Sane (to_ping ping) m f sane = record {
  no_blank = heartbeat-blank ping "" m.hosts sane.no_blank;
  located = λ u. heartbeat-At ping u (lookup u m.vm_hosts) m.hosts (sane.located u);
}
after_call-Sane (to_register vm_id name) m f sane =
    register_at-Sane m sane (lookup name m.hosts) vm_id name refl
after_call-Sane (to_unregister vm_id) m f sane =
    (unregister_at-Struck m sane (lookup vm_id m.vm_hosts) vm_id refl).0
after_call-Sane to_evict m f sane = evict_named-Sane (map key_of m.hosts) m sane

-- The cluster after some calls, each of which fits the cluster it is made on.
pub data Reached (config : ClusterConfig) : MultiHostManager → Type 0 where
  start : Reached config (new_cluster config)
  next :
      (call : Call) {m : MultiHostManager}
      → Reached config m
      → Fits call m
      → Reached config (after_call call m)

-- However the cluster got there, as long as no host was added under an empty name or that of a host
-- in the cluster, a machine that is found by its id is listed by the host it is found on.
pub Reached-Sane : {config : ClusterConfig} {m : MultiHostManager} → Reached config m → Sane m
unfolding lookup
Reached-Sane start = record { no_blank = refl; located = λ u. tt }
Reached-Sane (next call {m} r f) = after_call-Sane call m f (Reached-Sane r)
