-- ===== src/Cluster/Choice.antt =====
-- The choice of a host for a new machine and the rebalancing plan of lumenos_sandbox/multi_host.py. The
-- score of a host is an integer, and is kept 100 higher, to stay a natural number; `int(fit_ratio * 20)`
-- is exact for memories below 2^40 megabytes.
use lumenos_hiper_v.Prelude.{
  ℕ, ◌+◌, ◌*◌, ◌/◌, ◌-◌, min, max, ltb, leb, ◌&&◌, String, Option, none, some, List, [], ◌∷◌,
  str_eq, Dict, lookup, insert, values, length, take, sum_of, if◌then◌else◌,
}
use lumenos_hiper_v.Cluster.{get_online_hosts, HostNode, ClusterConfig, MultiHostManager}

-- What a new machine asks for.
pub record Demand : Type 0 where
  pub memory_mb : ℕ
  pub cpu_cores : ℕ
  pub gpu_count : ℕ

-- The score of a host in `find_best_host`, raised by 100.
unfoldable pub host_score : ClusterConfig → Demand → HostNode → ℕ
host_score config demand host =
    (if leb demand.memory_mb host.available_memory_mb
      then 40 + demand.memory_mb * 20 / max host.available_memory_mb 1
      else 0)
    + (if leb demand.cpu_cores host.available_cpu_cores then 30 else 0)
    + (if ltb 0 demand.gpu_count && leb demand.gpu_count host.available_gpu_count then 20 else 0)
    + (if ltb host.vm_count config.max_vms_per_host then 110 else 0)

-- `scored.sort(key=…, reverse=True)`: in descending order, equal scores in their old order
unfoldable pub place : (HostNode → ℕ) → HostNode → List HostNode → List HostNode
place f host [] = host ∷ []
place f host (other ∷ others) =
    let rest = place f host others in
    if leb (f other) (f host) then host ∷ other ∷ others else other ∷ rest

unfoldable pub ranked : (HostNode → ℕ) → List HostNode → List HostNode
unfolding place
ranked f [] = []
ranked f (host ∷ hosts) = place f host (ranked f hosts)

-- The first host, if its score is positive.
abbrev pub head_above : (HostNode → ℕ) → List HostNode → Option HostNode
head_above f [] = none
head_above f (host ∷ hosts) = if ltb 100 (f host) then some host else none

unfoldable pub find_best_host : Demand → MultiHostManager → Option HostNode
unfolding ranked host_score get_online_hosts
find_best_host demand m =
    let f = host_score m.config demand in head_above f (ranked f (get_online_hosts m))

-- `host_vms`: the machines of each online host, by its name.
unfoldable pub host_vms : List HostNode → Dict (List String)
host_vms [] = []
host_vms (host ∷ hosts) = (host.name, host.vm_ids) ∷ host_vms hosts

abbrev pub vms_at : Dict (List String) → String → List String
vms_at vms name = elim (lookup name vms) [ none ↦ [] | some vm_ids ↦ vm_ids ]

-- The loop over the other hosts: what moves off `host` to the first of them with room.
unfoldable pub moved : Dict (List String) → ℕ → ℕ → HostNode → List HostNode → Option (List String)
moved vms ideal excess host [] = none
moved vms ideal excess host (other ∷ others) =
    let rest = moved vms ideal excess host others in
    let deficit = ideal - length (vms_at vms other.name) in
    let vms_to_move = take (min excess deficit) (vms_at vms host.name) in
    if str_eq other.name host.name
    then rest
    else if ltb 0 deficit && ltb 0 (length vms_to_move)
    then some vms_to_move
    else rest

abbrev pub record_move : String → Option (List String) → Dict (List String) → Dict (List String)
record_move name none migrations = migrations
record_move name (some vm_ids) migrations = insert name vm_ids migrations

-- The loop over the online hosts.
unfoldable pub plan_moves :
    Dict (List String) → ℕ → List HostNode → List HostNode → Dict (List String) → Dict (List String)
unfolding moved
plan_moves vms ideal all_hosts [] migrations = migrations
plan_moves vms ideal all_hosts (host ∷ hosts) migrations =
    let excess = length (vms_at vms host.name) - ideal in
    let move = if ltb 0 excess then moved vms ideal excess host all_hosts else none in
    plan_moves vms ideal all_hosts hosts (record_move host.name move migrations)

-- `max(1, total_vms // len(online))`
abbrev pub ideal_per_host : List HostNode → ℕ
ideal_per_host hosts = max 1 (sum_of length (values (host_vms hosts)) / length hosts)

unfoldable pub balance_vms : MultiHostManager → Dict (List String)
unfolding get_online_hosts plan_moves host_vms
balance_vms m =
    let hosts = get_online_hosts m in
    if ltb (length hosts) 2
    then []
    else plan_moves (host_vms hosts) (ideal_per_host hosts) hosts hosts []
