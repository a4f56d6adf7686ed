-- ===== src/Cluster.antt =====
-- lumenos_sandbox/multi_host.py: the hosts of a cluster, the machines registered on them. Pings
-- and the clock are arguments.
pub mod Choice
pub mod Best
pub mod Failover
pub mod Registry
pub mod Upkeep
pub mod Counts
use lumenos_hiper_v.Prelude.{
  ℕ, ◌+◌, ◌*◌, ◌/◌, ◌-◌, ◌%◌, min, max, ltb, leb, ◌==◌, Bool, true, false, ◌&&◌, ◌||◌, not, String,
  Option, none, some, List, [], ◌∷◌, ◌++◌, map, is_some, is_nonempty, str_eq, Dict, lookup, insert,
  erase, values, length, keep_if, sum_of, any, if◌then◌else◌,
}

pub data HostStatus : Type 0 where
  unknown online offline maintenance : HostStatus

abbrev pub status_value : HostStatus → ℕ
status_value unknown = 1
status_value online = 2
status_value offline = 3
status_value maintenance = 4

abbrev pub status_eq : HostStatus → HostStatus → Bool
status_eq a b = status_value a == status_value b

pub data HostRole : Type 0 where
  worker coordinator storage : HostRole

pub record HostNode : Type 0 where
  pub name : String
  pub address : String
  pub role : HostRole
  pub status : HostStatus
  pub total_memory_mb : ℕ
  pub available_memory_mb : ℕ
  pub total_cpu_cores : ℕ
  pub available_cpu_cores : ℕ
  pub total_gpu_count : ℕ
  pub available_gpu_count : ℕ
  pub vm_count : ℕ
  pub vm_ids : List String
  pub platform : String
  pub hyper_v_version : String
  pub last_heartbeat : String
  pub tags : List String

pub record ClusterConfig : Type 0 where
  pub name : String
  pub coordinator : String
  pub load_balance : Bool
  pub max_vms_per_host : ℕ
  pub heartbeat_interval_seconds : ℕ
  pub auto_evict_offline : Bool
  pub gpu_sharing : Bool

abbrev pub default_cluster : ClusterConfig
default_cluster = record {
  name = "lumenos-cluster";
  coordinator = "";
  load_balance = true;
  max_vms_per_host = 10;
  heartbeat_interval_seconds = 30;
  auto_evict_offline = true;
  gpu_sharing = true;
}

pub record MultiHostManager : Type 0 where
  pub config : ClusterConfig
  pub hosts : Dict HostNode
  pub vm_hosts : Dict String

abbrev pub new_cluster : ClusterConfig → MultiHostManager
new_cluster config = record { config = config; hosts = []; vm_hosts = [] }

-- `HostNode(name=…, address=…, role=…, status=HostStatus.ONLINE)`
abbrev pub new_host : String → String → HostRole → HostNode
new_host name address role = record {
  name = name;
  address = address;
  role = role;
  status = online;
  total_memory_mb = 0;
  available_memory_mb = 0;
  total_cpu_cores = 0;
  available_cpu_cores = 0;
  total_gpu_count = 0;
  available_gpu_count = 0;
  vm_count = 0;
  vm_ids = [];
  platform = "windows-x64";
  hyper_v_version = "";
  last_heartbeat = "";
  tags = [];
}

abbrev pub put_host : String → HostNode → MultiHostManager → MultiHostManager
put_host name host m = record m { hosts = insert name host m.hosts }

abbrev pub appoint : HostRole → String → MultiHostManager → MultiHostManager
appoint coordinator name m = record m { config = record m.config { coordinator = name } }
appoint _ name m = m

unfoldable pub add_host :
    String → String → HostRole → MultiHostManager → HostNode × MultiHostManager
add_host name address role m =
    let host = new_host name address role in (host, appoint role name (put_host name host m))

-- `for vm_id in vm_ids: if vm_id in d: del d[vm_id]`
unfoldable pub forget_all : List String → Dict String → Dict String
forget_all [] d = d
forget_all (vm_id ∷ vm_ids) d = forget_all vm_ids (erase vm_id d)

abbrev pub remove_known : Option HostNode → String → MultiHostManager → Bool × MultiHostManager
remove_known none name m = (false, m)
remove_known (some host) name m =
    (true, record m { hosts = erase name m.hosts; vm_hosts = forget_all host.vm_ids m.vm_hosts })

unfoldable pub remove_host : String → MultiHostManager → Bool × MultiHostManager
unfolding forget_all
remove_host name m = remove_known (lookup name m.hosts) name m

unfoldable pub get_host : String → MultiHostManager → Option HostNode
get_host name m = lookup name m.hosts

abbrev pub is_online : HostNode → Bool
is_online host = status_eq host.status online

unfoldable pub get_online_hosts : MultiHostManager → List HostNode
get_online_hosts m = keep_if is_online (values m.hosts)

-- `host.status` after a ping: its answer is None if it raised.
abbrev pub pinged : String → Bool → HostNode → HostNode
pinged stamp true host = record host { status = online; last_heartbeat = stamp }
pinged stamp false host = record host { status = offline }

-- `heartbeat`, by the answer and the time of each ping
unfoldable pub heartbeat_hosts : (String → Bool × String) → Dict HostNode → Dict HostNode
heartbeat_hosts ping [] = []
heartbeat_hosts ping ((name, host) ∷ hosts) =
    let rest = heartbeat_hosts ping hosts in
    let (alive, stamp) = ping host.address in (name, pinged stamp alive host) ∷ rest

abbrev status_of : String × HostNode → String × HostStatus
status_of (name, host) = (name, host.status)

unfoldable pub heartbeat :
    (String → Bool × String) → MultiHostManager → Dict HostStatus × MultiHostManager
unfolding heartbeat_hosts
heartbeat ping m =
    let hosts = heartbeat_hosts ping m.hosts in (map status_of hosts, record m { hosts = hosts })

abbrev pub is_in : String → List String → Bool
is_in vm_id vm_ids = any (str_eq vm_id) vm_ids

abbrev pub with_vms : List String → HostNode → HostNode
with_vms vm_ids host = record host { vm_ids = vm_ids; vm_count = length vm_ids }

abbrev pub registered : String → HostNode → HostNode
registered vm_id host =
    if is_in vm_id host.vm_ids then host else with_vms (host.vm_ids ++ vm_id ∷ []) host

abbrev pub register_at :
    Option HostNode → String → String → MultiHostManager → Bool × MultiHostManager
register_at none vm_id host_name m = (false, m)
register_at (some host) vm_id host_name m =
    if is_online host
    then (
      true,
      record m {
        hosts = insert host_name (registered vm_id host) m.hosts;
        vm_hosts = insert vm_id host_name m.vm_hosts;
      },
    )
    else (false, m)

unfoldable pub register_vm : String → String → MultiHostManager → Bool × MultiHostManager
register_vm vm_id host_name m = register_at (lookup host_name m.hosts) vm_id host_name m

abbrev host_of : Option String → MultiHostManager → Option HostNode
host_of none m = none
host_of (some host_name) m = if is_nonempty host_name then lookup host_name m.hosts else none

unfoldable pub get_vm_host : String → MultiHostManager → Option HostNode
get_vm_host vm_id m = host_of (lookup vm_id m.vm_hosts) m
