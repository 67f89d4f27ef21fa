-- ===== src/FaultConfigs/Cache.antt =====
-- The cache of the controller of faults and when a pod has a proxy
-- (pkg/manager/controllers/faultinjection/cache.go and faultinject_controller.go).
use Prim.Native.String.{◌++◌}
use controller_mesh.Prelude.{
  String, List, [], ◌∷◌, Bool, false, none, some, Map, lookup, insert, erase, contains,
  if◌then◌else◌, ◌==◌,
}
use controller_mesh.Prelude.Sets
use controller_mesh.Pods.{ContainerStatus}
use controller_mesh.BreakerConfigs.{ProxyPod}

-- The field `currentHash` of `podCache`.
abbrev pub FaultCache : Type 0
FaultCache = Map (List String)

unfoldable pub fault_cache_key : String → String → String
fault_cache_key namespace pod_name = namespace ++ "/" ++ pod_name

unfoldable pub has_fault : String → String → String → FaultCache → Bool
unfolding fault_cache_key
has_fault namespace pod_name fault cache =
    elim (lookup (fault_cache_key namespace pod_name) cache) [
      | none ↦ false
      | some faults ↦ contains fault faults
    ]

unfoldable pub add_fault : String → String → String → FaultCache → FaultCache
unfolding fault_cache_key
add_fault namespace pod_name fault cache =
    let key = fault_cache_key namespace pod_name in
    elim (lookup key cache) [
      | none ↦ insert key (fault ∷ []) cache
      | some faults ↦ insert key (Sets.insert fault faults) cache
    ]

-- `Delete` without faults, and with one.
unfoldable pub delete_fault_pod : String → String → FaultCache → FaultCache
unfolding fault_cache_key
delete_fault_pod namespace pod_name cache = erase (fault_cache_key namespace pod_name) cache

unfoldable pub delete_fault_config : String → String → String → FaultCache → FaultCache
unfolding fault_cache_key
delete_fault_config namespace pod_name fault cache =
    let key = fault_cache_key namespace pod_name in
    elim (lookup key cache) [
      | none ↦ cache
      | some faults ↦ insert key (Sets.delete fault faults) cache
    ]

-- The first status of a container of the name of the proxy decides.
unfoldable pub fault_proxy_ready : List ContainerStatus → Bool
fault_proxy_ready [] = false
fault_proxy_ready (c ∷ cs) =
    let rest = fault_proxy_ready cs in if c.name == "ctrlmesh-proxy" then c.ready else rest

unfoldable pub is_fault_proxy_available : ProxyPod → Bool
unfolding fault_proxy_ready
is_fault_proxy_available po =
    if po.deleted
    then false
    else if po.pod_ip == ""
    then false
    else fault_proxy_ready po.container_statuses

unfoldable pub has_fault_proxy : ProxyPod → Bool
has_fault_proxy po = contains "ctrlmesh-proxy" po.containers
