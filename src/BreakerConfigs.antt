-- ===== src/BreakerConfigs.antt =====
-- The manager's side of circuit breakers: which proxies have which configurations
-- (pkg/manager/controllers/circuitbreaker/cache.go), and the calls of one proxy
-- (circuitbreaker_controller.go).
pub mod Clearing
pub mod Reconcile
pub mod Finalizer
pub mod Events
pub mod Whole
mod Tests
use Prim.Native.String.{◌++◌}
use controller_mesh.Prelude.{
  String, List, [], ◌∷◌, Bool, true, false, not, Option, none, some, Map, lookup, insert, erase,
  contains, if◌then◌else◌, ◌==◌,
}
use controller_mesh.Prelude.Sets
use controller_mesh.Pods.{ContainerStatus}
use controller_mesh.CircuitBreaker.Config.{LimitingSnapshot}
use controller_mesh.CircuitBreaker.Manager.{ConfigResp}

-- The field `currentHash` of `podCache`.
abbrev pub PodCache : Type 0
PodCache = Map (List String)

unfoldable pub cache_key : String → String → String
cache_key namespace pod_name = namespace ++ "/" ++ pod_name

unfoldable pub has : String → String → String → PodCache → Bool
unfolding cache_key
has namespace pod_name config cache = elim (lookup (cache_key namespace pod_name) cache) [
  | none ↦ false
  | some configs ↦ contains config configs
]

unfoldable pub add : String → String → String → PodCache → PodCache
unfolding cache_key
add namespace pod_name config cache =
    let key = cache_key namespace pod_name in
    elim (lookup key cache) [
      | none ↦ insert key (config ∷ []) cache
      | some configs ↦ insert key (Sets.insert config configs) cache
    ]

-- `Delete` without configurations.
unfoldable pub delete_pod : String → String → PodCache → PodCache
unfolding cache_key
delete_pod namespace pod_name cache = erase (cache_key namespace pod_name) cache

-- `Delete` with one configuration.
unfoldable pub delete_config : String → String → String → PodCache → PodCache
unfolding cache_key
delete_config namespace pod_name config cache =
    let key = cache_key namespace pod_name in
    elim (lookup key cache) [
      | none ↦ cache
      | some configs ↦ insert key (Sets.delete config configs) cache
    ]

-- A pod, as far as the controller reads it.
pub record ProxyPod : Type 0 where
  pub namespace : String
  pub name : String
  pub pod_ip : String
  pub deleted : Bool
  pub containers : List String
  pub container_statuses : List ContainerStatus

unfoldable pub proxy_ready : List ContainerStatus → Bool
proxy_ready [] = false
proxy_ready (c ∷ cs) =
    let rest = proxy_ready cs in if c.name == "ctrlmesh-proxy" then c.ready else rest

unfoldable pub is_proxy_available : ProxyPod → Bool
unfolding proxy_ready
is_proxy_available po =
    if po.deleted
    then false
    else if po.pod_ip == ""
    then false
    else proxy_ready po.container_statuses

unfoldable pub has_proxy_container : ProxyPod → Bool
has_proxy_container po = contains "ctrlmesh-proxy" po.containers

-- What a call of a proxy ends with: an error, a response that is nil, or a response.
pub data Answer : Type 0 where
  call_failed : String → Answer
  nil_response : Answer
  response : ConfigResp → Answer

pub data Synced : Type 0 where
  synced : List LimitingSnapshot → Synced
  sync_failed : String → Synced

unfoldable pub sync_pod_config : String → String → Answer → Synced
sync_pod_config name pod_ip (call_failed error) = sync_failed error
sync_pod_config name pod_ip nil_response = sync_failed (
    "fail to update pod [" ++ pod_ip ++ ", " ++ name
    ++ "] circuit breaker config, server return nil response")
sync_pod_config name pod_ip (response resp) =
    if resp.success
    then synced resp.limiting_snapshot
    else sync_failed (
        "fail to update pod [" ++ pod_ip ++ ", " ++ name ++ "] circuit breaker config, "
        ++ resp.message)

-- Whether there is an error, whose text is only printed.
unfoldable pub disable_config : Answer → Bool
disable_config (call_failed error) = true
disable_config nil_response = false
disable_config (response resp) = not resp.success
