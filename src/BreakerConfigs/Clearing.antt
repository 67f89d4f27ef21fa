-- ===== src/BreakerConfigs/Clearing.antt =====
-- How the configuration of a circuit breaker is taken out of the proxies: clear and
-- tryClearOrAddFinalizer (pkg/manager/controllers/circuitbreaker/circuitbreaker_controller.go).
use controller_mesh.Prelude.{String, List, [], ◌∷◌, Bool, true, not, if◌then◌else◌}
use controller_mesh.Conversion.{ApiLimitingSnapshot}
use controller_mesh.BreakerConfigs.{
  PodCache, has, delete_config, ProxyPod, is_proxy_available, Answer, disable_config,
}

pub record TargetStatus : Type 0 where
  pub pod_name : String
  pub pod_ip : String
  pub config_hash : String
  pub message : String
  pub limiting_snapshots : List ApiLimitingSnapshot

-- What the API server answers when it is asked for a pod.
pub data Got : Type 0 where
  got : ProxyPod → Got
  not_found get_failed : Got

-- What there is around a reconciliation: the pods of the API server by their names, and what the
-- proxies at the addresses answer when they are asked to delete the configuration.
pub record World : Type 0 where
  pub get : String → Got
  pub disable : String → Answer

-- A round of the loop, and what the loop has done: the cache, whether there was an error, and the
-- addresses of the proxies that were asked.
pub record Cleared : Type 0 where
  pub cache : PodCache
  pub error : Bool
  pub asked : List String

module _ (world : World) (namespace : String) (name : String) where
  open world use {get, disable}

  abbrev pub forget : String → Cleared → Cleared
  forget pod_name c = record c { cache = delete_config namespace pod_name name c.cache }

  unfoldable pub clear_available : TargetStatus → Cleared → Cleared
  unfolding delete_config disable_config
  clear_available state c =
      let asked : Cleared = record c { asked = state.pod_ip ∷ c.asked } in
      if disable_config (disable state.pod_ip)
      then record asked { error = true }
      else forget state.pod_name asked

  unfoldable pub clear_pod : TargetStatus → Cleared → Cleared
  unfolding has is_proxy_available clear_available
  clear_pod state c =
      if not (has namespace state.pod_name name c.cache) then c else (elim (get state.pod_name) [
        | get_failed ↦ record c { error = true }
        | not_found ↦ forget state.pod_name c
        | got po ↦ if is_proxy_available po then clear_available state c else c
      ])

  unfoldable pub clear : List TargetStatus → Cleared → Cleared
  unfolding clear_pod
  clear [] c = c
  clear (state ∷ states) c = clear states (clear_pod state c)
