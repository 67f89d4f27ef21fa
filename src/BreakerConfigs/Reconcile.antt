-- ===== src/BreakerConfigs/Reconcile.antt =====
-- The reconciliation of a circuit breaker, from its finalizer to its status
-- (pkg/manager/controllers/circuitbreaker/circuitbreaker_controller.go).
use Prim.Native.String
use controller_mesh.Prelude.{
  String, List, [], ◌∷◌, ◌++◌, Bool, true, false, not, ◌&&◌, ◌||◌, Option, none, some, Map, lookup,
  is_some, contains, is_empty, if◌then◌else◌, ◌==◌,
}
use controller_mesh.Prelude.Sets
use controller_mesh.CircuitBreaker.Config.{LimitingSnapshot}
use controller_mesh.Conversion.{convert_snapshots}
use controller_mesh.BreakerConfigs.{
  PodCache, add, delete_pod, ProxyPod, is_proxy_available, has_proxy_container, Answer, synced,
  sync_failed, sync_pod_config, disable_config,
}
use controller_mesh.BreakerConfigs.Clearing.{
  TargetStatus, got, not_found, get_failed, World, Cleared, clear_available, clear,
}

-- The resource, as far as it is read; `hash` is the hash of the message that it is converted to.
pub record Breaker : Type 0 where
  pub namespace : String
  pub name : String
  pub labels : Map String
  pub deleted : Bool
  pub finalizers : List String
  pub hash : String
  pub target_status : List TargetStatus

-- What the loop over the selected pods has done.
pub record Sent : Type 0 where
  pub cache : PodCache
  pub error : Bool
  pub target_status : List TargetStatus

-- What the loop over the old status has done: the entries whose clearing failed are kept.
pub record Unselected : Type 0 where
  pub cleared : Cleared
  pub failed_status : List TargetStatus

-- `currentPodStatus`.
unfoldable pub current_pod_status : List TargetStatus → String → Option TargetStatus
current_pod_status [] pod_name = none
current_pod_status (state ∷ states) pod_name =
    let rest = current_pod_status states pod_name in
    if state.pod_name == pod_name then some state else rest

unfoldable pub current_hash : List TargetStatus → String → String
unfolding current_pod_status
current_hash states pod_name = elim (current_pod_status states pod_name) [
  | none ↦ ""
  | some state ↦ state.config_hash
]

module _ (world : World) (send : String → Answer) (cb : Breaker) where
  open world use {get, disable}

  abbrev pub with_target : ProxyPod → String → String → List LimitingSnapshot → Sent → Sent
  with_target po hash message snapshots s = record s {
    target_status =
        s.target_status
        ++ record {
          pod_name = po.name;
          pod_ip = po.pod_ip;
          config_hash = hash;
          message = message;
          limiting_snapshots = convert_snapshots snapshots;
        }
          ∷ [];
  }

  unfoldable pub send_available : ProxyPod → Sent → Sent
  unfolding sync_pod_config add current_hash
  send_available po s = elim (sync_pod_config cb.name po.pod_ip (send po.pod_ip)) [
    | sync_failed message ↦
        with_target po (current_hash cb.target_status po.name) message []
          (record s { error = true })
    | synced snapshots ↦
        with_target po cb.hash "" snapshots
          (record s { cache = add po.namespace po.name cb.name s.cache })
  ]

  unfoldable pub send_pod : ProxyPod → Sent → Sent
  unfolding send_available has_proxy_container is_proxy_available delete_pod
  send_pod po s =
      if not (has_proxy_container po)
      then s
      else if is_proxy_available po
      then send_available po s
      else with_target po (current_hash cb.target_status po.name)
          (String.◌++◌ "pod " (
            String.◌++◌ (String.◌++◌ po.namespace (String.◌++◌ "/" po.name))
              " is not available to sync circuit breaker proto"))
          [] (record s { cache = delete_pod po.namespace po.name s.cache })

  unfoldable pub send_pods : List ProxyPod → Sent → Sent
  unfolding send_pod
  send_pods [] s = s
  send_pods (po ∷ pos) s = send_pods pos (send_pod po s)

  -- A pod whose proxy could not be reached, or whose pod could not be read, keeps its entry.
  unfoldable pub disable_unselected : TargetStatus → ProxyPod → Unselected → Unselected
  unfolding disable_config delete_pod clear_available
  disable_unselected st po u =
      if not (is_proxy_available po)
      then record u {
        cleared = record (u.cleared) { cache = delete_pod po.namespace po.name u.cleared.cache };
      }
      else record {
        cleared = clear_available world cb.namespace cb.name st u.cleared;
        failed_status =
            if disable_config (disable st.pod_ip)
            then u.failed_status ++ st ∷ []
            else u.failed_status;
      }

  unfoldable pub clear_unselected : List TargetStatus → TargetStatus → Unselected → Unselected
  unfolding current_pod_status disable_unselected
  clear_unselected selected st u =
      if is_some (current_pod_status selected st.pod_name) then u else (elim (get st.pod_name) [
        | not_found ↦ u
        | get_failed ↦ record {
          cleared = record (u.cleared) { error = true };
          failed_status = u.failed_status ++ st ∷ [];
        }
        | got po ↦ disable_unselected st po u
      ])

  unfoldable pub clear_all_unselected :
      List TargetStatus → List TargetStatus → Unselected → Unselected
  unfolding clear_unselected
  clear_all_unselected selected [] u = u
  clear_all_unselected selected (st ∷ sts) u =
      clear_all_unselected selected sts (clear_unselected selected st u)

  -- The status that the reconciliation ends with, its error, and the cache it leaves.
  unfoldable pub reconcile : List ProxyPod → PodCache → Sent
  unfolding send_pods clear_all_unselected
  reconcile pods cache =
      let sent = send_pods pods (record { cache = cache; error = false; target_status = [] }) in
      let rest = clear_all_unselected sent.target_status cb.target_status (record {
        cleared = record { cache = sent.cache; error = sent.error; asked = [] };
        failed_status = [];
      }) in
      record {
        cache = rest.cleared.cache;
        error = rest.cleared.error;
        target_status = sent.target_status ++ rest.failed_status;
      }

-- Which updates of the resource fail.
pub record Updates : Type 0 where
  pub update_fails : Bool
  pub status_update_fails : Bool

-- What `tryClearOrAddFinalizer` returns, with the resource as the API server has it afterwards.
pub record Finalized : Type 0 where
  pub should_clear : Bool
  pub error : Bool
  pub finalizers : List String
  pub target_status : List TargetStatus
  pub cache : PodCache

abbrev pub protect_finalizer : String
protect_finalizer = "finalizer.ctrlmesh.kusionstack.io/protected"

unfoldable pub is_disabled : Breaker → Bool
is_disabled cb =
    is_some (lookup "circuitbreaker.ctrlmesh.kusionstack.io/disable" cb.labels) || cb.deleted

abbrev pub finalized : Bool → Bool → Breaker → PodCache → Finalized
finalized should_clear error cb cache = record {
  should_clear = should_clear;
  error = error;
  finalizers = cb.finalizers;
  target_status = cb.target_status;
  cache = cache;
}

unfoldable pub add_finalizer : Updates → Breaker → PodCache → Finalized
add_finalizer updates cb cache =
    if contains protect_finalizer cb.finalizers
    then finalized false false cb cache
    else if updates.update_fails
    then finalized false true cb cache
    else record (finalized false false cb cache) {
      finalizers = cb.finalizers ++ protect_finalizer ∷ [];
    }

-- The end of `tryClearOrAddFinalizer`, where the clearing had no error.
unfoldable pub remove_finalizer : Updates → Breaker → PodCache → Finalized
remove_finalizer updates cb cache =
    if not (is_empty cb.target_status) && updates.status_update_fails
    then finalized true true cb cache
    else if updates.update_fails
    then record (finalized true true cb cache) { target_status = [] }
    else record (finalized true false cb cache) {
      target_status = [];
      finalizers = Sets.delete protect_finalizer cb.finalizers;
    }

unfoldable pub clear_finalized : Updates → Breaker → Cleared → Finalized
unfolding remove_finalizer
clear_finalized updates cb cleared =
    if cleared.error
    then finalized true true cb cleared.cache
    else remove_finalizer updates cb cleared.cache

unfoldable pub try_clear_or_add_finalizer : World → Updates → Breaker → PodCache → Finalized
unfolding is_disabled add_finalizer clear clear_finalized
try_clear_or_add_finalizer world updates cb cache =
    if not (is_disabled cb)
    then add_finalizer updates cb cache
    else if not (contains protect_finalizer cb.finalizers)
    then finalized true false cb cache
    else clear_finalized updates cb (
        clear world cb.namespace cb.name cb.target_status
          (record { cache = cache; error = false; asked = [] }))
