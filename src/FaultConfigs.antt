-- ===== src/FaultConfigs.antt =====
-- The controller of faults, pkg/manager/controllers/faultinjection/faultinject_controller.go: the
-- configurations in the proxies. FaultConfigs/Cache has its cache; what is read of a pod, and what the
-- API server answers, are the records of the controller of circuit breakers.
pub mod Cache
pub mod Laws
mod Tests
use Prim.Native.String
use controller_mesh.Prelude.{
  String, List, [], ◌∷◌, ◌++◌, Bool, true, false, not, Option, none, some, is_some, if◌then◌else◌,
  ◌==◌,
}
use controller_mesh.BreakerConfigs.{ProxyPod}
use controller_mesh.BreakerConfigs.Clearing.{Got, got, not_found, get_failed, Cleared}
use controller_mesh.FaultConfigs.Cache.{
  FaultCache, has_fault, add_fault, delete_fault_config, delete_fault_pod, is_fault_proxy_available,
  has_fault_proxy,
}

pub record FaultTarget : Type 0 where
  pub pod_name : String
  pub pod_ip : String
  pub config_hash : String
  pub message : String

-- What a call of a proxy ends with: an error, a response that is nil, or one with its message.
pub data FaultAnswer : Type 0 where
  fault_failed : String → FaultAnswer
  fault_nil : FaultAnswer
  fault_response : Bool → String → FaultAnswer

pub record FaultWorld : Type 0 where
  pub get : String → Got
  pub disable : String → FaultAnswer

-- Whether there is an error.
unfoldable pub disable_fault : FaultAnswer → Bool
disable_fault (fault_failed error) = true
disable_fault fault_nil = false
disable_fault (fault_response success message) = not success

-- The text of the error, if there is one.
unfoldable pub sync_pod_fault : String → String → FaultAnswer → Option String
sync_pod_fault name pod_ip (fault_failed error) = some error
sync_pod_fault name pod_ip fault_nil = some (
    String.◌++◌ "fail to update pod [" (
      String.◌++◌ (String.◌++◌ pod_ip (String.◌++◌ ", " name))
        "] circuit breaker config, server return nil response"))
sync_pod_fault name pod_ip (fault_response success message) =
    if success
    then none
    else some (
        String.◌++◌ "fail to update pod [" (
          String.◌++◌ (String.◌++◌ pod_ip (String.◌++◌ ", " name))
            (String.◌++◌ "] circuit breaker config, " message)))

unfoldable pub current_fault_status : List FaultTarget → String → Option FaultTarget
current_fault_status [] pod_name = none
current_fault_status (state ∷ states) pod_name =
    let rest = current_fault_status states pod_name in
    if state.pod_name == pod_name then some state else rest

module _ (world : FaultWorld) (namespace : String) (name : String) where
  open world use {get, disable}

  abbrev pub forget_fault : String → Cleared → Cleared
  forget_fault pod_name c = record c { cache = delete_fault_config namespace pod_name name c.cache }

  unfoldable pub clear_fault_available : FaultTarget → Cleared → Cleared
  unfolding delete_fault_config disable_fault
  clear_fault_available state c =
      let asked : Cleared = record c { asked = state.pod_ip ∷ c.asked } in
      if disable_fault (disable state.pod_ip)
      then record asked { error = true }
      else forget_fault state.pod_name asked

  unfoldable pub clear_fault_pod : FaultTarget → Cleared → Cleared
  unfolding has_fault is_fault_proxy_available clear_fault_available
  clear_fault_pod state c =
      if not (has_fault namespace state.pod_name name c.cache)
      then c
      else (elim (get state.pod_name) [
        | get_failed ↦ record c { error = true }
        | not_found ↦ forget_fault state.pod_name c
        | got po ↦ if is_fault_proxy_available po then clear_fault_available state c else c
      ])

  unfoldable pub clear_faults : List FaultTarget → Cleared → Cleared
  unfolding clear_fault_pod
  clear_faults [] c = c
  clear_faults (state ∷ states) c = clear_faults states (clear_fault_pod state c)

-- What the loop over the selected pods has done.
pub record SentFaults : Type 0 where
  pub cache : FaultCache
  pub error : Bool
  pub target_status : List FaultTarget

-- What the loop over the old status has done: the entries whose clearing failed are kept.
pub record UnselectedFaults : Type 0 where
  pub cleared : Cleared
  pub failed_status : List FaultTarget

-- The fault with the hash of its message and the targets of its status.
module _ (world : FaultWorld) (send : String → FaultAnswer) (namespace name hash : String)
    (targets : List FaultTarget) where
  open world use {get, disable}

  abbrev pub hash_before : String → String
  hash_before pod_name = elim (current_fault_status targets pod_name) [
    | none ↦ ""
    | some state ↦ state.config_hash
  ]

  abbrev pub with_fault_target : ProxyPod → String → String → SentFaults → SentFaults
  with_fault_target po config_hash message s = record s {
    target_status =
        s.target_status
        ++ record {
          pod_name = po.name;
          pod_ip = po.pod_ip;
          config_hash = config_hash;
          message = message;
        }
          ∷ [];
  }

  abbrev pub send_fault_available : ProxyPod → SentFaults → SentFaults
  send_fault_available po s = elim (sync_pod_fault name po.pod_ip (send po.pod_ip)) [
    | some message ↦ with_fault_target po (hash_before po.name) message (record s { error = true })
    | none ↦
        with_fault_target po hash ""
          (record s { cache = add_fault po.namespace po.name name s.cache })
  ]

  unfoldable pub send_fault : ProxyPod → SentFaults → SentFaults
  unfolding current_fault_status sync_pod_fault add_fault has_fault_proxy is_fault_proxy_available
      delete_fault_pod
  send_fault po s =
      if not (has_fault_proxy po)
      then s
      else if is_fault_proxy_available po
      then send_fault_available po s
      else with_fault_target po (hash_before po.name)
          (String.◌++◌ "pod " (
            String.◌++◌ (String.◌++◌ po.namespace (String.◌++◌ "/" po.name))
              " is not available to sync circuit breaker proto"))
          (record s { cache = delete_fault_pod po.namespace po.name s.cache })

  unfoldable pub send_faults : List ProxyPod → SentFaults → SentFaults
  unfolding send_fault
  send_faults [] s = s
  send_faults (po ∷ pos) s = send_faults pos (send_fault po s)

  abbrev pub disable_unselected_fault : FaultTarget → ProxyPod → UnselectedFaults → UnselectedFaults
  disable_unselected_fault st po u =
      if not (is_fault_proxy_available po)
      then record u {
        cleared = record (u.cleared) {
          cache = delete_fault_pod po.namespace po.name u.cleared.cache;
        };
      }
      else record {
        cleared = clear_fault_available world namespace name st u.cleared;
        failed_status =
            if disable_fault (disable st.pod_ip)
            then u.failed_status ++ st ∷ []
            else u.failed_status;
      }

  unfoldable pub clear_unselected_fault :
      List FaultTarget → FaultTarget → UnselectedFaults → UnselectedFaults
  unfolding current_fault_status disable_fault delete_fault_pod clear_fault_available
      is_fault_proxy_available
  clear_unselected_fault selected st u =
      if is_some (current_fault_status selected st.pod_name) then u else (elim (get st.pod_name) [
        | not_found ↦ u
        | get_failed ↦ record {
          cleared = record (u.cleared) { error = true };
          failed_status = u.failed_status ++ st ∷ [];
        }
        | got po ↦ disable_unselected_fault st po u
      ])

  unfoldable pub clear_unselected_faults :
      List FaultTarget → List FaultTarget → UnselectedFaults → UnselectedFaults
  unfolding clear_unselected_fault
  clear_unselected_faults selected [] u = u
  clear_unselected_faults selected (st ∷ sts) u =
      clear_unselected_faults selected sts (clear_unselected_fault selected st u)

  -- From the list of the selected pods to the status, which is written where it has changed.
  unfoldable pub reconcile_fault : List ProxyPod → FaultCache → SentFaults
  unfolding send_faults clear_unselected_faults
  reconcile_fault pods cache =
      let sent = send_faults pods (record { cache = cache; error = false; target_status = [] }) in
      let rest = clear_unselected_faults sent.target_status targets (record {
        cleared = record { cache = sent.cache; error = sent.error; asked = [] };
        failed_status = [];
      }) in
      record {
        cache = rest.cleared.cache;
        error = rest.cleared.error;
        target_status = sent.target_status ++ rest.failed_status;
      }
