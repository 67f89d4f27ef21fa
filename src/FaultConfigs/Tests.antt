-- ===== src/FaultConfigs/Tests.antt =====
-- A fault in one proxy (pkg/manager/controllers/faultinjection/faultinject_controller.go).
use controller_mesh.Prelude.{[], ◌∷◌, true, false, not, ◌&&◌, any, ◌==◌, ◌≡◌, refl, lookup, insert}
use controller_mesh.Prelude.Sets
use controller_mesh.BreakerConfigs.{ProxyPod}
use controller_mesh.BreakerConfigs.Clearing.{got, Cleared}
use controller_mesh.FaultConfigs.Cache.{has_fault}
use controller_mesh.FaultConfigs.{FaultTarget, fault_response, FaultWorld, clear_faults}
use controller_mesh.FaultConfigs.Laws.{is_settled, has_fault-clear_faults}

abbrev db_pod : ProxyPod
db_pod = record {
  namespace = "default";
  name = "db-0";
  pod_ip = "10.0.0.9";
  deleted = false;
  containers = "ctrlmesh-proxy" ∷ [];
  container_statuses = record { name = "ctrlmesh-proxy"; ready = true; running = true } ∷ [];
}

abbrev db_world : FaultWorld
db_world = record { get = λ name. got db_pod; disable = λ pod_ip. fault_response true "" }

abbrev db_target : FaultTarget
db_target = record { pod_name = "db-0"; pod_ip = "10.0.0.9"; config_hash = "a"; message = "" }

abbrev held : Cleared
held = record { cache = ("default/db-0", "slow" ∷ []) ∷ []; error = false; asked = [] }

has_fault-clear_faults_example :
    has_fault "default" "db-0" "slow"
      (clear_faults db_world "default" "slow" (db_target ∷ []) held).cache
    ≡ (has_fault "default" "db-0" "slow" held.cache
        && not (
            any
              (λ st. st.pod_name == "db-0" && is_settled db_world "default" "slow" st)
              (db_target ∷ [])))
has_fault-clear_faults_example =
    has_fault-clear_faults db_world "default" "slow" (db_target ∷ []) "db-0" held

-- The proxy has deleted the fault, and the cache no longer has it.
forgotten :
    has_fault "default" "db-0" "slow"
      (clear_faults db_world "default" "slow" (db_target ∷ []) held).cache
    ≡ false
unfolding has_fault clear_faults lookup insert Sets.delete
forgotten = refl
