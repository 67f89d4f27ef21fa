-- ===== src/BreakerConfigs/Tests.antt =====
-- Runs of the cache of configurations, and of the clearing.
use controller_mesh.Prelude.{[], ◌∷◌, true, false, ◌≡◌, refl, insert, lookup, contains}
use controller_mesh.Prelude.Sets.{delete}
use controller_mesh.BreakerConfigs.{PodCache, has, add, delete_config, ProxyPod, response}
use controller_mesh.BreakerConfigs.Clearing.{World, got}
use controller_mesh.BreakerConfigs.Reconcile.{
  Breaker, Updates, protect_finalizer, try_clear_or_add_finalizer,
}
use controller_mesh.BreakerConfigs.Finalizer.{AreSettled, try_clear_or_add_finalizer-AreSettled}

has-add : has "default" "web-0" "limits" (add "default" "web-0" "limits" []) ≡ true
unfolding has add insert lookup
has-add = refl

has-delete_config :
    has "default" "web-0" "limits"
      (delete_config "default" "web-0" "limits" (add "default" "web-0" "limits" []))
    ≡ false
unfolding has add delete_config insert lookup delete
has-delete_config = refl

abbrev web_0 : ProxyPod
web_0 = record {
  namespace = "default";
  name = "web-0";
  pod_ip = "10.0.0.7";
  deleted = false;
  containers = "ctrlmesh-proxy" ∷ [];
  container_statuses = record { name = "ctrlmesh-proxy"; ready = true; running = true } ∷ [];
}

abbrev one_pod : World
one_pod = record {
  get = λ pod_name. got web_0;
  disable = λ pod_ip. response (record { success = true; message = ""; limiting_snapshot = [] });
}

abbrev removed : Breaker
removed = record {
  namespace = "default";
  name = "limits";
  labels = [];
  deleted = true;
  finalizers = protect_finalizer ∷ [];
  hash = "a";
  target_status =
      record {
        pod_name = "web-0";
        pod_ip = "10.0.0.7";
        config_hash = "a";
        message = "";
        limiting_snapshots = [];
      }
      ∷ [];
}

abbrev no_failure : Updates
no_failure = record { update_fails = false; status_update_fails = false }

abbrev one_config : PodCache
one_config = ("default/web-0", "limits" ∷ []) ∷ []

finalizer_gone :
    contains protect_finalizer
      (try_clear_or_add_finalizer one_pod no_failure removed one_config).finalizers
    ≡ false
unfolding try_clear_or_add_finalizer lookup delete
finalizer_gone = refl

try_clear_or_add_finalizer-AreSettled_example :
    AreSettled one_pod "default" "limits" one_config removed.target_status
try_clear_or_add_finalizer-AreSettled_example =
    try_clear_or_add_finalizer-AreSettled one_pod no_failure removed one_config (tt, tt) refl
      finalizer_gone
