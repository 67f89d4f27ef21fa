-- ===== src/Proxy/Election/Tests.antt =====
-- Requests for concrete locks (pkg/proxy/leaderelection/handler.go).
use Prim.Native.String.{String, ◌++◌}
use controller_mesh.Prelude.{[], none, some, true, ◌≡◌, refl, eqb, if◌then◌else◌}
use controller_mesh.Proxy.Specs.{SpecManager}
use controller_mesh.Proxy.Election.{
  strip, replaced, last_replace, RequestInfo, Lock, Request, Handler, is_about_lock,
  is_lock_resource, handle_verb, handle, respond, lock_of_shard,
}
use controller_mesh.Proxy.Election.Laws.{
  claimed, leads_as, leader_election_state-handle, handle-lock_of_shard,
}

abbrev shard_handler : Handler
shard_handler = record { namespace = "kusion"; lock_name = "operator"; sharding_config = "shard-1" }

abbrev lease_request : String → RequestInfo
lease_request verb = record {
  is_resource_request = true;
  subresource = "";
  namespace = "kusion";
  verb = verb;
  name = "operator";
  api_group = "coordination.k8s.io";
  api_version = "v1";
  resource = "leases";
}

abbrev leases : String
leases = "/apis/coordination.k8s.io/v1/namespaces/kusion/leases/"

abbrev pod_lock : Lock
pod_lock = record { name = "operator"; hold_identity = some "pod-0" }

abbrev post : Request
post = record { path = leases; body = some pod_lock }

abbrev idle_manager : SpecManager
idle_manager = record {
  storage = record { expected_spec_file = []; current_spec_file = [] };
  report_triggers = 0;
  expected_spec = none;
  current_spec = none;
  unload_reason = "";
  leader_election_state = none;
}

-- The name of a lock in a path is replaced where it stands last.
last_name :
    last_replace "/operator/leases/operator" "operator" "operator---shard-1"
    ≡ "/operator/leases/operator---shard-1"
unfolding last_replace replaced strip
last_name = refl

-- A create that is answered by 201, as the API server answers one, does not make the proxy a leader.
created_is_unreported :
    (respond
      (handle shard_handler (lease_request "create") post).modify_response
      201
      idle_manager).leader_election_state
    ≡ none
unfolding respond handle handle_verb is_about_lock is_lock_resource
created_is_unreported = refl

leader_election_state-handle_example :
    (respond
      (handle shard_handler (lease_request "update") post).modify_response
      200
      idle_manager).leader_election_state
    ≡ leads_as
        (if eqb 200 200 then claimed shard_handler (lease_request "update") post.body else none)
        none
leader_election_state-handle_example =
    leader_election_state-handle shard_handler (lease_request "update") post 200 idle_manager

abbrev get_lock : Request
get_lock = record { path = leases ++ "operator"; body = none }

handle-lock_of_shard_example :
    ((handle shard_handler (lease_request "get") get_lock).request.path
      ≡ leases ++ lock_of_shard shard_handler)
    × ((handle shard_handler (lease_request "create") post).request.body
        ≡ some (record pod_lock { name = lock_of_shard shard_handler }))
unfolding is_about_lock is_lock_resource
handle-lock_of_shard_example =
    handle-lock_of_shard shard_handler (lease_request "get") (lease_request "create") leases leases
      "pod-0" none refl refl refl refl
