-- ===== src/Sharding/Streams/Tests.antt =====
-- A proxy that connects again before its first stream has ended
-- (pkg/manager/controllers/shardingconfigserver/grpc_server.go).
use controller_mesh.Prelude.{
  [], ◌∷◌, false, none, some, lookup, if◌then◌else◌, ◌==◌, ◌≡◌, refl, arith,
}
use controller_mesh.Pods.{Pod}
use controller_mesh.Sharding.Reconcile.{ProxyStatus}
use controller_mesh.Sharding.Streams.{Streams, server_of, new_connection, connect, stop}
use controller_mesh.Sharding.Streams.Laws.{IsNumbered, connect-IsNumbered, stop-IsUncached}

abbrev shard_pod : Pod
shard_pod = record {
  uid = "7";
  namespace = "default";
  name = "operator-0";
  labels = ("ctrlmesh.kusionstack.io/sharding-config-injected", "shard-1") ∷ [];
  deleted = false;
  phase = "Running";
  conditions = [];
  containers = [];
  owner = none;
  first_owner = none;
  age = 0;
}

abbrev first_status : ProxyStatus
first_status = record { meta_state = none; is_leader = none }

abbrev no_streams : Streams
no_streams = record {
  connections = λ id. new_connection first_status;
  next = 0;
  cache = [];
  pod_hash_expectation = [];
  pod_deletion_expectation = [];
  triggers = [];
}

-- The second stream of the pod, to which a specification has been sent.
abbrev connected_again : Streams
connected_again = record no_streams {
  next = 2;
  cache = ("7", 1) ∷ [];
  pod_hash_expectation = ("7", "a") ∷ [];
}

connect-IsNumbered_example :
    IsNumbered (connect shard_pod first_status connected_again)
    × ((lookup "7" (server_of (connect shard_pod first_status connected_again)).connections ≡ (
          if "7" == "7"
          then some (new_connection first_status)
          else lookup "7" (server_of connected_again).connections))
        × (lookup "7"
              (server_of (connect shard_pod first_status connected_again)).pod_hash_expectation
            ≡ (if "7" == "7"
                then none
                else lookup "7" (server_of connected_again).pod_hash_expectation)))
connect-IsNumbered_example =
    connect-IsNumbered shard_pod first_status connected_again "7" (omega arith, tt)

stop-IsUncached_example :
    ((server_of (stop 0 shard_pod connected_again)).connections
      ≡ (server_of connected_again).connections)
    × (lookup "7" (server_of (stop 0 shard_pod connected_again)).pod_hash_expectation ≡ none)
stop-IsUncached_example = stop-IsUncached 0 shard_pod connected_again (refl, tt)
