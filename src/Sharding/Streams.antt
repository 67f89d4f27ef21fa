-- ===== src/Sharding/Streams.antt =====
-- The streams of the proxies and the events of their pods: grpc_server.go and event_handler.go of
-- pkg/manager/controllers/shardingconfigserver. Each stream has a connection of its own, and the
-- cache points to that of the last one of a pod. The end of the whole server is left out.
pub mod Laws
mod Tests
use controller_mesh.Prelude.{
  ℕ, suc, String, List, [], ◌∷◌, ◌++◌, map, length, Bool, true, false, not, ◌||◌, Option, none,
  some, Map, lookup, insert, erase, eqb, if◌then◌else◌, ◌==◌,
}
use controller_mesh.Prelude.Sets
use controller_mesh.Pods.{Pod, is_pod_active, is_pod_ready}
use controller_mesh.Sharding.Reconcile.{ProxyStatus, Connection, Server, get_running_containers}
use controller_mesh.Sharding.Reconcile.Clearing.{shard_name}

-- The connections by the numbers of their streams, the cache by the UIDs of the pods, and the
-- requests that were sent to the channel of triggers, by namespace and name.
pub record Streams : Type 0 where
  pub connections : ℕ → Connection
  pub next : ℕ
  pub cache : Map ℕ
  pub pod_hash_expectation : Map String
  pub pod_deletion_expectation : List String
  pub triggers : List (String × String)

abbrev pub pointed : (ℕ → Connection) → Map ℕ → Map Connection
pointed connections [] = []
pointed connections ((uid, id) ∷ cache) = (uid, connections id) ∷ pointed connections cache

-- What the reconciliation sees.
unfoldable pub server_of : Streams → Server
server_of s = record {
  connections = pointed s.connections s.cache;
  pod_hash_expectation = s.pod_hash_expectation;
  pod_deletion_expectation = s.pod_deletion_expectation;
}

abbrev pub set_connection : ℕ → Connection → (ℕ → Connection) → ℕ → Connection
set_connection id c connections = λ j. if eqb j id then c else connections j

-- The first message of a stream, with the namespace and the name of the pod.
pub record FirstMessage : Type 0 where
  pub self_info : Option (String × String)
  pub status : ProxyStatus

pub data PodAnswer : Type 0 where
  pod_found : Pod → PodAnswer
  pod_not_found pod_error : PodAnswer

pub data Code : Type 0 where
  aborted invalid_argument code_not_found internal canceled : Code

pub data Registration : Type 0 where
  rejected : Code → Registration
  registered : ℕ → Streams → Registration

abbrev pub lacks_self_info : Option (String × String) → Bool
lacks_self_info none = true
lacks_self_info (some (namespace, name)) = namespace == "" || name == ""

abbrev pub new_connection : ProxyStatus → Connection
new_connection status = record { status = status; send_times = 0; disconnected = false }

unfoldable pub connect : Pod → ProxyStatus → Streams → Streams
connect p status s = record s {
  connections = set_connection s.next (new_connection status) s.connections;
  next = suc s.next;
  cache = insert p.uid s.next s.cache;
  pod_hash_expectation = erase p.uid s.pod_hash_expectation;
  triggers = s.triggers ++ (p.namespace, shard_name p) ∷ [];
}

abbrev pub register_found : Pod → ProxyStatus → Streams → Registration
register_found p status s =
    if not (is_pod_active p)
    then rejected canceled
    else if shard_name p == ""
    then rejected invalid_argument
    else registered s.next (connect p status s)

abbrev pub register_pod : PodAnswer → ProxyStatus → Streams → Registration
register_pod pod_not_found status s = rejected code_not_found
register_pod pod_error status s = rejected internal
register_pod (pod_found p) status s = register_found p status s

-- `Register` up to the goroutine; a first message that is `none` is an error of the stream. The pod
-- is read by the namespace and the name of the message, so it has these.
unfoldable pub register : Option FirstMessage → PodAnswer → Streams → Registration
unfolding connect is_pod_active
register none answer s = rejected aborted
register (some m) answer s =
    if lacks_self_info m.self_info
    then rejected invalid_argument
    else register_pod answer m.status s

-- A further message of the stream; `equal` is `proto.Equal`.
unfoldable pub receive :
    (ProxyStatus → ProxyStatus → Bool) → ℕ → Pod → ProxyStatus → Streams → Streams
receive equal id p status s =
    let c = s.connections id in
    record s {
      connections = set_connection id (record c { status = status }) s.connections;
      triggers =
          if equal c.status status
          then s.triggers
          else s.triggers ++ (p.namespace, shard_name p) ∷ [];
    }

-- The end of the stream.
unfoldable pub stop : ℕ → Pod → Streams → Streams
stop id p s = record s {
  connections = set_connection id (record (s.connections id) { disconnected = true }) s.connections;
  pod_hash_expectation = erase p.uid s.pod_hash_expectation;
  triggers = s.triggers ++ (p.namespace, shard_name p) ∷ [];
}

-- The events of pods. `readable` says whether the configuration of a shard can be read; the result is
-- the requests that are added to the queue.
module _ (readable : String → String → Bool) where
  abbrev pub has_config : Pod → Bool
  has_config p = if shard_name p == "" then false else readable p.namespace (shard_name p)

  abbrev pub request : Pod → List (String × String)
  request p = (p.namespace, shard_name p) ∷ []

  unfoldable pub on_pod_create : Pod → List (String × String)
  on_pod_create p = if has_config p then request p else []

  unfoldable pub on_pod_update : Pod → Pod → List (String × String)
  unfolding get_running_containers is_pod_ready
  on_pod_update old new =
      if not (has_config new)
      then []
      else if new.deleted
      then (if not old.deleted
            || not (
                eqb (length (get_running_containers old.containers))
                  (length (get_running_containers new.containers)))
          then request new
          else [])
      else if not (old.phase == new.phase)
          || (if is_pod_ready old then not (is_pod_ready new) else is_pod_ready new)
      then request new
      else []

  unfoldable pub on_pod_delete : Pod → Streams → List (String × String) × Streams
  on_pod_delete p s =
      if has_config p
      then (
        request p,
        record s {
          pod_hash_expectation = erase p.uid s.pod_hash_expectation;
          pod_deletion_expectation = Sets.delete p.uid s.pod_deletion_expectation;
        },
      )
      else ([], s)
