-- ===== src/Sharding/Reconcile.antt =====
-- The reconciliation of one sharding configuration: Reconcile of
-- pkg/manager/controllers/shardingconfigserver/shardingconfig_controller.go from the list of its pods
-- on. Whether a call of the API server or a stream fails is a function of the pod; locks are left
-- out, since each guards one read or one write.
pub mod Phases
pub mod Waits
pub mod Clearing
pub mod Specs
pub mod Whole
mod Tests
use Prim.Native.String
use controller_mesh.Prelude.{
  ℕ, suc, ◌-◌, String, List, [], ◌∷◌, ◌++◌, Bool, true, false, not, ◌&&◌, Option, none, some, Map,
  lookup, insert, erase, contains, ltb, eqb, is_empty, if◌then◌else◌, ◌==◌, is_some,
}
use controller_mesh.Prelude.Sets
use controller_mesh.Pods.{Pod, ContainerStatus, is_pod_active, is_pod_ready}

pub record MetaState : Type 0 where
  pub expected_hash : String
  pub current_hash : String

-- The part of ProxyStatus that is read: `is_leader` is that of the leader election state, if any.
pub record ProxyStatus : Type 0 where
  pub meta_state : Option MetaState
  pub is_leader : Option Bool

pub record Connection : Type 0 where
  pub status : ProxyStatus
  pub send_times : ℕ
  pub disconnected : Bool

-- The connections of the server and the two maps of what is expected, by the UIDs of pods.
pub record Server : Type 0 where
  pub connections : Map Connection
  pub pod_hash_expectation : Map String
  pub pod_deletion_expectation : List String

-- The connection behind the pointer `conn` is that of the UID.
pub record SyncPod : Type 0 where
  pub pod : Pod
  pub dispatched : Bool
  pub current_status : ProxyStatus

unfoldable pub get_running_containers : List ContainerStatus → List String
get_running_containers [] = []
get_running_containers (c ∷ cs) =
    let rest = get_running_containers cs in if c.running then c.name ∷ rest else rest

-- What the body of the first loop does with a pod: it ends the reconciliation, to be repeated after
-- some time (0 for never), it passes the pod over, or it keeps it.
pub data Step : Type 0 where
  stop : ℕ → Step
  pass : Step
  keep : SyncPod → Step

-- `time.Minute`.
abbrev pub minute : ℕ
minute = 60000000000

abbrev pub unconnected : Pod → Step
unconnected p =
    if p.phase == "Running" && is_pod_ready p
    then stop minute
    else if p.phase == "Pending" && ltb p.age minute
    then stop (minute - p.age)
    else pass

-- The pod has not yet reported the hash that was sent to it.
abbrev pub unreported : String → ProxyStatus → Bool
unreported hash status = elim (status.meta_state) [
  | none ↦ true
  | some m ↦ not (hash == m.expected_hash)
]

abbrev pub kept : Pod → Connection → Step
kept p conn =
    keep (record { pod = p; dispatched = ltb 0 conn.send_times; current_status = conn.status })

abbrev pub connected : Pod → Connection → Server → Step × Server
connected p conn s =
    if conn.disconnected then (stop 0, s) else (elim (lookup p.uid s.pod_hash_expectation) [
      | none ↦ (kept p conn, s)
      | some hash ↦
          if unreported hash conn.status
          then (stop 0, s)
          else (kept p conn, record s { pod_hash_expectation = erase p.uid s.pod_hash_expectation })
    ])

unfoldable pub filter_pod : Pod → Server → Step × Server
unfolding is_pod_active is_pod_ready get_running_containers
filter_pod p s =
    if not (is_pod_active p)
    then (if not (is_empty (get_running_containers p.containers)) then stop 0 else pass, s)
    else if contains p.uid s.pod_deletion_expectation
    then (stop 0, s)
    else (elim (lookup p.uid s.connections) [
      | none ↦ (unconnected p, s)
      | some conn ↦ connected p conn s
    ])

-- The result of the first loop.
pub data Filtered : Type 0 where
  skip : ℕ → Filtered
  go : List SyncPod → Filtered

abbrev pub prepend : SyncPod → Filtered × Server → Filtered × Server
prepend p (skip n, s) = (skip n, s)
prepend p (go ps, s) = (go (p ∷ ps), s)

abbrev pub filter_next : Step × Server → (Server → Filtered × Server) → Filtered × Server
filter_next (stop n, s) rest = (skip n, s)
filter_next (pass, s) rest = rest s
filter_next (keep p, s) rest = prepend p (rest s)

unfoldable pub filter_pods : List Pod → Server → Filtered × Server
unfolding filter_pod
filter_pods [] s = (go [], s)
filter_pods (p ∷ ps) s = filter_next (filter_pod p s) (λ t. filter_pods ps t)

pub record Plan : Type 0 where
  pub to_dispatch : List SyncPod
  pub to_update : List SyncPod
  pub leaders_to_delete : List SyncPod
  pub others_to_delete : List SyncPod

abbrev pub empty_plan : Plan
empty_plan = record {
  to_dispatch = [];
  to_update = [];
  leaders_to_delete = [];
  others_to_delete = [];
}

abbrev pub leads : SyncPod → Bool
leads p = elim (p.current_status.is_leader) [ none ↦ false | some b ↦ b ]

-- The body of the second loop; `hash` is that of the new specification.
abbrev pub classify_connected : String → SyncPod → MetaState → Plan → Plan
classify_connected hash p m plan =
    if not (m.expected_hash == m.current_hash)
    then (if leads p
        then record plan { leaders_to_delete = plan.leaders_to_delete ++ p ∷ [] }
        else record plan { others_to_delete = plan.others_to_delete ++ p ∷ [] })
    else if not (hash == m.expected_hash)
    then record plan { to_update = plan.to_update ++ p ∷ [] }
    else if not p.dispatched
    then record plan { to_dispatch = plan.to_dispatch ++ p ∷ [] }
    else plan

unfoldable pub classify_pod : String → SyncPod → Plan → Plan
classify_pod hash p plan = elim (p.current_status.meta_state) [
  | none ↦ record plan { to_dispatch = plan.to_dispatch ++ p ∷ [] }
  | some m ↦ classify_connected hash p m plan
]

unfoldable pub classify : String → List SyncPod → Plan → Plan
unfolding classify_pod
classify hash [] plan = plan
classify hash (p ∷ ps) plan = classify hash ps (classify_pod hash p plan)

-- The calls to the outside, in their order, with the UIDs of the pods.
pub data Action : Type 0 where
  delete : String → Action
  send : String → String → Action

-- The calls, the time after which to repeat, whether there is an error, and the server after it.
pub record Outcome : Type 0 where
  pub actions : List Action
  pub requeue_after : ℕ
  pub failed : Bool
  pub server : Server

module _ (delete_fails send_fails : Pod → Bool) where
  -- A loop leaves the error of its last call; `failed` is that of the calls before.
  unfoldable pub delete_pods : List SyncPod → Bool → Server → List Action × (Bool × Server)
  delete_pods [] failed s = ([], (failed, s))
  delete_pods (p ∷ ps) failed s =
      let (actions, result) = delete_pods ps (delete_fails p.pod) (
        if delete_fails p.pod then s else record s {
          pod_deletion_expectation = Sets.insert p.pod.uid s.pod_deletion_expectation;
        }) in
      (delete p.pod.uid ∷ actions, result)

  -- A send is counted whether it fails or not.
  abbrev pub count_send : String → Map Connection → Map Connection
  count_send uid connections = elim (lookup uid connections) [
    | none ↦ connections
    | some c ↦ insert uid (record c { send_times = suc c.send_times }) connections
  ]

  unfoldable pub send_pods : String → List SyncPod → Bool → Server → List Action × (Bool × Server)
  send_pods hash [] failed s = ([], (failed, s))
  send_pods hash (p ∷ ps) failed s =
      let t = record s { connections = count_send p.pod.uid s.connections } in
      let (actions, result) = send_pods hash ps (send_fails p.pod) (
        if send_fails p.pod
        then t
        else record t { pod_hash_expectation = insert p.pod.uid hash t.pod_hash_expectation }) in
      (send p.pod.uid hash ∷ actions, result)

  -- The part of `Reconcile` behind the second loop.
  unfoldable pub execute : String → Plan → Server → List Action × (Bool × Server)
  unfolding delete_pods send_pods
  execute hash plan s =
      let to_delete =
        if is_empty plan.others_to_delete then plan.leaders_to_delete else plan.others_to_delete in
      if not (is_empty to_delete)
      then delete_pods to_delete false s
      else if not (is_empty plan.to_update)
      then send_pods hash plan.to_update false s
      else send_pods hash plan.to_dispatch false s

  unfoldable pub reconcile : String → List Pod → Server → Outcome
  unfolding filter_pods classify execute
  reconcile hash pods s =
      let (filtered, t) = filter_pods pods s in
      elim filtered [
        | skip n ↦ record { actions = []; requeue_after = n; failed = false; server = t }
        | go ps ↦
            let (actions, (failed, t')) = execute hash (classify hash ps empty_plan) t in
            record { actions = actions; requeue_after = 0; failed = failed; server = t' }
      ]
