-- ===== src/Sharding/Reconcile/Tests.antt =====
-- Reconciliations of concrete pods
-- (pkg/manager/controllers/shardingconfigserver/shardingconfig_controller.go).
use controller_mesh.Prelude.{
  any, not, ◌||◌, Option, Map, all, ◌≤◌, ◌==◌, if◌then◌else◌, String, ◌≡◌, refl, inr, List, [], ◌∷◌,
  ◌++◌, Bool, true, false, none, some, lookup,
}
use controller_mesh.Pods.{Pod, is_pod_active}
use controller_mesh.Sharding.Reconcile.{
  Connection, Server, SyncPod, delete, go, filter_pod, filter_pods, reconcile,
}
use controller_mesh.Sharding.Reconcile.Phases.{phase, reconcile_in_phases}
use controller_mesh.Sharding.Reconcile.Waits.{Unreported, reconcile_awaits}
use controller_mesh.Selectors.{Requirement, LabelSelector}
use controller_mesh.Proxy.{
  GroupResource, get_object_selector, Limit, convert_proto_spec_to_internal,
}
use controller_mesh.Sharding.Config.{ObjectLimiter}
use controller_mesh.Sharding.Auto.{selector_or_empty}
use controller_mesh.Sharding.Auto.Sync.{Answer, answer_ok}
use controller_mesh.Sharding.Reconcile.Clearing.{
  ShardAnswer, shard_missing, clear_old_pods, is_stale, deletions, clear_old_pods-few,
}
use controller_mesh.Sharding.Reconcile.Specs.{generate_proto_config}
use controller_mesh.Sharding.Reconcile.Specs.Received.{covers, matches-generate_proto_config}
use controller_mesh.Selectors.Merge.{matches, matches_option}

abbrev pod : String → Pod
pod name = record {
  uid = name;
  namespace = "default";
  name = name;
  labels = [];
  deleted = false;
  phase = "Running";
  conditions = [];
  containers = [];
  owner = none;
  first_owner = none;
  age = 0;
}

abbrev connection : String → String → Bool → Connection
connection expected current leads = record {
  status = record {
    meta_state = some (record { expected_hash = expected; current_hash = current });
    is_leader = some leads;
  };
  send_times = 1;
  disconnected = false;
}

abbrev two_pods : List Pod
two_pods = pod "first" ∷ pod "second" ∷ []

-- Both pods run with an old specification, and the first one leads.
abbrev server : Server
server = record {
  connections = ("first", connection "b" "a" true) ∷ ("second", connection "b" "a" false) ∷ [];
  pod_hash_expectation = [];
  pod_deletion_expectation = [];
}

abbrev kept_pods : List SyncPod
kept_pods =
    record {
      pod = pod "first";
      dispatched = true;
      current_status = (connection "b" "a" true).status;
    }
    ∷ record {
      pod = pod "second";
      dispatched = true;
      current_status = (connection "b" "a" false).status;
    }
    ∷ []

keeps_both : (filter_pods two_pods server).0 ≡ go kept_pods
unfolding filter_pods filter_pod lookup
keeps_both = refl

abbrev accepts : Pod → Bool
accepts p = false

reconcile_in_phases_example :
    (reconcile accepts accepts "b" two_pods server).actions ≡ phase "b" kept_pods
reconcile_in_phases_example =
    reconcile_in_phases accepts accepts "b" two_pods server kept_pods keeps_both

deletes_the_second : phase "b" kept_pods ≡ delete "second" ∷ []
deletes_the_second = refl

-- The second pod was sent the hash "c" and has reported "b".
abbrev sent_server : Server
sent_server = record server { pod_hash_expectation = ("second", "c") ∷ [] }

second_is_active : is_pod_active (pod "second") ≡ true
unfolding is_pod_active
second_is_active = refl

second-Unreported : Unreported sent_server (pod "second")
unfolding lookup
second-Unreported = record {
  conn = connection "b" "a" false;
  hash = "c";
  connects = refl;
  expects = refl;
  differs = refl;
}

reconcile_awaits_example :
    (reconcile accepts accepts "c" (pod "first" ∷ [] ++ pod "second" ∷ []) sent_server).actions ≡ []
reconcile_awaits_example =
    reconcile_awaits accepts accepts "c" (pod "first" ∷ []) [] (pod "second") sent_server
      (second_is_active, inr second-Unreported)

-- Two pods of a shard that is gone: the first deletion ends the loop.
abbrev old_pod : String → Pod
old_pod name = record (pod name) {
  labels = ("ctrlmesh.kusionstack.io/sharding-config-injected", "shard-1") ∷ [];
}

abbrev no_shard : String → ShardAnswer
no_shard name = shard_missing

abbrev deletes : Pod → Answer
deletes p = answer_ok

abbrev selects_all : Option LabelSelector → Option (Map String → Bool)
selects_all s = some (λ labels. true)

abbrev two_old_pods : List Pod
two_old_pods = old_pod "first" ∷ old_pod "second" ∷ []

only_the_first :
    clear_old_pods no_shard deletes selects_all two_old_pods ≡ some (old_pod "first" ∷ [], false)
unfolding clear_old_pods lookup
only_the_first = refl

clear_old_pods-few_example :
    (deletions no_shard deletes selects_all (old_pod "first" ∷ []) ≤ 1)
    × (all (is_stale no_shard deletes selects_all) (old_pod "first" ∷ []) ≡ true)
clear_old_pods-few_example =
    clear_old_pods-few no_shard deletes selects_all two_old_pods (old_pod "first" ∷ []) false
      only_the_first

-- A limit with a selector and one without; a dump tells the two selectors apart.
abbrev dumped : Option LabelSelector → String
dumped none = "null"
dumped (some s) = "{}"

abbrev team_selector : LabelSelector
team_selector = record { match_labels = ("team", "a") ∷ []; match_expressions = [] }

abbrev decoded : String → LabelSelector
decoded t = if t == "null" then selector_or_empty none else team_selector

abbrev no_hash : List Limit → String
no_hash limits = ""

-- The first limit is for the group of apps.
abbrev two_limits : List ObjectLimiter
two_limits =
    record {
      related_resources = record { resources = "*" ∷ []; api_groups = "apps" ∷ [] } ∷ [];
      selector = some team_selector;
    }
    ∷ record { related_resources = []; selector = none }
    ∷ []

abbrev value_of : String → String
value_of key = "a"

abbrev meets_a : Requirement → Bool
meets_a r = any (λ v. v == "a") r.values

abbrev deployments : GroupResource
deployments = record { group = "apps"; resource = "deployments" }

matches-generate_proto_config_example :
    matches_option meets_a (
      get_object_selector deployments (
        convert_proto_spec_to_internal decoded
          (generate_proto_config dumped no_hash "a" two_limits)))
    ≡ all
        (λ l. not (covers deployments l) || matches meets_a (selector_or_empty l.selector))
        two_limits
unfolding lookup
matches-generate_proto_config_example =
    matches-generate_proto_config dumped no_hash decoded value_of meets_a deployments "a" two_limits
      ((refl, refl), ((refl, refl), tt)) (((refl, tt), (refl, tt)), ((tt, tt), tt))
