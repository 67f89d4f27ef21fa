-- ===== src/Sharding/Validation/Tests.antt =====
-- Concrete configurations that the webhook accepts and refuses
-- (pkg/webhook/shardingconfig/shardingconfig_validating_handler.go).
use controller_mesh.Prelude.{
  String, ◌≡◌, refl, List, [], ◌∷◌, ◌++◌, true, false, none, some, contains, lookup, insert,
}
use controller_mesh.Prelude.Sets
use controller_mesh.Sharding.Config
use controller_mesh.CircuitBreaker.Config.{pos}
use controller_mesh.Sharding.Config.{
  ResourceGroup, ObjectLimiter, CanaryConfig, AutoConfig, ShardingConfigRoot, RootConfig,
}
use controller_mesh.Sharding.Validation.{
  ShardingConfig, Environment, allowed, api_resource, all_limits, validate, validate_pairs,
  validate_controller, validate_webhook, validate_selector, validate_limits,
  validate_config_resource, claims_of_limit, claim, claim_limits, claim_resource, set_of,
}
use controller_mesh.Sharding.Validation.Limits.{joined, validate_no_duplicate}
use controller_mesh.Sharding.Validation.Ranges.{
  claimed, claims_of, validate_config_resource_disjoint,
}

-- Every selector is valid and not empty, and selects the namespaces of its first label.
abbrev cluster : Environment
cluster = record {
  selector_check = λ s. ("", false);
  select_namespaces = λ s. elim (s.match_labels) [ [] ↦ some [] | (k, v) ∷ rest ↦ some (v ∷ []) ];
  same_selector = λ a b. true;
}

abbrev limit : String → String → ObjectLimiter
limit namespace resource = record {
  related_resources = record { resources = resource ∷ []; api_groups = "" ∷ [] } ∷ [];
  selector = some (record { match_labels = ("namespace", namespace) ∷ []; match_expressions = [] });
}

abbrev config : String → List ObjectLimiter → ShardingConfig
config name limits = record {
  name = name;
  namespace = "default";
  labels = [];
  selector = none;
  controller = none;
  webhook = none;
  limits = some limits;
  root = none;
}

abbrev two_limits : List ObjectLimiter
two_limits = limit "a" "pods" ∷ limit "b" "services" ∷ []

two_limits_accepted : validate cluster (config "first" two_limits) ≡ none
unfolding validate validate_limits validate_selector validate_pairs validate_controller
    validate_webhook Sets.insert
two_limits_accepted = refl

validate_no_duplicate_example :
    (contains (api_resource "" "services") (joined (("pods", "") ∷ [])) ≡ false)
    × (contains (api_resource "*" "services") (joined (("pods", "") ∷ [])) ≡ false)
validate_no_duplicate_example =
    validate_no_duplicate cluster (config "first" two_limits) two_limits (("pods", "") ∷ []) []
      "services" "" two_limits_accepted refl refl

-- A resource of all API groups that comes last is not noticed.
late_wildcard : validate_pairs (("pods", "apps") ∷ ("pods", "*") ∷ []) [] ≡ none
unfolding validate_pairs Sets.insert
late_wildcard = refl

apart :
    validate_config_resource cluster true
      (config "other" (limit "c" "pods" ∷ []) ∷ [])
      (config "first" two_limits)
    ≡ allowed
unfolding validate_config_resource claim_limits claims_of_limit claim claim_resource set_of lookup
    insert Sets.insert
apart = refl

claims_apart :
    claims_of cluster
      (all_limits cluster (config "other" (limit "c" "pods" ∷ []) ∷ []) (config "first" two_limits))
    ≡ some ((("pods", "c" ∷ []) ∷ []) ++ ("pods", "a" ∷ []) ∷ ("services", "b" ∷ []) ∷ [])
unfolding claims_of_limit
claims_apart = refl

validate_config_resource_disjoint_example : claimed "pods" "a" (("pods", "c" ∷ []) ∷ []) ≡ false
validate_config_resource_disjoint_example =
    validate_config_resource_disjoint cluster (config "other" (limit "c" "pods" ∷ []) ∷ [])
      (config "first" two_limits) (("pods", "c" ∷ []) ∷ []) (("services", "b" ∷ []) ∷ []) "pods"
      ("a" ∷ []) apart claims_apart "a" refl

abbrev labels_of_shards : Config.Environment
labels_of_shards = record {
  root_hash = λ r. r.prefix;
  namespace_shard_label = "namespace";
  shard_hash_label = "hash";
}

abbrev canary : CanaryConfig
canary = record { replicas = some (pos 1); in_namespaces = "test" ∷ []; in_shard_hash = [] }

abbrev auto : AutoConfig
auto = record { sharding_size = pos 2; every_shard_replicas = pos 2 }

abbrev root : RootConfig
root = record {
  name = "root";
  namespace = "default";
  spec = record { selector = none; controller = none; webhook = none; limits = [] };
  root = record {
    disable = none;
    prefix = "shard";
    target_stateful_set = "operator";
    canary = some canary;
    auto = some auto;
    resource_selector = record { related_resources = []; selector = none } ∷ [];
  };
}
