-- ===== src/Sharding/Config.antt =====
-- Sharding configurations (pkg/apis/ctrlmesh/v1alpha1/shardingconfig_types.go).
use controller_mesh.Selectors.{LabelSelector}
use controller_mesh.CircuitBreaker.Config.{ℤ}
use controller_mesh.Prelude.{ℕ, String, Bool, Option, List, Map}

pub record ResourceGroup : Type 0 where
  pub resources : List String
  pub api_groups : List String

pub record ObjectLimiter : Type 0 where
  pub related_resources : List ResourceGroup
  pub selector : Option LabelSelector

pub record CanaryConfig : Type 0 where
  pub replicas : Option ℤ
  pub in_namespaces : List String
  pub in_shard_hash : List String

pub record AutoConfig : Type 0 where
  pub sharding_size : ℤ
  pub every_shard_replicas : ℤ

pub record ControllerConfiguration : Type 0 where
  pub leader_election_name : String

-- The port is an int, by its bit pattern.
pub record WebhookConfiguration : Type 0 where
  pub cert_dir : String
  pub port : ℕ

-- A field that is `none` is a nil pointer.
pub record ShardingConfigRoot : Type 0 where
  pub disable : Option Bool
  pub prefix : String
  pub target_stateful_set : String
  pub canary : Option CanaryConfig
  pub auto : Option AutoConfig
  pub resource_selector : List ObjectLimiter

-- The specification of a configuration that has no children.
pub record ChildSpec : Type 0 where
  pub selector : Option LabelSelector
  pub controller : Option ControllerConfiguration
  pub webhook : Option WebhookConfiguration
  pub limits : List ObjectLimiter

-- A child, with the part of its metadata that the code sets.
pub record Child : Type 0 where
  pub name : String
  pub namespace : String
  pub annotations : Map String
  pub labels : Map String
  pub spec : ChildSpec

-- A root configuration: its name and namespace, its own specification and the part `Root` of it.
pub record RootConfig : Type 0 where
  pub name : String
  pub namespace : String
  pub spec : ChildSpec
  pub root : ShardingConfigRoot

-- The hash of a root, which other libraries compute, and the labels, which flags set.
pub record Environment : Type 0 where
  pub root_hash : ShardingConfigRoot → String
  pub namespace_shard_label : String
  pub shard_hash_label : String
