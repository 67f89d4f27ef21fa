-- ===== src/Sharding/Validation.antt =====
-- The webhook that validates sharding configurations
-- (pkg/webhook/shardingconfig/shardingconfig_validating_handler.go).
pub mod Limits
pub mod Ranges
pub mod Root
mod Tests
use Prim.Native.String
use controller_mesh.Prelude.{
  ℕ, String, List, [], ◌∷◌, ◌++◌, map, flat_map, Bool, true, false, not, ◌&&◌, ◌||◌, Option, none,
  some, Map, lookup, insert, contains, leb, eqb, is_empty, is_some, if◌then◌else◌, ◌==◌,
}
use controller_mesh.Prelude.Sets
use controller_mesh.CircuitBreaker.Config.{ℤ, pos, negsuc}
use controller_mesh.Selectors.{LabelSelector}
use controller_mesh.Sharding.Config.{
  ResourceGroup, ObjectLimiter, ShardingConfigRoot, CanaryConfig, AutoConfig,
  ControllerConfiguration, WebhookConfiguration,
}

-- A configuration, with limits that are `none` where they are nil.
pub record ShardingConfig : Type 0 where
  pub name : String
  pub namespace : String
  pub labels : Map String
  pub selector : Option LabelSelector
  pub controller : Option ControllerConfiguration
  pub webhook : Option WebhookConfiguration
  pub limits : Option (List ObjectLimiter)
  pub root : Option ShardingConfigRoot

abbrev text : String → String → String
text a b = String.◌++◌ a b

unfoldable pub validate_canary : Option CanaryConfig → Option String
validate_canary none = none
validate_canary (some canary) =
    if is_empty canary.in_shard_hash && is_empty canary.in_namespaces
    then some "canary config must have at least one inShardHash or inNamespaces"
    else if not (is_some canary.replicas)
    then some "canary shard replicas must not be nil"
    else none

abbrev pub is_zero : ℤ → Bool
is_zero (pos n) = eqb n 0
is_zero (negsuc n) = false

unfoldable pub validate_auto : Option AutoConfig → Option String
validate_auto none = none
validate_auto (some auto) =
    if is_zero auto.every_shard_replicas || is_zero auto.sharding_size
    then some "illegal root auto config"
    else none

-- A result of `none` is the absence of an error.
abbrev pub first_error : Option String → Option String → Option String
first_error none next = next
first_error (some e) next = some e

unfoldable pub validate_root_config : ShardingConfigRoot → Option String
unfolding validate_canary validate_auto
validate_root_config root = first_error (validate_canary root.canary) (validate_auto root.auto)

-- The resources and API groups of the limits, in the order of the four loops.
abbrev pub pairs_of_group : ResourceGroup → List (String × String)
pairs_of_group g = flat_map (λ resource. map (λ api. (resource, api)) g.api_groups) g.resources

abbrev pub pairs_of : List ObjectLimiter → List (String × String)
pairs_of limits =
    flat_map (λ (l : ObjectLimiter). flat_map pairs_of_group l.related_resources) limits

abbrev pub api_resource : String → String → String
api_resource api resource = text api (text "/" resource)

-- The body of the four loops.
unfoldable pub validate_pairs : List (String × String) → List String → Option String
validate_pairs [] resource_set = none
validate_pairs ((resource, api) ∷ pairs) resource_set =
    let rest = validate_pairs pairs (Sets.insert (api_resource api resource) resource_set) in
    if contains (api_resource "*" resource) resource_set
      || contains (api_resource api resource) resource_set
    then some (text resource " has conflict resource limits")
    else rest

unfoldable pub validate_controller : Option ControllerConfiguration → Option String
validate_controller none = none
validate_controller (some c) =
    if c.leader_election_name == ""
    then some "leaderElectionName for controller can not be empty"
    else none

-- An int that is at most 0, by its bit pattern.
abbrev pub not_positive : ℕ → Bool
not_positive n = eqb n 0 || leb 9223372036854775808 n

unfoldable pub validate_webhook : Option WebhookConfiguration → Option String
validate_webhook none = none
validate_webhook (some w) =
    if w.cert_dir == ""
    then some "certDir for webhook can not be empty"
    else if not_positive w.port
    then some "port for webhook must be bigger than 0"
    else none

-- What other libraries answer: the error of a selector or whether it is empty, the names of the
-- namespaces that a selector selects or an error, and whether two selectors are deeply equal.
pub record Environment : Type 0 where
  pub selector_check : Option LabelSelector → String × Bool
  pub select_namespaces : LabelSelector → Option (List String)
  pub same_selector : Option LabelSelector → Option LabelSelector → Bool

pub data Response : Type 0 where
  allowed : Response
  errored : ℕ → String → Response

-- The loop over the names, where the resource has a range: `none` where a name is in it.
unfoldable pub extend_range : List String → List String → Option (List String)
extend_range [] range = some range
extend_range (name ∷ names) range =
    let rest = extend_range names (Sets.insert name range) in
    if contains name range then none else rest

-- `sets.New(names...)`.
unfoldable pub set_of : List String → List String → List String
set_of [] range = range
set_of (name ∷ names) range = set_of names (Sets.insert name range)

-- One round of the loops over the resources of one limit: `none` is a conflict.
unfoldable pub claim_resource :
    String → List String → Map (List String) → Option (Map (List String))
unfolding extend_range set_of
claim_resource resource names ranges = elim (lookup resource ranges) [
  | none ↦ some (insert resource (set_of names []) ranges)
  | some range ↦ elim (extend_range names range) [
    | none ↦ none
    | some range' ↦ some (insert resource range' ranges)
  ]
]

unfoldable pub claim : List (String × List String) → Map (List String) → Option (Map (List String))
unfolding claim_resource
claim [] ranges = some ranges
claim ((resource, names) ∷ claims) ranges = elim (claim_resource resource names ranges) [
  | none ↦ none
  | some ranges' ↦ claim claims ranges'
]

-- What the loop over some limits ends with.
pub data Claimed : Type 0 where
  free : Map (List String) → Claimed
  conflict list_error : Claimed

-- The texts of the responses are left out here.
abbrev pub respond : Claimed → Response
respond (free ranges) = allowed
respond conflict = errored 422 ""
respond list_error = errored 500 ""

module _ (env : Environment) where
  unfoldable pub validate_selector :
      Option LabelSelector → Option ShardingConfigRoot → Option String
  validate_selector selector root =
      let (error, empty) = env.selector_check selector in
      if not (error == "")
      then some (text "invalid selector: " error)
      else if empty && not (is_some root)
      then some "invalid selector can not be empty"
      else none

  unfoldable pub validate_limits : ShardingConfig → Option String
  unfolding validate_pairs validate_controller validate_webhook
  validate_limits obj = elim (obj.limits) [
    | none ↦ if is_some obj.root then none else some "invalid nil limits"
    | some limits ↦
        first_error (validate_pairs (pairs_of limits) [])
          (first_error (validate_controller obj.controller) (validate_webhook obj.webhook))
  ]

  unfoldable pub validate : ShardingConfig → Option String
  unfolding validate_root_config validate_selector validate_limits
  validate obj =
      first_error (elim (obj.root) [ none ↦ none | some root ↦ validate_root_config root ])
        (first_error (validate_selector obj.selector obj.root) (validate_limits obj))

  unfoldable pub validate_update : ShardingConfig → ShardingConfig → Option String
  validate_update obj old =
      if not (env.same_selector obj.selector old.selector)
      then some "selector can not be modified"
      else none

  -- A limit of a configuration, where its namespaces can be listed: its resources, each with the
  -- namespaces. A limit without a selector has none; `none` is an error.
  unfoldable pub claims_of_limit : ObjectLimiter → Option (List (String × List String))
  claims_of_limit limit = elim (limit.selector) [
    | none ↦ some []
    | some selector ↦ elim (env.select_namespaces selector) [
      | none ↦ none
      | some names ↦ some (
          flat_map (λ (g : ResourceGroup). map (λ resource. (resource, names)) g.resources)
            limit.related_resources)
    ]
  ]

  unfoldable pub claim_limits : List ObjectLimiter → Map (List String) → Claimed
  unfolding claims_of_limit claim
  claim_limits [] ranges = free ranges
  claim_limits (limit ∷ limits) ranges = elim (claims_of_limit limit) [
    | none ↦ list_error
    | some claims ↦ elim (claim claims ranges) [
      | none ↦ conflict
      | some ranges' ↦ claim_limits limits ranges'
    ]
  ]

  abbrev pub limits_of : ShardingConfig → List ObjectLimiter
  limits_of cfg = elim (cfg.limits) [ none ↦ [] | some limits ↦ limits ]

  -- The limits of the other configurations, in their order, and then those of the object.
  abbrev pub all_limits : List ShardingConfig → ShardingConfig → List ObjectLimiter
  all_limits [] obj = limits_of obj
  all_limits (cfg ∷ cfgs) obj =
      let rest = all_limits cfgs obj in if cfg.name == obj.name then rest else limits_of cfg ++ rest

  unfoldable pub validate_config_resource : Bool → List ShardingConfig → ShardingConfig → Response
  unfolding claim_limits
  validate_config_resource enable_force_validate cfgs obj =
      if not enable_force_validate then allowed else respond (claim_limits (all_limits cfgs obj) [])

  -- The handler for an object that can be decoded; `old` is the old object of an update.
  unfoldable pub handle :
      Bool → List ShardingConfig → ShardingConfig → Option ShardingConfig → Response
  unfolding validate validate_update validate_config_resource
  handle enable_force_validate cfgs obj old =
      if is_some (lookup "ctrlmesh.kusionstack.io/ignore-validate" obj.labels)
      then allowed
      else (elim (validate obj) [
        | some e ↦ errored 422 e
        | none ↦
            elim (elim old as (λ _. Option String) [
              | none ↦ none
              | some o ↦ validate_update obj o
            ]) [
              | some e ↦ errored 422 e
              | none ↦ validate_config_resource enable_force_validate cfgs obj
            ]
      ])
