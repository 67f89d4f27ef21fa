-- ===== src/Conversion.antt =====
-- The conversion of the resources that users write into the configurations that the proxies receive
-- (pkg/apis/ctrlmesh/utils/conv). Where a type of the API has the fields of the message of the same
-- name, the message stands for both; a nil list or map is an empty one.
pub mod Faults
pub mod RoundTrip
mod Tests
use controller_mesh.Prelude.{
  Map, ℕ, String, List, [], ◌∷◌, map, Option, none, some, if◌then◌else◌, ◌==◌,
}
use controller_mesh.CircuitBreaker.Config.{
  BreakerState, opened, closed, TriggerPolicy, normal, limiter_only, force_opened, force_closed,
  RecoverType, manual, sleeping_window, RecoverPolicy, ResourceRule, RestRules, Bucket,
  RateLimiting, InterceptType, whitelist, blacklist, ContentType, plain, regexp,
  TrafficInterceptRule, SyncOption, delete, CircuitBreaker, LimitingSnapshot,
}

pub record ApiRecoverPolicy : Type 0 where
  pub recover_type : String
  pub sleeping_window_size : Option String

pub record Limiting : Type 0 where
  pub name : String
  pub resource_rules : List ResourceRule
  pub rest_rules : List RestRules
  pub bucket : Bucket
  pub trigger_policy : String
  pub recover_policy : Option ApiRecoverPolicy
  pub properties : Map String

pub record ApiTrafficInterceptRule : Type 0 where
  pub name : String
  pub intercept_type : String
  pub content_type : String
  pub contents : List String
  pub methods : List String

pub record ApiCircuitBreaker : Type 0 where
  pub name : String
  pub rate_limitings : List Limiting
  pub traffic_intercept_rules : List ApiTrafficInterceptRule

pub record ApiLimitingSnapshot : Type 0 where
  pub name : String
  pub state : String
  pub last_transition_time : Option ℕ

-- A text that is none of the constants leaves the number 0, which is the first constructor.
unfoldable pub convert_intercept_type : String → InterceptType
convert_intercept_type t =
    if t == "Whitelist" then whitelist else if t == "Blacklist" then blacklist else whitelist

unfoldable pub convert_content_type : String → ContentType
convert_content_type t = if t == "Regexp" then regexp else if t == "Normal" then plain else plain

unfoldable pub convert_traffic_intercept_rule : ApiTrafficInterceptRule → TrafficInterceptRule
unfolding convert_intercept_type convert_content_type
convert_traffic_intercept_rule rule = record {
  name = rule.name;
  intercept_type = convert_intercept_type rule.intercept_type;
  content_type = convert_content_type rule.content_type;
  contents = rule.contents;
  methods = rule.methods;
}

unfoldable pub convert_trigger_policy : String → TriggerPolicy
convert_trigger_policy p =
    if p == "LimiterOnly"
    then limiter_only
    else if p == "Normal"
    then normal
    else if p == "ForceClosed"
    then force_closed
    else if p == "ForceOpened"
    then force_opened
    else normal

unfoldable pub convert_recover_type : String → RecoverType
convert_recover_type t =
    if t == "Manual" then manual else if t == "SleepingWindow" then sleeping_window else manual

unfoldable pub convert_recover_policy : ApiRecoverPolicy → RecoverPolicy
unfolding convert_recover_type
convert_recover_policy p = record {
  recover_type = convert_recover_type p.recover_type;
  sleeping_window_size = elim (p.sleeping_window_size) [ none ↦ "" | some size ↦ size ];
}

unfoldable pub convert_resource_rule : ResourceRule → ResourceRule
convert_resource_rule r = record {
  api_groups = r.api_groups;
  resources = r.resources;
  verbs = r.verbs;
  namespaces = r.namespaces;
}

-- The copy of the properties, entry by entry: the keys of a map are distinct.
unfoldable pub copy_properties : Map String → Map String
copy_properties [] = []
copy_properties ((k, v) ∷ properties) = (k, v) ∷ copy_properties properties

unfoldable pub convert_limiting : Limiting → RateLimiting
unfolding convert_resource_rule convert_trigger_policy convert_recover_policy copy_properties
convert_limiting limit = record {
  name = limit.name;
  resource_rules = map convert_resource_rule limit.resource_rules;
  rest_rules = map (λ r. record { url = r.url; method = r.method }) limit.rest_rules;
  bucket = record {
    limit = limit.bucket.limit;
    burst = limit.bucket.burst;
    interval = limit.bucket.interval;
  };
  trigger_policy = convert_trigger_policy limit.trigger_policy;
  recover_policy = elim (limit.recover_policy) [
    | none ↦ none
    | some p ↦ some (convert_recover_policy p)
  ];
  properties = copy_properties limit.properties;
}

-- `hash` is the MD5 hash of the message as JSON; the option is still 0.
unfoldable pub convert_circuit_breaker :
    (CircuitBreaker → String) → ApiCircuitBreaker → CircuitBreaker
unfolding convert_traffic_intercept_rule convert_limiting
convert_circuit_breaker hash breaker =
    let message : CircuitBreaker = record {
      option = delete;
      traffic_intercept_rules = map convert_traffic_intercept_rule breaker.traffic_intercept_rules;
      rate_limitings = map convert_limiting breaker.rate_limitings;
      config_hash = "";
      name = breaker.name;
    } in
    record message { config_hash = hash message }

unfoldable pub convert_state : BreakerState → String
convert_state opened = "Opened"
convert_state closed = "Closed"

unfoldable pub convert_snapshots : List LimitingSnapshot → List ApiLimitingSnapshot
unfolding convert_state
convert_snapshots snapshots =
    map
      (λ s. record {
        name = s.limiting_name;
        state = convert_state s.state;
        last_transition_time = s.last_transition_time;
      })
      snapshots
