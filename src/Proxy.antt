-- ===== src/Proxy.antt =====
-- The specification that a proxy receives from the manager: the messages of
-- pkg/apis/ctrlmesh/proto/ctrlmesh.pb.go that carry it, and its internal form, pkg/apis/ctrlmesh/conv.
pub mod Limits
pub mod Specs
pub mod Loading
pub mod Query
pub mod Election
mod Tests
use controller_mesh.Prelude.{
  String, List, [], ◌∷◌, map, Bool, true, false, not, ◌&&◌, ◌||◌, any, contains, Option, none, some,
  Map, insert, is_empty, if◌then◌else◌, ◌==◌,
}
use controller_mesh.Selectors.{LabelSelector, merge_label_selector}

pub record SpecMeta : Type 0 where
  pub shard_name : String
  pub hash : String

pub record ApiGroupResource : Type 0 where
  pub api_groups : List String
  pub resources : List String

-- The object selector is JSON.
pub record Limit : Type 0 where
  pub object_selector : String
  pub resources : List ApiGroupResource

pub record Endpoint : Type 0 where
  pub name : String
  pub ip : String
  pub shard_name : String
  pub limits : List Limit

-- A meta that is `none` is a nil pointer.
pub record ProxySpec : Type 0 where
  pub meta : Option SpecMeta
  pub limits : List Limit
  pub endpoints : List Endpoint

pub record InternalMatchLimitRule : Type 0 where
  pub object_selector : Option LabelSelector
  pub resources : List ApiGroupResource

pub record InternalSpec : Type 0 where
  pub proxy_spec : ProxySpec
  pub current_limits : List InternalMatchLimitRule
  pub subset_limits : Map (List InternalMatchLimitRule)

pub record GroupResource : Type 0 where
  pub group : String
  pub resource : String

-- `decode` is what `json.Unmarshal` leaves in an empty selector, after an error too.
module _ (decode : String → LabelSelector) where
  unfoldable pub convert_limit : Limit → InternalMatchLimitRule
  convert_limit limit = record {
    object_selector =
        if limit.object_selector == "" then none else some (decode limit.object_selector);
    resources = limit.resources;
  }

  unfoldable pub convert_limits : List Limit → List InternalMatchLimitRule
  unfolding convert_limit
  convert_limits limits = map convert_limit limits

  -- Nil limits, which an endpoint may have, are an empty list here.
  unfoldable pub convert_endpoints :
      List Endpoint → Map (List InternalMatchLimitRule) → Map (List InternalMatchLimitRule)
  unfolding convert_limits
  convert_endpoints [] subsets = subsets
  convert_endpoints (e ∷ es) subsets =
      let next =
        if is_empty e.limits
        then subsets
        else insert e.shard_name (convert_limits e.limits) subsets in
      convert_endpoints es next

  unfoldable pub convert_proto_spec_to_internal : ProxySpec → InternalSpec
  unfolding convert_limits convert_endpoints
  convert_proto_spec_to_internal spec = record {
    proxy_spec = spec;
    current_limits = convert_limits spec.limits;
    subset_limits = convert_endpoints spec.endpoints [];
  }

unfoldable pub contains_string : String → List String → String → Bool
contains_string x [] wildcard = false
contains_string x (y ∷ []) wildcard = y == wildcard || contains x (y ∷ [])
contains_string x (y ∷ z ∷ zs) wildcard = contains x (y ∷ z ∷ zs)

unfoldable pub is_gr_matched_api_resources : GroupResource → List ApiGroupResource → Bool
unfolding contains_string
is_gr_matched_api_resources gr resources =
    any
      (λ r.
        contains_string gr.group r.api_groups "*" && contains_string gr.resource r.resources "*")
      resources

-- The body of the loop over the limits.
unfoldable pub merge_limit :
    GroupResource → InternalMatchLimitRule → Option LabelSelector → Option LabelSelector
unfolding is_gr_matched_api_resources
merge_limit gr limit sel = elim (limit.object_selector) [
  | none ↦ sel
  | some s ↦
      if not (is_empty limit.resources) && not (is_gr_matched_api_resources gr limit.resources)
      then sel
      else merge_label_selector sel (some s)
]

unfoldable pub merge_limits :
    GroupResource → List InternalMatchLimitRule → Option LabelSelector → Option LabelSelector
unfolding merge_limit
merge_limits gr [] sel = sel
merge_limits gr (l ∷ ls) sel = merge_limits gr ls (merge_limit gr l sel)

unfoldable pub get_object_selector : GroupResource → InternalSpec → Option LabelSelector
unfolding merge_limits
get_object_selector gr spec = merge_limits gr spec.current_limits none
