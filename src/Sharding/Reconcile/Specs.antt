-- ===== src/Sharding/Reconcile/Specs.antt =====
-- The specification of a shard that is sent to its proxies
-- (pkg/manager/controllers/shardingconfigserver/util.go).
pub mod Received
use controller_mesh.Prelude.{All, String, List, [], ◌∷◌, map, false, Option, some, ◌≡◌, refl, ◌==◌}
use controller_mesh.Selectors.{LabelSelector}
use controller_mesh.Proxy.{
  ApiGroupResource, Limit, ProxySpec, InternalMatchLimitRule, convert_limit, convert_limits,
  convert_proto_spec_to_internal,
}
use controller_mesh.Sharding.Config.{ResourceGroup, ObjectLimiter}
use controller_mesh.Sharding.Auto.{selector_or_empty}

unfoldable pub generate_api_resources : List ResourceGroup → List ApiGroupResource
generate_api_resources rs =
    map (λ r. record { api_groups = r.api_groups; resources = r.resources }) rs

-- `dump` is DumpJSON of a selector, and `limits_hash` the hash of DumpJSON of the limits.
module _ (dump : Option LabelSelector → String) (limits_hash : List Limit → String) where
  unfoldable pub generate_limits : List ObjectLimiter → List Limit
  unfolding generate_api_resources
  generate_limits limits =
      map
        (λ l. record {
          object_selector = dump l.selector;
          resources = generate_api_resources l.related_resources;
        })
        limits

  unfoldable pub generate_proto_config : String → List ObjectLimiter → ProxySpec
  unfolding generate_limits
  generate_proto_config name limits = record {
    meta = some (record { shard_name = name; hash = limits_hash (generate_limits limits) });
    limits = generate_limits limits;
    endpoints = [];
  }
