-- ===== src/CircuitBreaker/Keys.antt =====
-- The texts under which rules are stored and found: indexForResource, indexForRest,
-- indexFuncForResource and indexFuncForRest (pkg/proxy/circuitbreaker/store.go).
pub mod Laws
use controller_mesh.Prelude.{String, List, [], ◌∷◌, map, flat_map, colon_join, Map}
use controller_mesh.CircuitBreaker.Config.{ResourceRule, RestRules, RateLimiting}

unfoldable pub index_for_resource : String → String → String → String → String
unfolding colon_join
index_for_resource namespace api_group resource verb =
    colon_join namespace (colon_join api_group (colon_join resource verb))

unfoldable pub index_for_rest : String → String → String
unfolding colon_join
index_for_rest url method = colon_join url method

-- The four nested loops over one rule, outermost first.
unfoldable pub index_values_of_rule : ResourceRule → List String
unfolding index_for_resource
index_values_of_rule rule =
    flat_map
      (λ namespace.
        flat_map
          (λ api_group.
            flat_map
              (λ resource.
                map (λ verb. index_for_resource namespace api_group resource verb) rule.verbs)
              rule.resources)
          rule.api_groups)
      rule.namespaces

unfoldable pub index_func_for_resource : RateLimiting → List String
unfolding index_values_of_rule
index_func_for_resource limiting = flat_map index_values_of_rule limiting.resource_rules

unfoldable pub index_func_for_rest : RateLimiting → List String
unfolding index_for_rest
index_func_for_rest limiting =
    map (λ (rest : RestRules). index_for_rest rest.url rest.method) limiting.rest_rules

abbrev pub index_resource : String
index_resource = "resource"

abbrev pub index_rest : String
index_rest = "rest"

unfoldable pub index_functions : Map (RateLimiting → List String)
index_functions = (index_resource, index_func_for_resource) ∷ (index_rest, index_func_for_rest) ∷ []
