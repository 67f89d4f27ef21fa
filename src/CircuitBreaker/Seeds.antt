-- ===== src/CircuitBreaker/Seeds.antt =====
-- The index values that a request is looked up under, in the order of their priority:
-- generateWildcardSeeds (pkg/proxy/circuitbreaker/manager.go).
pub mod Priority
use controller_mesh.Prelude.{String, List, [], ◌∷◌}
use controller_mesh.CircuitBreaker.Keys.{index_for_resource}

unfoldable pub generate_wildcard_seeds : String → String → String → String → List String
generate_wildcard_seeds namespace api_group resource verb =
    index_for_resource namespace api_group resource verb
    ∷ index_for_resource "*" api_group resource verb
    ∷ index_for_resource namespace "*" resource verb
    ∷ index_for_resource namespace api_group "*" verb
    ∷ index_for_resource namespace api_group resource "*"
    ∷ index_for_resource "*" "*" resource verb
    ∷ index_for_resource "*" api_group "*" verb
    ∷ index_for_resource namespace "*" "*" verb
    ∷ index_for_resource "*" api_group resource "*"
    ∷ index_for_resource namespace "*" resource "*"
    ∷ index_for_resource namespace api_group "*" "*"
    ∷ index_for_resource "*" "*" "*" verb
    ∷ index_for_resource "*" "*" resource "*"
    ∷ index_for_resource "*" api_group "*" "*"
    ∷ index_for_resource namespace "*" "*" "*"
    ∷ index_for_resource "*" "*" "*" "*"
    ∷ []
