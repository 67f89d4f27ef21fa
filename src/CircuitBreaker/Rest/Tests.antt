-- ===== src/CircuitBreaker/Rest/Tests.antt =====
-- The index values of a URL.
use controller_mesh.Prelude.{String, [], ◌∷◌, Option, some, ◌≡◌, refl}
use controller_mesh.CircuitBreaker.Keys.{index_for_rest}
use controller_mesh.CircuitBreaker.Rest.{ParsedUrl, generate_wildcard_urls}

abbrev parsed : String → Option ParsedUrl
parsed url = some (record { scheme = "https"; host = "mesh"; path = "/a/b" })

wildcards_of_two :
    generate_wildcard_urls parsed "https://mesh/a/b/" "GET"
    ≡ index_for_rest "https://mesh/a/b/" "GET"
      ∷ index_for_rest "https://mesh/a/*" "GET"
      ∷ index_for_rest "https://mesh/*" "GET"
      ∷ []
unfolding generate_wildcard_urls
wildcards_of_two = refl
