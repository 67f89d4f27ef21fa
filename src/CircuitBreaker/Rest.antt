-- ===== src/CircuitBreaker/Rest.antt =====
-- The validation of requests to URLs: generateWildcardUrls and ValidateRest
-- (pkg/proxy/circuitbreaker/manager.go).
mod Tests
use Prim.Native.Char.{code}
use Prim.Native.String
use controller_mesh.Prelude.{
  ℕ, zero, suc, ◌-◌, String, List, [], ◌∷◌, ◌++◌, Option, none, some, if◌then◌else◌, ◌==◌, eqb,
  split, length, take,
}
use controller_mesh.CircuitBreaker.Config.{Platform}
use controller_mesh.CircuitBreaker.Keys.{index_rest, index_for_rest}
use controller_mesh.CircuitBreaker.Store.{Store}
use controller_mesh.CircuitBreaker.Validation.{ValidateResult, validate_first}

-- What `url.Parse` finds, as far as it is read.
pub record ParsedUrl : Type 0 where
  pub scheme : String
  pub host : String
  pub path : String

-- `strings.TrimSuffix(s, "/")`.
unfoldable pub trim_slash : String → String
trim_slash String.[] = ""
trim_slash (String.◌∷◌ c String.[]) = if eqb (code c) b'/' then "" else String.◌∷◌ c ""
trim_slash (String.◌∷◌ c (String.◌∷◌ d s)) = String.◌∷◌ c (trim_slash (String.◌∷◌ d s))

-- `strings.Join(parts, "/")`.
unfoldable pub slash_join : List String → String
slash_join [] = ""
slash_join (part ∷ []) = part
slash_join (part ∷ next ∷ parts) = String.◌++◌ part (String.◌++◌ "/" (slash_join (next ∷ parts)))

-- The loop over the numbers of parts, from the given one down to 1.
unfoldable pub wildcard_urls : String → List String → String → ℕ → List String
unfolding slash_join
wildcard_urls site parts method zero = []
wildcard_urls site parts method (suc i) =
    index_for_rest (String.◌++◌ site (String.◌++◌ (slash_join (take (suc i) parts)) "/*")) method
    ∷ wildcard_urls site parts method i

unfoldable pub generate_wildcard_urls : (String → Option ParsedUrl) → String → String → List String
unfolding trim_slash wildcard_urls split
generate_wildcard_urls parse_url url method =
    index_for_rest url method ∷ (elim (parse_url (trim_slash url)) [
      | none ↦ []
      | some u ↦
          let site = String.◌++◌ u.scheme (String.◌++◌ "://" u.host) in
          let parts = split "/" u.path in
          if u.path == "" then [] else wildcard_urls site parts method (length parts - 1)
    ])

module _ (lib : Platform) where
  open lib use {Limiter}

  -- The loop is the same as that of `ValidateResource`, over the other index.
  unfoldable pub validate_rest :
      (String → Option ParsedUrl)
      → ℕ
      → String
      → String
      → Store Limiter
      → Option (ValidateResult × Store Limiter)
  unfolding generate_wildcard_urls validate_first
  validate_rest parse_url now url method s =
      validate_first lib now index_rest (generate_wildcard_urls parse_url url method) s
