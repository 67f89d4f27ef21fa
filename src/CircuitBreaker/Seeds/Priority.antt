-- ===== src/CircuitBreaker/Seeds/Priority.antt =====
-- The order of the seeds (pkg/proxy/circuitbreaker/manager.go).
use controller_mesh.Prelude.{
  ℕ, ◌+◌, ◌*◌, ◌≡◌, refl, String, Bool, true, false, List, [], ◌∷◌, ◌++◌, some, length, get_elem?,
  if◌then◌else◌, ltb,
}
use controller_mesh.CircuitBreaker.Keys.{index_for_resource}
use controller_mesh.CircuitBreaker.Seeds.{generate_wildcard_seeds}

-- Which parts of a request are given up for a wildcard.
pub record Mask : Type 0 where
  pub namespace : Bool
  pub api_group : Bool
  pub resource : Bool
  pub verb : Bool

abbrev bit : Bool → ℕ
bit b = if b then 1 else 0

-- Fewer wildcards come first. Among as many, a wildcard for the verb is the last resort, then one
-- for the resource, then one for the API group, then one for the namespace.
abbrev pub rank : Mask → ℕ
rank m =
    16 * (bit m.namespace + bit m.api_group + bit m.resource + bit m.verb)
    + (bit m.namespace + 2 * bit m.api_group + 4 * bit m.resource + 8 * bit m.verb)

abbrev both : (Bool → List Mask) → List Mask
both f = f false ++ f true

-- The sixteen masks.
abbrev masks : List Mask
masks = both λ a.
    both
      λ b. both λ c. both λ d. record { namespace = a; api_group = b; resource = c; verb = d } ∷ []

abbrev count_below : ℕ → List Mask → ℕ
count_below n [] = 0
count_below n (m ∷ ms) = (if ltb (rank m) n then 1 else 0) + count_below n ms

-- How many masks have priority over this one.
abbrev pub position : Mask → ℕ
position m = count_below (rank m) masks

abbrev star : Bool → String → String
star b part = if b then "*" else part

abbrev pub seed_of : Mask → String → String → String → String → String
seed_of m ns group res verb =
    index_for_resource (star m.namespace ns) (star m.api_group group) (star m.resource res)
      (star m.verb verb)

at_position :
    (a b c d : Bool) (ns group res verb : String)
    → let m : Mask = record { namespace = a; api_group = b; resource = c; verb = d } in
      get_elem? (generate_wildcard_seeds ns group res verb) (position m)
      ≡ some (seed_of m ns group res verb)
unfolding generate_wildcard_seeds
at_position false false false false ns group res verb = refl
at_position false false false true ns group res verb = refl
at_position false false true false ns group res verb = refl
at_position false false true true ns group res verb = refl
at_position false true false false ns group res verb = refl
at_position false true false true ns group res verb = refl
at_position false true true false ns group res verb = refl
at_position false true true true ns group res verb = refl
at_position true false false false ns group res verb = refl
at_position true false false true ns group res verb = refl
at_position true false true false ns group res verb = refl
at_position true false true true ns group res verb = refl
at_position true true false false ns group res verb = refl
at_position true true false true ns group res verb = refl
at_position true true true false ns group res verb = refl
at_position true true true true ns group res verb = refl

-- Each choice of wildcards gives the seed whose place is the number of choices with priority over
-- it: fewer wildcards first, and among as many the order verb, resource, API group, namespace in
-- which parts are kept. There are no other seeds.
pub generate_wildcard_seeds-position :
    (ns group res verb : String)
    → (length (generate_wildcard_seeds ns group res verb) ≡ 16)
      × ((m : Mask)
          → get_elem? (generate_wildcard_seeds ns group res verb) (position m)
            ≡ some (seed_of m ns group res verb))
unfolding generate_wildcard_seeds
generate_wildcard_seeds-position ns group res verb =
    (refl, λ m. at_position m.namespace m.api_group m.resource m.verb ns group res verb)
