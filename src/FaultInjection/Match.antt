-- ===== src/FaultInjection/Match.antt =====
-- Which faults a request meets: matchRest, matchContent, resourceMatch and matchInList
-- (pkg/proxy/faultinjection/manager.go).
pub mod Laws
use controller_mesh.Prelude.{
  String, List, [], ◌∷◌, Bool, true, false, not, ◌&&◌, ◌||◌, Option, none, some, Map, lookup, ◌==◌,
  is_empty, if◌then◌else◌, ◌>>=◌,
}
use controller_mesh.FaultInjection.Config.{
  MatchContent, HttpMatch, ResourceMatch, Match, HttpFaultInjection, Platform,
}
use controller_mesh.FaultInjection.Store.{Store}

-- The loop of `matchInList`.
unfoldable pub find_in_list : List String → String → Bool
find_in_list [] t = false
find_in_list (v ∷ list) t =
    let rest = find_in_list list t in if v == "*" then true else if t == v then true else rest

unfoldable pub match_in_list : List String → String → Bool
unfolding find_in_list
match_in_list list t = if is_empty list then true else find_in_list list t

unfoldable pub resource_match : List ResourceMatch → String → String → String → String → Bool
unfolding match_in_list
resource_match [] namespace api_group resource verb = false
resource_match (m ∷ ms) namespace api_group resource verb =
    let rest = resource_match ms namespace api_group resource verb in
    if not (match_in_list m.api_groups api_group)
    then rest
    else if not (match_in_list m.resources resource)
    then rest
    else if not (match_in_list m.verbs verb)
    then rest
    else if not (match_in_list m.namespaces namespace)
    then rest
    else true

module _ (lib : Platform) where
  open lib use {Float, Regexp, match_string}

  unfoldable pub match_content : Map Regexp → MatchContent → String → Bool
  match_content regexes mc content =
      if not (mc.exact == "")
      then mc.exact == content
      else if not (mc.regex == "")
      then (elim (lookup mc.regex regexes) [
        | none ↦ false
        | some regex ↦ match_string regex content
      ])
      else false

  -- A content that is set and does not match.
  abbrev pub misses : Map Regexp → Option MatchContent → String → Bool
  misses regexes none content = false
  misses regexes (some mc) content = not (match_content regexes mc content)

  -- `host` and `path` are those of the URL.
  unfoldable pub match_rest : Map Regexp → List HttpMatch → String → String → String → Bool
  unfolding match_content
  match_rest regexes [] host path method = false
  match_rest regexes (m ∷ ms) host path method =
      let rest = match_rest regexes ms host path method in
      if not (m.method == "*") && (not (m.method == "") && not (m.method == method))
      then rest
      else if misses regexes m.host host
      then rest
      else if misses regexes m.path path
      then rest
      else true

  -- The loop of `matchHTTPFaultInjection`.
  unfoldable pub match_http_fault_injection :
      Map Regexp
      → Map (HttpFaultInjection Float)
      → String
      → String
      → String
      → Option (List (HttpFaultInjection Float))
  unfolding match_rest
  match_http_fault_injection regexes [] host path method = some []
  match_http_fault_injection regexes ((key, rule) ∷ rules) host path method = do
    m ← rule.match
    res ← match_http_fault_injection regexes rules host path method
    some (if match_rest regexes m.http_match host path method then rule ∷ res else res)

  -- The loop of `GetInjectorByResource`.
  unfoldable pub match_resources :
      Map (HttpFaultInjection Float)
      → String
      → String
      → String
      → String
      → Option (List (HttpFaultInjection Float))
  unfolding resource_match
  match_resources [] namespace api_group resource verb = some []
  match_resources ((key, rule) ∷ rules) namespace api_group resource verb = do
    m ← rule.match
    res ← match_resources rules namespace api_group resource verb
    some (if resource_match m.resources namespace api_group resource verb then rule ∷ res else res)
