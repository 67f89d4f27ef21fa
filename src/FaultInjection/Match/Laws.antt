-- ===== src/FaultInjection/Match/Laws.antt =====
-- What a fault covers (pkg/proxy/faultinjection/manager.go), described without loops.
use controller_mesh.Prelude.{
  String, ◌≡◌, refl, List, [], ◌∷◌, Bool, true, false, not, ◌&&◌, ◌||◌, eq_iff, contains, any,
  is_empty, arith, if◌then◌else◌,
}
use controller_mesh.FaultInjection.Config.{ResourceMatch}
use controller_mesh.FaultInjection.Match.{find_in_list, match_in_list, resource_match}

-- A list with nothing in it or with a star allows everything.
abbrev pub list_allows : List String → String → Bool
list_allows list t = is_empty list || (contains "*" list || contains t list)

abbrev pub covers : String → String → String → String → ResourceMatch → Bool
covers namespace api_group resource verb m =
    (list_allows m.api_groups api_group && list_allows m.resources resource)
    && (list_allows m.verbs verb && list_allows m.namespaces namespace)

find_in_list-contains :
    (list : List String) (t : String) → find_in_list list t ≡ (contains "*" list || contains t list)
unfolding find_in_list
find_in_list-contains [] t = refl
find_in_list-contains (v ∷ list) t =
    ground (arith, find_in_list-contains list t, eq_iff t v, eq_iff v t)

match_in_list-allows : (list : List String) (t : String) → match_in_list list t ≡ list_allows list t
unfolding match_in_list
match_in_list-allows [] t = refl
match_in_list-allows (v ∷ list) t = find_in_list-contains (v ∷ list) t

skips_as_and :
    (a b c d rest : Bool)
    → (if not a
        then rest
        else if not b
        then rest
        else if not c
        then rest
        else if not d
        then rest
        else true)
      ≡ (((a && b) && (c && d)) || rest)
skips_as_and false b c d rest = refl
skips_as_and true false c d rest = refl
skips_as_and true true false d rest = refl
skips_as_and true true true false rest = refl
skips_as_and true true true true rest = refl

-- A fault matches a request to a resource exactly if one of its matches, in whatever place, covers
-- the API group, the resource, the verb and the namespace, where an empty list and a list with a
-- star cover everything.
pub resource_match-any :
    (ms : List ResourceMatch) (namespace api_group resource verb : String)
    → resource_match ms namespace api_group resource verb
      ≡ any (covers namespace api_group resource verb) ms
unfolding resource_match
resource_match-any [] namespace api_group resource verb = refl
resource_match-any (m ∷ ms) namespace api_group resource verb =
    rw
      (
        match_in_list-allows m.api_groups api_group,
        match_in_list-allows m.resources resource,
        match_in_list-allows m.verbs verb,
        match_in_list-allows m.namespaces namespace,
        resource_match-any ms namespace api_group resource verb,
      )
      (skips_as_and (list_allows m.api_groups api_group) (list_allows m.resources resource)
        (list_allows m.verbs verb) (list_allows m.namespaces namespace)
        (any (covers namespace api_group resource verb) ms))
