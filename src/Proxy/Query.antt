-- ===== src/Proxy/Query.antt =====
-- The selector that a proxy puts into the requests of an operator (pkg/proxy/apiserver/injector.go), and
-- the queries of URLs (pkg/utils/http/request.go).
use Prim.Native.String.{◌++◌}
use controller_mesh.Prelude.{
  String, List, [], ◌∷◌, Bool, not, Option, none, some, Map, lookup, insert, if◌then◌else◌, split,
  ◌==◌, ◌||◌, ◌>>=◌,
}
use controller_mesh.Selectors.{
  LabelSelector, merge_label_selector, Labels, selected, invalid_operator,
  validated_label_selector_as_selector,
}
use controller_mesh.Proxy.{InternalSpec, get_object_selector}

-- A result that is `none` is an error.
unfoldable pub parse_pairs : List String → Map String → Option (Map String)
unfolding split
parse_pairs [] result = some result
parse_pairs (pair ∷ pairs) result = elim (split "=" pair) [
  | key ∷ value ∷ [] ↦ parse_pairs pairs (insert key value result)
  | other ↦ none
]

unfoldable pub parse_raw_query : String → Option (Map String)
unfolding parse_pairs
parse_raw_query raw_query =
    if raw_query == "" then some [] else parse_pairs (split "&" raw_query) []

unfoldable pub marshal_pairs : Map String → String → String
marshal_pairs [] result = result
marshal_pairs ((key, value) ∷ query) result =
    let next =
      if result == ""
      then result ++ (key ++ "=" ++ value)
      else result ++ "&" ++ (key ++ "=" ++ value) in
    marshal_pairs query next

unfoldable pub marshal_raw_query : Map String → String
unfolding marshal_pairs
marshal_raw_query query = marshal_pairs query ""

-- A request, as far as it is read and changed: the query of its URL and the values of the header
-- OLD-RAW-QUERY.
pub record Request : Type 0 where
  pub raw_query : String
  pub old_raw_query : List String

pub record RequestInfo : Type 0 where
  pub is_resource_request : Bool
  pub api_group : String
  pub resource : String
  pub verb : String

-- `Header.Add`.
unfoldable pub add_header : String → List String → List String
add_header value [] = value ∷ []
add_header value (v ∷ vs) = v ∷ add_header value vs

-- The escapes of the library for URLs, and the texts of selectors.
pub record Texts (lib : Labels) : Type 0 where
  pub unescape : String → Option String
  pub escape : String → String
  pub parse_to_label_selector : String → Option LabelSelector
  pub text_of : lib.Selector → String

pub data Injected : Type 0 where
  injected : Request → Injected
  failed : Injected

module _ (lib : Labels) (texts : Texts lib) where
  unfoldable pub old_selector : Map String → Option (Option LabelSelector)
  old_selector raw = elim (lookup "labelSelector" raw) [
    | none ↦ some none
    | some old ↦ do
      text ← texts.unescape old
      selector ← texts.parse_to_label_selector text
      some (some selector)
  ]

  unfoldable pub write_selector : Request → Map String → lib.Selector → Request
  unfolding marshal_raw_query add_header
  write_selector request raw selector = record {
    raw_query =
        marshal_raw_query (insert "labelSelector" (texts.escape (texts.text_of selector)) raw);
    old_raw_query = add_header request.raw_query request.old_raw_query;
  }

  unfoldable pub inject_selector : LabelSelector → Request → Injected
  unfolding parse_raw_query old_selector write_selector validated_label_selector_as_selector
      merge_label_selector
  inject_selector sel request = elim (parse_raw_query request.raw_query) [
    | none ↦ failed
    | some raw ↦ elim (old_selector raw) [
      | none ↦ failed
      | some old ↦
          elim (validated_label_selector_as_selector lib (merge_label_selector (some sel) old)) [
            | invalid_operator operator ↦ failed
            | selected selector ↦ injected (write_selector request raw selector)
          ]
    ]
  ]

  -- A result that is `none` is a nil specification that is read.
  unfoldable pub inject : Option InternalSpec → RequestInfo → Request → Option Injected
  unfolding inject_selector get_object_selector
  inject spec info request =
      if not info.is_resource_request
      then some (injected request)
      else if info.verb == "list" || info.verb == "watch"
      then elim spec [
        | none ↦ none
        | some s ↦
            elim (get_object_selector (record { group = info.api_group; resource = info.resource })
              s) [ none ↦ some (injected request) | some sel ↦ some (inject_selector sel request) ]
      ]
      else some (injected request)
