-- ===== src/Proxy/Tests.antt =====
-- Runs of the specifications that a proxy receives.
use controller_mesh.Prelude.{
  String, [], ◌∷◌, Bool, true, false, not, ◌||◌, all, contains, lookup, insert, none, some, ◌≡◌,
  refl, ◌==◌,
}
use controller_mesh.Selectors.{Requirement, LabelSelector}
use controller_mesh.Selectors.Merge.{matches_option}
use controller_mesh.Proxy.{
  SpecMeta, ApiGroupResource, ProxySpec, InternalSpec, GroupResource,
  convert_proto_spec_to_internal, get_object_selector,
}
use controller_mesh.Proxy.Limits.{AllAgree, is_for, matches-get_object_selector}
use controller_mesh.Proxy.Specs.{ProxyStatus, SpecManager, recv, get_status, is_invalid}
use controller_mesh.Proxy.Loading.{no_failures, IsLoaded, recv_all, get_status-recv_all}
use controller_mesh.Proxy.Query.{parse_raw_query, marshal_raw_query}

abbrev workloads : ApiGroupResource
workloads = record { api_groups = "apps" ∷ []; resources = "*" ∷ [] }

abbrev meta : String → SpecMeta
meta hash = record { shard_name = "web-0"; hash = hash }

abbrev spec_of : String → ProxySpec
spec_of hash = record {
  meta = some (meta hash);
  limits =
      record { object_selector = "web"; resources = workloads ∷ [] }
      ∷ record { object_selector = "back"; resources = [] }
      ∷ [];
  endpoints = [];
}

abbrev invalid_spec : ProxySpec
invalid_spec = record { meta = some (meta "c"); limits = []; endpoints = [] }

-- A decoder of the two texts above.
abbrev decode : String → LabelSelector
decode text = elim (text == "web") [
  | true ↦ record { match_labels = ("app", "web") ∷ []; match_expressions = [] }
  | false ↦ record { match_labels = ("tier", "back") ∷ []; match_expressions = [] }
]

abbrev value_of : String → String
value_of key = elim (key == "app") [ true ↦ "web" | false ↦ "back" ]

abbrev meets : Requirement → Bool
meets r = contains (value_of r.key) r.values

abbrev deployments : GroupResource
deployments = record { group = "apps"; resource = "deployments" }

abbrev internal : InternalSpec
internal = convert_proto_spec_to_internal decode (spec_of "a")

internal-AllAgree : AllAgree value_of internal.current_limits
unfolding convert_proto_spec_to_internal lookup
internal-AllAgree = (((refl, tt), (refl, tt)), (((refl, tt), (refl, tt)), tt))

matches-get_object_selector_example :
    matches_option meets (get_object_selector deployments internal)
    ≡ all
        (λ l. not (is_for deployments l) || matches_option meets l.object_selector)
        internal.current_limits
matches-get_object_selector_example =
    matches-get_object_selector value_of meets deployments internal internal-AllAgree

-- The manager that has loaded the specification of hash a.
abbrev running : SpecManager
running = record {
  storage = record { expected_spec_file = spec_of "a" ∷ []; current_spec_file = spec_of "a" ∷ [] };
  report_triggers = 0;
  expected_spec = some internal;
  current_spec = some internal;
  unload_reason = "";
  leader_election_state = none;
}

recv-running :
    recv decode no_failures (spec_of "a") (record running {
      storage = record { expected_spec_file = []; current_spec_file = [] };
      expected_spec = none;
      current_spec = none;
    })
    ≡ some running
unfolding recv convert_proto_spec_to_internal
recv-running = refl

running-IsLoaded : IsLoaded (meta "a") running
unfolding convert_proto_spec_to_internal
running-IsLoaded = record { current = internal; is_current = refl; has_meta = refl }

get_status-recv_all_example :
    (last : SpecManager) × (status : ProxyStatus) × (recv_all decode
        (spec_of "b" ∷ invalid_spec ∷ [])
        running
      ≡ some last)
    × IsLoaded (meta "a") last
    × (get_status last ≡ some (some status))
    × (status.meta_state.current_hash ≡ "a")
    × (status.meta_state.expected_hash ≡ "b")
unfolding is_invalid convert_proto_spec_to_internal
get_status-recv_all_example =
    get_status-recv_all decode (meta "a") (meta "a") (spec_of "b" ∷ invalid_spec ∷ []) running
      running-IsLoaded refl

query_of_two :
    parse_raw_query "labelSelector=app&limit=5"
    ≡ some (("labelSelector", "app") ∷ ("limit", "5") ∷ [])
unfolding parse_raw_query insert
query_of_two = refl

query_of_two_back :
    marshal_raw_query (("labelSelector", "app") ∷ ("limit", "5") ∷ []) ≡ "labelSelector=app&limit=5"
unfolding marshal_raw_query
query_of_two_back = refl
