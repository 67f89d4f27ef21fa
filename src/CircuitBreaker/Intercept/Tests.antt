-- ===== src/CircuitBreaker/Intercept/Tests.antt =====
-- Rules on traffic, run on a concrete store (pkg/proxy/circuitbreaker/store.go).
use controller_mesh.Prelude.{
  String, ◌≡◌, refl, List, [], ◌∷◌, Bool, true, false, some, none, ℕ, ◌==◌, lookup, insert, erase,
}
use controller_mesh.Prelude.Sets
use controller_mesh.CircuitBreaker.Store.{insert_values, delete_values, delete_value}
use controller_mesh.CircuitBreaker.Config.{TrafficInterceptRule, whitelist, plain, pos, Platform}
use controller_mesh.CircuitBreaker.Keys.{index_for_rest}
use controller_mesh.CircuitBreaker.Intercept.{
  InterceptStore, create_or_update_rule, new_traffic_intercept_store, deny_default, by_keys,
  keys_for, validate_traffic_intercept, delete_rule, update_index, add_to_index, delete_from_index,
  url_methods, by_regexps,
}
use controller_mesh.CircuitBreaker.Intercept.Laws.{delete_all, delete_all-default}

-- Expressions are texts that match themselves; nothing is limited.
abbrev text_platform : Platform
text_platform = record {
  Rate = ℕ;
  every = λ _. 0;
  Limiter = ℕ;
  new_limiter = λ _ burst. burst;
  allow_n = λ _ _ tokens. (true, tokens);
  Regexp = String;
  compile = some;
  match_string = ◌==◌;
  parse_duration = λ _. pos 0;
}

abbrev allow_site : TrafficInterceptRule
allow_site = record {
  name = "site";
  intercept_type = whitelist;
  content_type = plain;
  contents = "https://site/" ∷ [];
  methods = "GET" ∷ [];
}

abbrev site_store : InterceptStore String
site_store = record {
  rules = ("global:site", allow_site) ∷ [];
  normal_indexes = (index_for_rest "https://site/" "GET", "global:site" ∷ []) ∷ [];
  regexp_indexes = [];
}

site_stored :
    create_or_update_rule text_platform "global:site" allow_site new_traffic_intercept_store
    ≡ site_store
unfolding create_or_update_rule update_index add_to_index url_methods insert lookup
    new_traffic_intercept_store controller_mesh.CircuitBreaker.Store.insert_values
    controller_mesh.Prelude.Sets.insert
site_stored = refl

no_key_left :
    let s = delete_all text_platform ("global:site" ∷ []) site_store in
    by_keys s.rules (keys_for "https://site/" "GET" s.normal_indexes) ≡ none
unfolding delete_all delete_rule delete_from_index lookup by_keys keys_for url_methods
    index_for_rest delete_values Sets.delete erase insert
no_key_left = refl

no_regexp_left :
    by_regexps text_platform
      (λ r. r)
      "https://site/"
      "GET"
      ((delete_all text_platform ("global:site" ∷ []) site_store).regexp_indexes)
    ≡ none
unfolding delete_all delete_rule delete_from_index lookup by_regexps
no_regexp_left = refl

delete_all-default_example :
    validate_traffic_intercept text_platform
      (λ r. r)
      "https://site/"
      "GET"
      (delete_all text_platform ("global:site" ∷ []) site_store)
    ≡ deny_default
delete_all-default_example =
    delete_all-default text_platform (λ r. r) "https://site/" "GET" ("global:site" ∷ []) site_store
      refl no_key_left no_regexp_left
