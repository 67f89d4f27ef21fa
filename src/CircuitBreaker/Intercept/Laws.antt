-- ===== src/CircuitBreaker/Intercept/Laws.antt =====
-- What the rules on traffic decide (pkg/proxy/circuitbreaker/store.go and manager.go).
use controller_mesh.Prelude.{
  String, ◌≡◌, refl, ◌∙◌, List, [], ◌∷◌, true, none, lookup, any, arith, Option-cases, inl, inr,
}
use controller_mesh.CircuitBreaker.Config.{TrafficInterceptRule, Platform}
use controller_mesh.CircuitBreaker.Intercept.{
  InterceptStore, delete_rule, delete_from_index, is_whitelist, by_keys, by_regexps, keys_for,
  validate_traffic_intercept, deny_default,
}

module _ (lib : Platform) where
  delete_from_index-rules :
      (rule : TrafficInterceptRule) (key : String) (s : InterceptStore lib.Regexp)
      → (delete_from_index lib rule key s).rules ≡ s.rules
  unfolding delete_from_index
  delete_from_index-rules rule key s = ground arith

  delete_rule-rules :
      (key : String) (s : InterceptStore lib.Regexp) → (delete_rule lib key s).rules ≡ s.rules
  unfolding delete_rule
  delete_rule-rules key s = elim (Option-cases (lookup key s.rules)) [
    | inl e ↦ rw (e, delete_rule) refl
    | inr (rule, e) ↦ rw (e, delete_rule) (delete_from_index-rules rule key s)
  ]

  unfoldable pub delete_all : List String → InterceptStore lib.Regexp → InterceptStore lib.Regexp
  delete_all [] s = s
  delete_all (key ∷ keys) s = delete_all keys (delete_rule lib key s)

  delete_all-rules :
      (keys : List String) (s : InterceptStore lib.Regexp) → (delete_all keys s).rules ≡ s.rules
  unfolding delete_all
  delete_all-rules [] s = refl
  delete_all-rules (key ∷ keys) s =
      delete_all-rules keys (delete_rule lib key s) ∙ delete_rule-rules key s

  -- A store with a whitelist rule refuses by default, and deleting rules, whichever and however
  -- many, does not change that: a request that then matches nothing is refused.
  pub delete_all-default :
      (text : lib.Regexp → String) (url method : String) (keys : List String)
      (s : InterceptStore lib.Regexp)
      → any (λ (e : String × TrafficInterceptRule). is_whitelist e.1.intercept_type) s.rules ≡ true
      → let s' = delete_all keys s in
        by_keys s'.rules (keys_for url method s'.normal_indexes) ≡ none
        → by_regexps lib text url method (s'.regexp_indexes) ≡ none
        → validate_traffic_intercept lib text url method s' ≡ deny_default
  unfolding validate_traffic_intercept
  delete_all-default text url method keys s w no_key no_regexp =
      rw (no_key, no_regexp, validate_traffic_intercept)
        (rw (delete_all-rules keys s) (ground (arith, w)))
