-- ===== src/CircuitBreaker/Keys/Laws.antt =====
-- Which requests an index value stands for (pkg/proxy/circuitbreaker/store.go).
use mathlib.Core.Bool.{and_assoc}
use controller_mesh.Prelude.{
  String, ◌≡◌, refl, sym, ◌∙◌, ◌&&◌, ◌==◌, Bool, true, List, [], ◌∷◌, map, arith, contains, any,
  flat_map, contains-append, contains-flat_map, NoColon, colon_join, ==-colon_join, All,
}
use controller_mesh.CircuitBreaker.Config.{ResourceRule, RateLimiting}
use controller_mesh.CircuitBreaker.Keys.{
  index_for_resource, index_values_of_rule, index_func_for_resource,
}

-- The rule names all four parts of the request.
abbrev pub rule_names : String → String → String → String → ResourceRule → Bool
rule_names ns group res verb rule =
    contains ns rule.namespaces
    && (contains group rule.api_groups && (contains res rule.resources && contains verb rule.verbs))

-- No namespace, API group or resource of the rule holds a colon.
pub record IsPlainRule (rule : ResourceRule) : Type 0 where
  pub plain_namespaces : All NoColon rule.namespaces
  pub plain_groups : All NoColon rule.api_groups
  pub plain_resources : All NoColon rule.resources

-- One loop of the nest: it turns the test of one part into a search for that part.
loop_finds :
    (w y : String) (p q : Bool) (f : String → List String) (xs : List String)
    → ((x : String) → NoColon x → contains w (f x) ≡ (p && (x == y && q)))
    → All NoColon xs
    → contains w (flat_map f xs) ≡ (p && (contains y xs && q))
loop_finds w y p q f [] step h = ground arith
loop_finds w y p q f (x ∷ xs) step (plain, h) =
    ground
      (arith, contains-append w (f x) (flat_map f xs), step x plain, loop_finds w y p q f xs step h)

module _ (ns group res verb : String) (ns_plain : NoColon ns) (group_plain : NoColon group)
    (res_plain : NoColon res) where
  abbrev wanted : String
  wanted = index_for_resource ns group res verb

  ==-index_for_resource :
      (n g r v : String)
      → NoColon n
      → NoColon g
      → NoColon r
      → (index_for_resource n g r v == wanted)
        ≡ (n == ns && (g == group && (r == res && v == verb)))
  unfolding index_for_resource
  ==-index_for_resource n g r v hn hg hr = rw (
    ==-colon_join n ns (colon_join g (colon_join r v)) (colon_join group (colon_join res verb)) hn
        ns_plain,
    ==-colon_join g group (colon_join r v) (colon_join res verb) hg group_plain,
    ==-colon_join r res v verb hr res_plain,
  )

  verbs_find :
      (n g r : String)
      → NoColon n
      → NoColon g
      → NoColon r
      → (verbs : List String)
      → contains wanted (map (λ v. index_for_resource n g r v) verbs)
        ≡ (n == ns && (g == group && (r == res && contains verb verbs)))
  verbs_find n g r hn hg hr [] = ground arith
  verbs_find n g r hn hg hr (v ∷ verbs) =
      ground (arith, ==-index_for_resource n g r v hn hg hr, verbs_find n g r hn hg hr verbs)

  resources_find :
      (verbs : List String) (n g : String)
      → NoColon n
      → NoColon g
      → (xs : List String) → All NoColon xs
      → contains wanted (flat_map (λ r. map (λ v. index_for_resource n g r v) verbs) xs)
        ≡ (n == ns && (g == group && (contains res xs && contains verb verbs)))
  resources_find verbs n g hn hg xs h =
      loop_finds wanted res (n == ns && g == group) (contains verb verbs) _ xs
        (λ r hr. verbs_find n g r hn hg hr verbs ∙ sym (and_assoc (n == ns) (g == group) _)) h
      ∙ and_assoc (n == ns) (g == group) _

  rule_finds :
      (rule : ResourceRule)
      → IsPlainRule rule
      → contains wanted (index_values_of_rule rule) ≡ rule_names ns group res verb rule
  unfolding index_values_of_rule
  rule_finds rule h =
      loop_finds wanted ns true _ _ rule.namespaces
        (λ n hn.
          loop_finds wanted group (n == ns) _ _ rule.api_groups
            (λ g hg. resources_find rule.verbs n g hn hg rule.resources h.plain_resources)
            h.plain_groups)
        h.plain_namespaces

  rules_find :
      (rules : List ResourceRule)
      → All IsPlainRule rules
      → any (λ rule. contains wanted (index_values_of_rule rule)) rules
        ≡ any (rule_names ns group res verb) rules
  rules_find [] h = refl
  rules_find (rule ∷ rules) h = ground (arith, rule_finds rule h.0, rules_find rules h.1)

  -- Where no namespace, group or resource holds a colon, the index values of a limiting contain
  -- the index value of a request exactly if one of its resource rules names the namespace, the API
  -- group, the resource and the verb of the request, each as written.
  pub contains-index_func_for_resource :
      (limiting : RateLimiting)
      → All IsPlainRule limiting.resource_rules
      → contains (index_for_resource ns group res verb) (index_func_for_resource limiting)
        ≡ any (rule_names ns group res verb) limiting.resource_rules
  unfolding index_func_for_resource
  contains-index_func_for_resource limiting h =
      contains-flat_map wanted index_values_of_rule limiting.resource_rules
      ∙ rules_find limiting.resource_rules h
