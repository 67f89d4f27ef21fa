-- ===== src/CircuitBreaker/Intercept.antt =====
-- The rules that let traffic pass or stop it: trafficInterceptStore
-- (pkg/proxy/circuitbreaker/store.go) and ValidateTrafficIntercept (manager.go). The mutex is left
-- out: each method of the store holds it from its first line to its last.
pub mod Laws
mod Tests
use Prim.Native.String
use controller_mesh.Prelude.{
  String, List, [], ◌∷◌, ◌++◌, map, flat_map, Bool, true, false, ◌&&◌, Option, none, some, Map,
  lookup, insert, erase, if◌then◌else◌, ◌==◌, any,
}
use controller_mesh.CircuitBreaker.Config.{
  TrafficInterceptRule, InterceptType, whitelist, blacklist, ContentType, plain, regexp, Platform,
}
use controller_mesh.CircuitBreaker.Keys.{index_for_rest}
use controller_mesh.CircuitBreaker.Store.{Index, or_nil, insert_values, delete_values}
use controller_mesh.CircuitBreaker.Validation.{ValidateResult}

pub record RegexpInfo (R : Type 0) : Type 0 where
  pub reg : R
  pub reg_type : InterceptType
  pub method : String

pub record InterceptStore (R : Type 0) : Type 0 where
  pub rules : Map TrafficInterceptRule
  pub normal_indexes : Index
  pub regexp_indexes : Map (List (RegexpInfo R))

unfoldable pub new_traffic_intercept_store : {R : Type 0} → InterceptStore R
new_traffic_intercept_store = record { rules = []; normal_indexes = []; regexp_indexes = [] }

-- The values of the two loops over the contents and the methods.
unfoldable pub url_methods : TrafficInterceptRule → List String
url_methods rule = flat_map (λ content. map (index_for_rest content) rule.methods) rule.contents

-- The loop over the methods, for one expression.
abbrev pub add_infos :
    {R : Type 0}
    → String
    → R
    → InterceptType
    → List String
    → Map (List (RegexpInfo R))
    → Map (List (RegexpInfo R))
add_infos key reg t [] indexes = indexes
add_infos {R} key reg t (method ∷ methods) indexes =
    let info : RegexpInfo R = record { reg = reg; reg_type = t; method = method } in
    add_infos key reg t methods (insert key (or_nil (lookup key indexes) ++ info ∷ []) indexes)

module _ (lib : Platform) where
  open lib use {Regexp, compile}

  -- The loop over the contents; one that does not compile is passed over.
  unfoldable pub add_regexps :
      String
      → TrafficInterceptRule
      → List String
      → Map (List (RegexpInfo Regexp))
      → Map (List (RegexpInfo Regexp))
  add_regexps key rule [] indexes = indexes
  add_regexps key rule (content ∷ contents) indexes =
      add_regexps key rule contents (elim (compile content) [
        | none ↦ indexes
        | some reg ↦ add_infos key reg rule.intercept_type rule.methods indexes
      ])

  unfoldable pub delete_from_index :
      TrafficInterceptRule → String → InterceptStore Regexp → InterceptStore Regexp
  unfolding url_methods
  delete_from_index old_one key s = elim (old_one.content_type) [
    | plain ↦ record s { normal_indexes = delete_values key (url_methods old_one) s.normal_indexes }
    | regexp ↦ record s { regexp_indexes = erase key s.regexp_indexes }
  ]

  unfoldable pub add_to_index :
      TrafficInterceptRule → String → InterceptStore Regexp → InterceptStore Regexp
  unfolding url_methods add_regexps
  add_to_index new_one key s = elim (new_one.content_type) [
    | plain ↦ record s { normal_indexes = insert_values key (url_methods new_one) s.normal_indexes }
    | regexp ↦ record s {
      regexp_indexes = add_regexps key new_one new_one.contents s.regexp_indexes;
    }
  ]

  unfoldable pub update_index :
      Option TrafficInterceptRule
      → TrafficInterceptRule
      → String
      → InterceptStore Regexp
      → InterceptStore Regexp
  unfolding add_to_index delete_from_index
  update_index none new_one key s = add_to_index new_one key s
  update_index (some old_one) new_one key s =
      add_to_index new_one key (delete_from_index old_one key s)

  unfoldable pub create_or_update_rule :
      String → TrafficInterceptRule → InterceptStore Regexp → InterceptStore Regexp
  unfolding update_index
  create_or_update_rule key rule s =
      update_index (lookup key s.rules) rule key (record s { rules = insert key rule s.rules })

  -- The rule itself stays in the map of the rules.
  unfoldable pub delete_rule : String → InterceptStore Regexp → InterceptStore Regexp
  unfolding delete_from_index
  delete_rule key s = elim (lookup key s.rules) [
    | none ↦ s
    | some obj ↦ delete_from_index obj key s
  ]

abbrev pub by_type : InterceptType → String → ValidateResult
by_type whitelist text = record {
  allowed = true;
  reason = "Whitelist";
  message = String.◌++◌ "Traffic is allow by whitelist rule" text;
}
by_type blacklist text = record {
  allowed = false;
  reason = "Blacklist";
  message = String.◌++◌ "Traffic is intercept by blacklist rule" text;
}

-- The first loop: the first key that still has a rule decides.
unfoldable pub by_keys : Map TrafficInterceptRule → List String → Option ValidateResult
by_keys rules [] = none
by_keys rules (key ∷ keys) =
    let rest = by_keys rules keys in
    elim (lookup key rules) [
      | none ↦ rest
      | some rule ↦ some (by_type rule.intercept_type (String.◌++◌ ", name: " rule.name))
    ]

abbrev pub is_whitelist : InterceptType → Bool
is_whitelist whitelist = true
is_whitelist blacklist = false

abbrev pub deny_default : ValidateResult
deny_default = record {
  allowed = false;
  reason = "No rule match";
  message = "Default strategy is whitelist, should deny";
}

abbrev pub allow_default : ValidateResult
allow_default = record {
  allowed = true;
  reason = "No rule match";
  message = "Default strategy is blacklist, should allow";
}

-- The last loop: one whitelist rule makes refusal the default.
unfoldable pub by_default : Map TrafficInterceptRule → ValidateResult
by_default rules =
    if any (λ (e : String × TrafficInterceptRule). is_whitelist e.1.intercept_type) rules
    then deny_default
    else allow_default

-- The keys under the method, or under the method "*" where no set stands under the method.
unfoldable pub keys_for : String → String → Index → List String
keys_for url method indexes = elim (lookup (index_for_rest url method) indexes) [
  | none ↦ or_nil (lookup (index_for_rest url "*") indexes)
  | some keys ↦ keys
]

module _ (lib : Platform) where
  open lib use {Regexp, match_string}

  -- The loop over the expressions of one key. `text` prints an expression.
  unfoldable pub by_infos :
      (Regexp → String)
      → String
      → String
      → String
      → List (RegexpInfo Regexp)
      → Option ValidateResult
  by_infos text url method key [] = none
  by_infos text url method key (info ∷ infos) =
      let rest = by_infos text url method key infos in
      if info.method == method && match_string info.reg url
      then some (
          by_type info.reg_type
            (String.◌++◌ ": " (String.◌++◌ key (String.◌++◌ ", regexp: " (text info.reg)))))
      else rest

  unfoldable pub by_regexps :
      (Regexp → String) → String → String → Map (List (RegexpInfo Regexp)) → Option ValidateResult
  unfolding by_infos
  by_regexps text url method [] = none
  by_regexps text url method ((key, infos) ∷ m) =
      let rest = by_regexps text url method m in
      elim (by_infos text url method key infos) [ none ↦ rest | some result ↦ some result ]

  unfoldable pub validate_traffic_intercept :
      (Regexp → String) → String → String → InterceptStore Regexp → ValidateResult
  unfolding by_keys by_regexps by_default keys_for
  validate_traffic_intercept text url method s =
      elim (by_keys s.rules (keys_for url method s.normal_indexes)) [
        | some result ↦ result
        | none ↦ elim (by_regexps text url method s.regexp_indexes) [
          | some result ↦ result
          | none ↦ by_default s.rules
        ]
      ]
