-- ===== src/FaultInjection/Store.antt =====
-- The store of the faults (pkg/proxy/faultinjection/store.go). `none` is the panic of a nil pointer.
-- The mutex is left out: each method holds it from its first line to its last.
use controller_mesh.Prelude.{
  String, List, [], ◌∷◌, not, Option, none, some, Map, insert, erase, ◌==◌, is_empty, if◌then◌else◌,
  ◌>>=◌,
}
use controller_mesh.FaultInjection.Config.{MatchContent, HttpMatch, HttpFaultInjection, Platform}

pub record Store (F R : Type 0) : Type 0 where
  pub resources_match_rules : Map (HttpFaultInjection F)
  pub rest_match_rules : Map (HttpFaultInjection F)
  pub regex_map : Map R

unfoldable pub new_fault_injection_store : {F R : Type 0} → Store F R
new_fault_injection_store = record {
  resources_match_rules = [];
  rest_match_rules = [];
  regex_map = [];
}

unfoldable pub delete_rule : {F R : Type 0} → String → Store F R → Store F R
delete_rule key s = record s {
  resources_match_rules = erase key s.resources_match_rules;
  rest_match_rules = erase key s.rest_match_rules;
}

module _ (lib : Platform) where
  open lib use {Float, Regexp, compile}

  -- One of the two tests of the loop: an expression that does not compile is passed over.
  unfoldable pub add_regex : Option MatchContent → Map Regexp → Map Regexp
  add_regex none regexes = regexes
  add_regex (some content) regexes =
      if not (content.regex == "")
      then (elim (compile content.regex) [
        | none ↦ regexes
        | some reg ↦ insert content.regex reg regexes
      ])
      else regexes

  unfoldable pub add_regexes : List HttpMatch → Map Regexp → Map Regexp
  unfolding add_regex
  add_regexes [] regexes = regexes
  add_regexes (m ∷ ms) regexes = add_regexes ms (add_regex m.host (add_regex m.path regexes))

  unfoldable pub create_or_update_rule :
      String → HttpFaultInjection Float → Store Float Regexp → Option (Store Float Regexp)
  unfolding add_regexes
  create_or_update_rule key fault_injection s = do
    m ← fault_injection.match
    let s₁ =
        if not (is_empty m.resources)
        then record s { resources_match_rules = insert key fault_injection s.resources_match_rules }
        else s
    some (
        if not (is_empty m.http_match)
        then record s₁ {
          rest_match_rules = insert key fault_injection s₁.rest_match_rules;
          regex_map = add_regexes m.http_match s₁.regex_map;
        }
        else s₁)
