-- ===== src/CircuitBreaker/Tests.antt =====
-- Inputs and runs of the circuit breaker (pkg/proxy/circuitbreaker).
use mathlib.Core.List.{Memᴰ}
use mathlib.Core.Path.{subst}
use controller_mesh.Prelude.{
  is_some, Option, ℕ, ◌-◌, eq_iff, String, ◌≡◌, refl, ◌≢◌, List, [], ◌∷◌, true, false, none, some,
  is_some, arith, if◌then◌else◌, leb, ◌==◌, All, lookup, insert, any, contains,
}
use controller_mesh.Prelude.Sets
use controller_mesh.CircuitBreaker.Config.{
  ℤ, pos, opened, closed, normal, force_closed, sleeping_window, RecoverPolicy, ResourceRule,
  RateLimiting, CircuitBreaker, update, LimitingSnapshot, Platform,
}
use controller_mesh.CircuitBreaker.Breaker.{State, recover_breaker}
use controller_mesh.CircuitBreaker.Breaker.Laws.{
  trigger, trigger_window, recover, calls, IsTimed, calls-IsTimed,
}
use controller_mesh.CircuitBreaker.Keys.{
  index_for_resource, index_func_for_resource, index_resource, index_functions,
}
use controller_mesh.CircuitBreaker.Keys.Laws.{
  rule_names, IsPlainRule, contains-index_func_for_resource,
}
use controller_mesh.CircuitBreaker.Store.{
  Store, Row, new_limiter_store, create_or_update_rule, update_at, by_key, by_index,
}
use controller_mesh.CircuitBreaker.Store.Indices.{gives}
use controller_mesh.CircuitBreaker.Store.Invariant.{
  IsValid, new_limiter_store-IsValid, create_or_update_rule-IsValid,
}
use controller_mesh.CircuitBreaker.Store.Found.{IsHit, by_index-exact}
use controller_mesh.CircuitBreaker.Lease.{register_state, process}
use controller_mesh.CircuitBreaker.Lease.Traces.{
  method, register, round, happen_all, happen_all-IsQueued, create_or_update, remove, event,
  change_all, change_all-IsValid,
}
use controller_mesh.CircuitBreaker.Lease.Laws.{
  rounds, in_waiting, IsQueued, register_state_stranded,
}
use controller_mesh.CircuitBreaker.Seeds.{generate_wildcard_seeds}
use controller_mesh.CircuitBreaker.Validation.{
  validate_resource, ValidateResult, default_allow, validate_row, do_validation,
}
use controller_mesh.CircuitBreaker.Validation.Laws.{IsWhole, do_validation_allows, IsClosedRow}
use controller_mesh.CircuitBreaker.Validation.First.{IsMissed, validate_resource_total}
use controller_mesh.CircuitBreaker.Validation.Window.{Trips, window_refuses}
use controller_mesh.CircuitBreaker.Manager.{new_manager}
use controller_mesh.CircuitBreaker.Manager.Synced.{IsSynced, sync_all, sync_all_in_force}

-- A platform whose limiter counts tokens and never refills, and whose expressions are texts.
abbrev sample_platform : Platform
sample_platform = record {
  Rate = ℤ;
  every = λ d. d;
  Limiter = ℕ;
  new_limiter = λ _ burst. burst;
  allow_n = λ _ n tokens. if leb n tokens then (true, tokens - n) else (false, tokens);
  Regexp = String;
  compile = λ s. some s;
  match_string = λ r s. r == s;
  parse_duration = λ s. if s == "1m" then pos 60 else pos 0;
}

abbrev pod_rule : ResourceRule
pod_rule = record {
  api_groups = "*" ∷ [];
  resources = "pod" ∷ [];
  verbs = "delete" ∷ [];
  namespaces = "default" ∷ "*" ∷ [];
}

abbrev window_policy : RecoverPolicy
window_policy = record { recover_type = sleeping_window; sleeping_window_size = "1m" }

abbrev pod_limit : RateLimiting
pod_limit = record {
  name = "deletePod";
  resource_rules = pod_rule ∷ [];
  rest_rules = [];
  bucket = record { burst = 1; interval = "1m"; limit = 1 };
  trigger_policy = normal;
  recover_policy = some window_policy;
  properties = [];
}

abbrev sample_breaker : CircuitBreaker
sample_breaker = record {
  option = update;
  traffic_intercept_rules = [];
  rate_limitings = pod_limit ∷ [];
  config_hash = "123";
  name = "global";
}

abbrev closed_snap : LimitingSnapshot
closed_snap = record {
  limiting_name = "";
  state = closed;
  recover_time = none;
  last_transition_time = none;
}

sync_all_in_force_example :
    IsSynced (sync_all sample_platform ((5, sample_breaker) ∷ []) (new_manager sample_platform))
sync_all_in_force_example =
    sync_all_in_force sample_platform ((5, sample_breaker) ∷ []) (omega arith, tt)

abbrev empty_store : Store ℕ
empty_store = new_limiter_store sample_platform

abbrev pod_store : Store ℕ
pod_store =
    create_or_update_rule sample_platform 5 "global:deletePod" pod_limit closed_snap empty_store

pod_store-IsValid : IsValid pod_store
pod_store-IsValid =
    create_or_update_rule-IsValid sample_platform empty_store
      (new_limiter_store-IsValid sample_platform) 5 "global:deletePod" pod_limit closed_snap

abbrev pod_value : String
pod_value = "*:*:pod:delete"

pod_stored : lookup "global:deletePod" (pod_store.rules) ≡ some pod_limit
unfolding lookup create_or_update_rule new_limiter_store insert
pod_stored = refl

pod_given : gives pod_limit index_resource pod_value ≡ true
unfolding gives index_functions index_func_for_resource
pod_given = refl

abbrev larger : RateLimiting
larger = record pod_limit { bucket = record { burst = 2; interval = "1m"; limit = 1 } }

change_all-IsValid_example : IsValid (
    change_all sample_platform
      (create_or_update 6 "global:deletePod" larger closed_snap
        ∷ event (method 0 (trigger_window 6 6 (pos 60)))
        ∷ event (register 7 0)
        ∷ event (round 70 0)
        ∷ remove "global:deletePod"
        ∷ [])
      pod_store)
change_all-IsValid_example =
    change_all-IsValid sample_platform
      (create_or_update 6 "global:deletePod" larger closed_snap
        ∷ event (method 0 (trigger_window 6 6 (pos 60)))
        ∷ event (register 7 0)
        ∷ event (round 70 0)
        ∷ remove "global:deletePod"
        ∷ [])
      pod_store pod_store-IsValid

by_index-exact_example :
    All (IsHit pod_store index_resource pod_value) (by_index index_resource pod_value pod_store)
    × ((j : String) (r : RateLimiting)
        → lookup j pod_store.rules ≡ some r
        → gives r index_resource pod_value ≡ true
        → Memᴰ (by_key j pod_store) (by_index index_resource pod_value pod_store))
by_index-exact_example = by_index-exact pod_store pod_store-IsValid index_resource pod_value

-- The rule is among those that are found.
pod_found : Memᴰ (by_key "global:deletePod" pod_store) (by_index index_resource pod_value pod_store)
pod_found =
    (by_index-exact pod_store pod_store-IsValid index_resource pod_value).1 "global:deletePod"
      pod_limit pod_stored pod_given

pod_rule_plain : IsPlainRule pod_rule
pod_rule_plain = record {
  plain_namespaces = (omega arith, (omega arith, tt));
  plain_groups = (omega arith, tt);
  plain_resources = (omega arith, tt);
}

contains-index_func_for_resource_example :
    contains (index_for_resource "default" "*" "pod" "delete") (index_func_for_resource pod_limit)
    ≡ any (rule_names "default" "*" "pod" "delete") (pod_rule ∷ [])
contains-index_func_for_resource_example =
    contains-index_func_for_resource "default" "*" "pod" "delete" (omega arith) (omega arith)
      (omega arith) pod_limit (pod_rule_plain, tt)

-- The row of the rule, with one token left and its breaker closed.
abbrev pod_row : Row
pod_row = record { limiting = some pod_limit; limiter = some 0; state = some 0 }

pod_rows : by_index index_resource pod_value pod_store ≡ pod_row ∷ []
unfolding by_index create_or_update_rule new_limiter_store insert lookup Sets.insert index_functions
    index_func_for_resource
pod_rows = refl

abbrev closed_state : State
closed_state = record {
  key = "global:deletePod";
  state = closed;
  last_transition_time = none;
  recover_at = none;
}

abbrev open_state : State
open_state = record closed_state {
  state = opened;
  last_transition_time = some 6;
  recover_at = some 66;
}

-- A store with the given tokens and states.
abbrev row_store : ℕ → (ℕ → State) → Store ℕ
row_store tokens states = record {
  limiters = ("global:deletePod", 0) ∷ [];
  rules = ("global:deletePod", pod_limit) ∷ [];
  states = ("global:deletePod", 0) ∷ [];
  indices = [];
  breaker_lease = record { waiting = []; state_set = [] };
  limiter_heap = λ _. tokens;
  state_heap = states;
  next = 1;
}

abbrev taken_store : Store ℕ
taken_store = record (row_store 1 (λ _. closed_state)) {
  limiter_heap = update_at (λ _. 1) 0 0;
  state_heap = update_at (λ _. closed_state) 0 closed_state;
}

taken_once :
    do_validation sample_platform 6 (pod_row ∷ []) (row_store 1 (λ _. closed_state))
    ≡ some (default_allow, taken_store)
unfolding do_validation validate_row recover_breaker
taken_once = refl

not_forced : (l : RateLimiting) → pod_row.limiting ≡ some l → l.trigger_policy ≢ force_closed
not_forced l e f = ground (arith, e, f)

do_validation_allows_example :
    All (IsClosedRow sample_platform 6 (row_store 1 (λ _. closed_state))) (pod_row ∷ [])
    × ((q : ℕ) → taken_store.state_heap q ≡ closed_state)
do_validation_allows_example =
    do_validation_allows sample_platform 6 (pod_row ∷ []) default_allow
      (row_store 1 (λ _. closed_state)) taken_store (not_forced, tt) taken_once refl

-- The request at 6 opens the breaker until 66; one at 50, after a round of the lease, is refused.
pod_row-Trips : Trips sample_platform 6 pod_row 0 66 (row_store 0 (λ _. closed_state))
pod_row-Trips = record {
  limiting = pod_limit;
  policy = window_policy;
  limiter = 0;
  has_limiting = refl;
  has_limiter = refl;
  has_state = refl;
  is_normal = refl;
  has_policy = refl;
  has_window = refl;
  is_closed = refl;
  no_token = refl;
  window_end = refl;
}

abbrev result_of : Option (ValidateResult × Store ℕ) → ValidateResult × Store ℕ
result_of none = (default_allow, row_store 0 (λ _. closed_state))
result_of (some r) = r

abbrev opening : ValidateResult × Store ℕ
opening =
    result_of
      (validate_row sample_platform 6 pod_row default_allow (row_store 0 (λ _. closed_state)))

opened_row :
    validate_row sample_platform 6 pod_row default_allow (row_store 0 (λ _. closed_state))
    ≡ some opening
unfolding validate_row register_state lookup
opened_row = refl

pod_row-IsWhole : IsWhole pod_row
pod_row-IsWhole = record {
  limiting = pod_limit;
  has_limiting = refl;
  has_limiter = refl;
  has_state = refl;
  has_policy = λ normal_policy. refl;
}

window_refuses_example :
    ((r : ValidateResult × Store ℕ) × (do_validation sample_platform 50
          (pod_row ∷ [])
          (rounds ((20, 0) ∷ []) opening.1)
        ≡ some r)
      × (r.0.allowed ≡ false))
    × (((process 66 0 (rounds ((20, 0) ∷ []) opening.1)).state_heap 0).state ≡ closed)
window_refuses_example =
    window_refuses sample_platform 6 50 66 0 66 pod_row default_allow opening.0
      (row_store 0 (λ _. closed_state)) opening.1 ((20, 0) ∷ []) [] [] pod_row-Trips opened_row
      ((λ same. omega arith), tt) (not_forced, tt) (pod_row-IsWhole, tt) (omega arith)

only_rule : (j : String) (r : RateLimiting) → lookup j (pod_store.rules) ≡ some r → pod_limit ≡ r
unfolding lookup create_or_update_rule new_limiter_store insert
only_rule j r e = ground (arith, e)

-- What the one rule does not give, no rule gives.
missed :
    (value : String)
    → gives pod_limit index_resource value ≡ false
    → (j : String) (r : RateLimiting) → lookup j (pod_store.rules) ≡ some r
    → gives r index_resource value ≡ false
missed value h j r e = subst (λ l. gives l index_resource value ≡ false) (only_rule j r e) h

not_given :
    (gives pod_limit index_resource "kube:*:pod:delete" ≡ false)
    × (gives pod_limit index_resource "*:apps:pod:delete" ≡ false)
unfolding gives index_functions index_func_for_resource
not_given = (refl, refl)

-- No choice of wildcards of this request is a value of the rule.
get_not_given :
    All
      (λ value. gives pod_limit index_resource value ≡ false)
      (generate_wildcard_seeds "kube" "apps" "pod" "get")
unfolding gives index_functions index_func_for_resource generate_wildcard_seeds index_for_resource
get_not_given = (
  refl,
  (
    refl,
    (
      refl,
      (
        refl,
        (
          refl,
          (
            refl,
            (refl, (refl, (refl, (refl, (refl, (refl, (refl, (refl, (refl, (refl, tt)))))))))),
          ),
        ),
      ),
    ),
  ),
)

All-IsMissed :
    (values : List String)
    → All (λ value. gives pod_limit index_resource value ≡ false) values
    → All (IsMissed sample_platform pod_store pod_store-IsValid index_resource) values
All-IsMissed [] h = tt
All-IsMissed (value ∷ values) (h, hs) = (missed value h, All-IsMissed values hs)

pod_has_policy :
    (j : String) (r : RateLimiting)
    → lookup j (pod_store.rules) ≡ some r
    → r.trigger_policy ≡ normal
    → is_some r.recover_policy ≡ true
pod_has_policy j r e t = ground (arith, only_rule j r e)

closed-IsTimed : IsTimed closed_state
closed-IsTimed = record { closed_untimed = λ _. refl; timed_since = λ _. refl }

calls-IsTimed_example :
    IsTimed (calls (trigger_window 6 6 (pos 60) ∷ trigger 7 ∷ recover 8 ∷ []) closed_state)
    × ((calls (trigger_window 6 6 (pos 60) ∷ trigger 7 ∷ recover 8 ∷ []) closed_state).key
        ≡ "global:deletePod")
calls-IsTimed_example =
    calls-IsTimed (trigger_window 6 6 (pos 60) ∷ trigger 7 ∷ recover 8 ∷ []) closed_state
      closed-IsTimed

-- A store whose states are open, with the first one registered.
abbrev open_store : Store ℕ
open_store = record (row_store 0 (λ _. open_state)) {
  breaker_lease = record { waiting = (0, pos 60) ∷ []; state_set = ("global:deletePod", 0) ∷ [] };
}

open_store-IsQueued : IsQueued open_store
unfolding lookup
open_store-IsQueued = record {
  own_key = λ k p e. ground (arith, e, eq_iff "global:deletePod" k);
  waits = λ k p e. ground (arith, e);
}

happen_all-IsQueued_example :
    IsQueued (happen_all (register 6 0 ∷ method 0 (trigger 9) ∷ round 70 0 ∷ []) open_store)
happen_all-IsQueued_example =
    happen_all-IsQueued (register 6 0 ∷ method 0 (trigger 9) ∷ round 70 0 ∷ []) open_store
      open_store-IsQueued

registered_first : lookup {V = ℕ} "global:deletePod" (("global:deletePod", 0) ∷ []) ≡ some 0
unfolding lookup
registered_first = refl

register_state_stranded_example :
    let s' = process 70 0 (register_state 30 1 open_store) in
    (s'.state_heap 1 ≡ open_state) × (in_waiting 1 (s'.breaker_lease.waiting) ≡ false)
register_state_stranded_example =
    register_state_stranded 30 70 0 1 open_store (λ e. omega arith) registered_first refl

validate_resource_total_example :
    is_some (validate_resource sample_platform 6 "default" "*" "pod" "delete" pod_store) ≡ true
validate_resource_total_example =
    validate_resource_total sample_platform pod_store pod_store-IsValid 6 "default" "*" "pod"
      "delete" pod_has_policy
