-- ===== src/CircuitBreaker/Validation.antt =====
-- The validation of requests against the limiting rules: doValidation and
-- ValidateResource (pkg/proxy/circuitbreaker/manager.go). All calls of `time.Now` within one
-- validation are taken to return the same time. `none` is the panic of a nil pointer.
pub mod Laws
pub mod First
pub mod Window
use Prim.Native.String
use controller_mesh.Prelude.{
  ℕ, String, List, [], ◌∷◌, ◌++◌, Bool, true, false, Option, none, some, if◌then◌else◌, is_empty,
  ◌>>=◌,
}
use controller_mesh.CircuitBreaker.Config.{
  BreakerState, opened, closed, TriggerPolicy, normal, limiter_only, force_opened, force_closed,
  RecoverType, manual, sleeping_window, RecoverPolicy, RateLimiting, Platform,
}
use controller_mesh.CircuitBreaker.Breaker.{
  State, state_eq, trigger_breaker, trigger_breaker_with_time_window, recover_breaker,
}
use controller_mesh.CircuitBreaker.Keys.{index_resource, index_rest, index_for_rest}
use controller_mesh.CircuitBreaker.Store.{Store, Row, by_index, update_at}
use controller_mesh.CircuitBreaker.Lease.{at_state, register_state}
use controller_mesh.CircuitBreaker.Seeds.{generate_wildcard_seeds}

pub record ValidateResult : Type 0 where
  pub allowed : Bool
  pub reason : String
  pub message : String

abbrev pub default_allow : ValidateResult
default_allow = record { allowed = true; reason = "Default allow"; message = "" }

abbrev pub no_rule_match : ValidateResult
no_rule_match = record { allowed = true; reason = "No rule match"; message = "" }

-- A refusal, with its reason and its text before the name of the rule.
abbrev pub refuse : String → String → String → ValidateResult
refuse reason text name = record {
  allowed = false;
  reason = reason;
  message = String.◌++◌ text name;
}

abbrev pub over_limit : String → ValidateResult
over_limit name = refuse "OverLimit" "the request is over limit by limiting rule: " name

-- The first switch of the loop: an open breaker refuses.
abbrev pub by_status : BreakerState → String → ValidateResult → ValidateResult
by_status opened name result =
    refuse "CircuitBreakerTriggered" "the circuit breaker is triggered. Limiting rule name: " name
by_status closed name result = result

module _ (lib : Platform) where
  open lib use {Limiter, allow_n, parse_duration}

  -- `limiters[idx].Allow()`.
  abbrev pub allow : ℕ → ℕ → Store Limiter → Bool × Store Limiter
  allow now p s =
      let (taken, limiter) = allow_n now 1 (s.limiter_heap p) in
      (taken, record s { limiter_heap = update_at s.limiter_heap p limiter })

  -- What a normal rule does to its breaker when its limiter refuses.
  unfoldable pub trip : ℕ → ℕ → RecoverPolicy → Store Limiter → Store Limiter
  trip now st policy s = elim (policy.recover_type) [
    | sleeping_window ↦
        let d = parse_duration policy.sleeping_window_size in
        register_state now st (at_state st (trigger_breaker_with_time_window now now d) s)
    | manual ↦ at_state st (trigger_breaker now) s
  ]

  -- The second switch of the loop.
  unfoldable pub by_policy :
      TriggerPolicy
      → ℕ
      → RateLimiting
      → Option ℕ
      → ℕ
      → ValidateResult
      → Store Limiter
      → Option (ValidateResult × Store Limiter)
  unfolding trip
  by_policy force_opened now limiting limiter st result s = some (
    refuse "CircuitBreakerForceOpened" "the circuit breaker is force opened. Limiting rule name: "
        limiting.name,
    at_state st (trigger_breaker now) s,
  )
  by_policy force_closed now limiting limiter st result s = some (
    record {
      allowed = true;
      reason = "CircuitBreakerForceClosed";
      message =
          String.◌++◌ "the circuit breaker is force closed. Limiting rule name: " limiting.name;
    },
    at_state st (recover_breaker now) s,
  )
  by_policy limiter_only now limiting limiter st result s = do
    p ← limiter
    let (taken, s') = allow now p (at_state st (recover_breaker now) s)
    if taken
        then some (record result { reason = "Limiter Allowed" }, s')
        else some (over_limit limiting.name, s')
  by_policy normal now limiting limiter st result s =
      if state_eq (s.state_heap st).state closed
      then (do
        p ← limiter
        let (taken, s') = allow now p s
        if taken then some (result, at_state st (recover_breaker now) s') else (do
          policy ← limiting.recover_policy
          some (over_limit limiting.name, trip now st policy s')))
      else some (result, s)

  -- One round of the loop.
  unfoldable pub validate_row :
      ℕ → Row → ValidateResult → Store Limiter → Option (ValidateResult × Store Limiter)
  unfolding by_policy
  validate_row now row result s = do
    st ← row.state
    limiting ← row.limiting
    by_policy limiting.trigger_policy now limiting row.limiter st
        (by_status (s.state_heap st).state limiting.name result) s

  unfoldable pub validate_rows :
      ℕ → List Row → ValidateResult → Store Limiter → Option (ValidateResult × Store Limiter)
  validate_rows now [] result s = some (result, s)
  validate_rows now (row ∷ rows) result s = do
    next ← validate_row now row result s
    validate_rows now rows next.0 next.1

  unfoldable pub do_validation :
      ℕ → List Row → Store Limiter → Option (ValidateResult × Store Limiter)
  unfolding validate_rows
  do_validation now rows s = validate_rows now rows default_allow s

  -- The loop of `ValidateResource`: the first value with rules decides.
  unfoldable pub validate_first :
      ℕ → String → List String → Store Limiter → Option (ValidateResult × Store Limiter)
  unfolding do_validation
  validate_first now name [] s = some (no_rule_match, s)
  validate_first now name (value ∷ values) s =
      let rows = by_index name value s in
      let rest = validate_first now name values s in
      if is_empty rows then rest else do_validation now rows s

  unfoldable pub validate_resource :
      ℕ
      → String
      → String
      → String
      → String
      → Store Limiter
      → Option (ValidateResult × Store Limiter)
  unfolding validate_first
  validate_resource now namespace api_group resource verb s =
      validate_first now index_resource (generate_wildcard_seeds namespace api_group resource verb)
        s
