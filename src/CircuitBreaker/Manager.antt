-- ===== src/CircuitBreaker/Manager.antt =====
-- The manager of the circuit breakers: Sync and what it calls
-- (pkg/proxy/circuitbreaker/manager.go). `none` is the panic of a nil pointer or of an index out of
-- range; the mutex, held through `Sync`, is left out.
pub mod Rules
pub mod Synced
use Prim.Native.String
use controller_mesh.Prelude.{
  ℕ, String, List, [], ◌∷◌, Bool, true, false, Option, none, some, Map, lookup, insert, erase,
  if◌then◌else◌, ◌==◌, colon_join, split_colon, ◌>>=◌,
}
use controller_mesh.CircuitBreaker.Config.{
  CircuitBreaker, SyncOption, delete, update, check, recover, illegal, RateLimiting,
  TrafficInterceptRule, LimitingSnapshot, closed, Platform,
}
use controller_mesh.CircuitBreaker.Breaker.{State, read, recover_breaker}
use controller_mesh.CircuitBreaker.Store.{
  Store, new_limiter_store, create_or_update_rule, delete_rule,
}
use controller_mesh.CircuitBreaker.Lease.{at_state}
use controller_mesh.CircuitBreaker.Intercept
use controller_mesh.CircuitBreaker.Intercept.{InterceptStore, new_traffic_intercept_store}

pub record ConfigResp : Type 0 where
  pub success : Bool
  pub message : String
  pub limiting_snapshot : List LimitingSnapshot

-- A response and the error beside it.
pub record Reply : Type 0 where
  pub resp : ConfigResp
  pub error : Option String

pub record Manager (lib : Platform) : Type 0 where
  pub breaker_map : Map CircuitBreaker
  pub limiter_store : Store lib.Limiter
  pub traffic_intercept_store : InterceptStore lib.Regexp

abbrev text : String → String → String
text a b = String.◌++◌ a b

abbrev closed_snapshot : LimitingSnapshot
closed_snapshot = record {
  limiting_name = "";
  state = closed;
  recover_time = none;
  last_transition_time = none;
}

module _ {L : Type 0} where
  -- The loop of `snapshot` over the states.
  unfoldable pub snapshot_states : String → Store L → Map ℕ → Option (List LimitingSnapshot)
  unfolding read
  snapshot_states breaker s [] = some []
  snapshot_states breaker s ((key, p) ∷ states) =
      let rest = snapshot_states breaker s states in
      elim (split_colon key) [
        | cb_name ∷ limit_name ∷ _ ↦
            if cb_name == breaker
            then (do
              res ← rest
              let (breaker_state, last_time, recover_at) = read (s.state_heap p)
              some (
                  record {
                    limiting_name = limit_name;
                    state = breaker_state;
                    recover_time = recover_at;
                    last_transition_time = last_time;
                  }
                  ∷ res))
            else rest
        | _ ↦ none
      ]

  unfoldable pub snapshot : String → Store L → Option (List LimitingSnapshot)
  unfolding snapshot_states
  snapshot breaker s = snapshot_states breaker s s.states

  -- The loop of `unregisterRules` over the limiting rules.
  unfoldable pub delete_limitings : String → List RateLimiting → Store L → Store L
  delete_limitings cb_name [] s = s
  delete_limitings cb_name (limiting ∷ limitings) s =
      delete_limitings cb_name limitings (delete_rule (colon_join cb_name limiting.name) s)

  unfoldable pub recover_breaker_at : ℕ → String → Store L → Store L
  recover_breaker_at now key s = elim (lookup key s.states) [
    | none ↦ s
    | some p ↦ at_state p (recover_breaker now) s
  ]

  -- The loop of the option RECOVER: the store, and the names for the message.
  unfoldable pub recover_all : ℕ → String → List RateLimiting → String → Store L → Store L × String
  unfolding recover_breaker_at
  recover_all now cb_name [] names s = (s, names)
  recover_all now cb_name (rl ∷ rls) names s =
      let key = colon_join cb_name rl.name in
      recover_all now cb_name rls (text names (text " [" (text key "]")))
        (recover_breaker_at now key s)

module _ (lib : Platform) where
  open lib use {Limiter, Regexp}

  -- The loops of `registerRules`.
  unfoldable pub create_limitings : ℕ → String → List RateLimiting → Store Limiter → Store Limiter
  create_limitings now cb_name [] s = s
  create_limitings now cb_name (limiting ∷ limitings) s =
      create_limitings now cb_name limitings (
        create_or_update_rule lib now (colon_join cb_name limiting.name) limiting closed_snapshot s)

  unfoldable pub create_intercepts :
      String → List TrafficInterceptRule → InterceptStore Regexp → InterceptStore Regexp
  create_intercepts cb_name [] s = s
  create_intercepts cb_name (rule ∷ rules) s =
      create_intercepts cb_name rules
        (Intercept.create_or_update_rule lib (colon_join cb_name rule.name) rule s)

  unfoldable pub delete_intercepts :
      String → List TrafficInterceptRule → InterceptStore Regexp → InterceptStore Regexp
  delete_intercepts cb_name [] s = s
  delete_intercepts cb_name (rule ∷ rules) s =
      delete_intercepts cb_name rules (Intercept.delete_rule lib (colon_join cb_name rule.name) s)

  unfoldable pub new_manager : Manager lib
  unfolding new_limiter_store new_traffic_intercept_store
  new_manager = record {
    breaker_map = [];
    limiter_store = new_limiter_store lib;
    traffic_intercept_store = new_traffic_intercept_store;
  }

  unfoldable pub register_rules : ℕ → CircuitBreaker → Manager lib → Manager lib
  unfolding create_limitings create_intercepts
  register_rules now cb m = record m {
    limiter_store = create_limitings now cb.name cb.rate_limitings m.limiter_store;
    traffic_intercept_store =
        create_intercepts cb.name cb.traffic_intercept_rules m.traffic_intercept_store;
  }

  unfoldable pub unregister_rules : String → Manager lib → Manager lib
  unfolding delete_limitings delete_intercepts
  unregister_rules cb_name m = elim (lookup cb_name m.breaker_map) [
    | none ↦ m
    | some cb ↦ record m {
      limiter_store = delete_limitings cb.name cb.rate_limitings m.limiter_store;
      traffic_intercept_store =
          delete_intercepts cb.name cb.traffic_intercept_rules m.traffic_intercept_store;
    }
  ]

  -- The reply with the snapshot of the breaker.
  abbrev pub reply : Bool → String → String → Manager lib → Option Reply
  reply success message name m = do
    snap ← snapshot name m.limiter_store
    some (record {
      resp = record { success = success; message = message; limiting_snapshot = snap };
      error = none;
    })

  abbrev pub reply_bare : Bool → String → Option String → Option Reply
  reply_bare success message error = some (record {
    resp = record { success = success; message = message; limiting_snapshot = [] };
    error = error;
  })

  unfoldable pub sync_update : ℕ → CircuitBreaker → Manager lib → Option Reply × Manager lib
  unfolding register_rules unregister_rules snapshot
  sync_update now config m = elim (lookup config.name m.breaker_map) [
    | some cb ↦
        if config.config_hash == cb.config_hash
        then (
          reply true (text "circuitBreaker spec hash not updated, hash " cb.config_hash) config.name
              m,
          m,
        )
        else (let cleared = unregister_rules cb.name m in
            let m' =
              register_rules now config
                (record cleared { breaker_map = insert config.name config cleared.breaker_map }) in
            (
              reply true
                  (text "circuitBreaker spec hash updated, old hash "
                    (text cb.config_hash (text ", new " config.config_hash)))
                  config.name m',
              m',
            ))
    | none ↦
        let m' =
          register_rules now config
            (record m { breaker_map = insert config.name config m.breaker_map }) in
        (
          reply true (text "new circuitBreaker with spec hash " config.config_hash) config.name m',
          m',
        )
  ]

  unfoldable pub sync_delete : CircuitBreaker → Manager lib → Option Reply × Manager lib
  unfolding unregister_rules
  sync_delete config m = elim (lookup config.name m.breaker_map) [
    | some cb ↦
        let cleared = unregister_rules cb.name m in
        (
          reply_bare true (text "circuitBreaker config " (text cb.name " success deleted")) none,
          record cleared { breaker_map = erase config.name cleared.breaker_map },
        )
    | none ↦ (
      reply_bare true (text "circuitBreaker config " (text config.name " already deleted")) none,
      m,
    )
  ]

  -- Where the configuration is not found, the message reads the name of a nil pointer.
  unfoldable pub sync_check : CircuitBreaker → Manager lib → Option Reply
  unfolding snapshot
  sync_check config m = elim (lookup config.name m.breaker_map) [
    | none ↦ none
    | some cb ↦
        if config.config_hash == cb.config_hash
        then reply true "" config.name m
        else reply false
            (text "unequal circuit breaker " (
              text cb.name
                (text " hash, old " (text cb.config_hash (text ", new " config.config_hash)))))
            config.name m
  ]

  unfoldable pub sync_recover : ℕ → CircuitBreaker → Manager lib → Option Reply × Manager lib
  unfolding recover_all snapshot
  sync_recover now config m =
      let (s, names) = recover_all now config.name config.rate_limitings "" m.limiter_store in
      let m' = record m { limiter_store = s } in
      (reply true (text "recovered limiting rules " names) config.name m', m')

  -- The switch of `Sync`.
  unfoldable pub sync_option :
      SyncOption → ℕ → CircuitBreaker → Manager lib → Option Reply × Manager lib
  unfolding sync_update sync_delete sync_check sync_recover
  sync_option update now config m = sync_update now config m
  sync_option delete now config m = sync_delete config m
  sync_option check now config m = (sync_check config m, m)
  sync_option recover now config m = sync_recover now config m
  sync_option (illegal name) now config m =
      let message = text "illegal config option " name in
      (reply_bare false message (some message), m)

  unfoldable pub sync : ℕ → CircuitBreaker → Manager lib → Option Reply × Manager lib
  unfolding sync_option
  sync now config m = sync_option config.option now config m
