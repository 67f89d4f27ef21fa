-- ===== src/CircuitBreaker/Manager/Synced.antt =====
-- Every call of Sync keeps the rules those of the configurations held
-- (pkg/proxy/circuitbreaker/manager.go).
use mathlib.Core.Path.{subst, fun_ext}
use controller_mesh.Prelude.{
  ℕ, String, ◌≡◌, refl, sym, ◌∙◌, ap, List, [], ◌∷◌, Option, none, some, Map, lookup, insert, erase,
  lookup-insert, lookup-erase, ◌==◌, eq_refl, NoColon, arith, Option-cases, Bool-cases, inl, inr,
  colon_join,
}
use controller_mesh.CircuitBreaker.Config.{
  CircuitBreaker, SyncOption, delete, update, check, recover, illegal, RateLimiting, Platform,
}
use controller_mesh.CircuitBreaker.Breaker.{recover_breaker}
use controller_mesh.CircuitBreaker.Store.{Store}
use controller_mesh.CircuitBreaker.Store.Invariant.{IsValid, new_limiter_store-IsValid}
use controller_mesh.CircuitBreaker.Manager.{
  Manager, new_manager, delete_limitings, delete_intercepts, create_limitings, recover_breaker_at,
  recover_all, register_rules, unregister_rules, sync_update, sync_delete, sync_recover,
  sync_option, sync,
}
use controller_mesh.CircuitBreaker.Manager.Rules.{
  InForce, without, with, delete_limitings-IsValid, create_limitings-IsValid,
  delete_limitings-InForce, create_limitings-InForce,
}

-- The store of a manager is valid, and its rules are those of the configurations held.
pub record IsSynced {lib : Platform} (m : Manager lib) : Type 0 where
  pub valid : IsValid m.limiter_store
  pub in_force : InForce (λ n. lookup n m.breaker_map) (m.limiter_store.rules)

recover_breaker_at-IsValid :
    {L : Type 0} (now : ℕ) (key : String) (s : Store L)
    → IsValid s
    → IsValid (recover_breaker_at now key s) × ((recover_breaker_at now key s).rules ≡ s.rules)
unfolding recover_breaker_at recover_breaker
recover_breaker_at-IsValid now key s v = elim (Option-cases (lookup key s.states)) [
  | inl e ↦ rw (e, recover_breaker_at) (v, refl)
  | inr (p, e) ↦
      rw (e, recover_breaker_at)
        (
          record {
            exact = v.exact;
            limiters_kept = v.limiters_kept;
            states_kept = v.states_kept;
            own_limiters = v.own_limiters;
            own_states = v.own_states;
            state_keys = λ j q f. ground (arith, f, v.state_keys j q f);
          },
          refl,
        )
]

recover_all-IsValid :
    {L : Type 0} (now : ℕ) (name : String) (ls : List RateLimiting) (names : String) (s : Store L)
    → IsValid s
    → IsValid (recover_all now name ls names s).0
      × ((recover_all now name ls names s).0.rules ≡ s.rules)
unfolding recover_all
recover_all-IsValid now name [] names s v = (v, refl)
recover_all-IsValid now name (l ∷ ls) names s v =
    let (v', same) = recover_breaker_at-IsValid now (colon_join name l.name) s v in
    let (v'', same') = recover_all-IsValid now name ls _ _ v' in (v'', same' ∙ same)

module _ {lib : Platform} (m : Manager lib) (v : IsSynced m) (n : String) where
  abbrev held : String → Option CircuitBreaker
  held k = lookup k m.breaker_map

  erased-InForce :
      (rules : Map RateLimiting)
      → InForce (without held n) rules
      → InForce (λ k. lookup k (erase n m.breaker_map)) rules
  erased-InForce rules h =
      subst (λ f. InForce f rules) (fun_ext (λ k. sym (lookup-erase n k m.breaker_map))) h

  inserted-InForce :
      (rules : Map RateLimiting) (cb : CircuitBreaker)
      → InForce (with held n cb) rules
      → InForce (λ k. lookup k (insert n cb m.breaker_map)) rules
  inserted-InForce rules cb h =
      subst (λ f. InForce f rules) (fun_ext (λ k. sym (lookup-insert n k cb m.breaker_map))) h

with-without :
    (held : String → Option CircuitBreaker) (n : String) (cb : CircuitBreaker)
    → with (without held n) n cb ≡ with held n cb
with-without held n cb = fun_ext (λ k. ground arith)

module _ {lib : Platform} (now : ℕ) (config : CircuitBreaker) (m : Manager lib) (v : IsSynced m)
    (plain : NoColon config.name) where
  -- The manager without the rules of a configuration that it holds.
  cleared : CircuitBreaker → Manager lib
  cleared cb = record m {
    limiter_store = delete_limitings cb.name cb.rate_limitings m.limiter_store;
    traffic_intercept_store =
        delete_intercepts lib cb.name cb.traffic_intercept_rules m.traffic_intercept_store;
  }

  unregister_rules-eq :
      (cb : CircuitBreaker)
      → lookup config.name m.breaker_map ≡ some cb
      → unregister_rules lib cb.name m ≡ cleared cb
  unfolding unregister_rules cleared
  unregister_rules-eq cb found =
      let name = v.in_force.own_name config.name cb found in
      let again = ap (λ k. lookup k m.breaker_map) name ∙ found in rw (again, unregister_rules) refl

  cleared-valid : (cb : CircuitBreaker) → IsValid ((cleared cb).limiter_store)
  unfolding cleared
  cleared-valid cb = delete_limitings-IsValid cb.name cb.rate_limitings m.limiter_store v.valid

  cleared-InForce :
      (cb : CircuitBreaker)
      → lookup config.name m.breaker_map ≡ some cb
      → InForce (without (held m v config.name) config.name) ((cleared cb).limiter_store.rules)
  unfolding cleared
  cleared-InForce cb found =
      let name = v.in_force.own_name config.name cb found in
      rw name (delete_limitings-InForce _ m.limiter_store v.in_force config.name cb found)

  free_after : without (held m v config.name) config.name config.name ≡ none
  free_after = ground (arith, eq_refl config.name)

  -- Registering a configuration whose name is free.
  registered-IsSynced :
      (c : Manager lib) (f : String → Option CircuitBreaker)
      → IsValid c.limiter_store
      → InForce f (c.limiter_store.rules)
      → f config.name ≡ none
      → with f config.name config ≡ (λ k. lookup k c.breaker_map)
      → IsSynced (register_rules lib now config c)
  unfolding register_rules
  registered-IsSynced c f valid in_force free held = record {
    valid =
        create_limitings-IsValid lib now config.name config.rate_limitings c.limiter_store valid;
    in_force =
        subst
          (λ g.
            InForce g
              ((create_limitings lib now config.name config.rate_limitings c.limiter_store).rules))
          held (create_limitings-InForce lib now f c.limiter_store in_force config free plain);
  }

  inserted :
      with (held m v config.name) config.name config
      ≡ (λ k. lookup k (insert config.name config m.breaker_map))
  inserted = fun_ext (λ k. sym (lookup-insert config.name k config m.breaker_map))

  sync_update-IsSynced : IsSynced (sync_update lib now config m).1
  unfolding sync_update cleared
  sync_update-IsSynced = elim (Option-cases (lookup config.name m.breaker_map)) [
    | inl free ↦ rw (free, sync_update) (registered-IsSynced _ _ v.valid v.in_force free inserted)
    | inr (cb, found) ↦ elim (Bool-cases (config.config_hash == cb.config_hash)) [
      | inl same ↦ rw (found, same, sync_update) v
      | inr other ↦
          rw (found, other, sync_update)
            (rw (unregister_rules-eq cb found) (
              registered-IsSynced _ _ (cleared-valid cb) (cleared-InForce cb found) free_after
                (with-without _ config.name config ∙ inserted)))
    ]
  ]

  sync_delete-IsSynced : IsSynced (sync_delete lib config m).1
  unfolding sync_delete cleared
  sync_delete-IsSynced = elim (Option-cases (lookup config.name m.breaker_map)) [
    | inl free ↦ rw (free, sync_delete) v
    | inr (cb, found) ↦
        rw (found, sync_delete)
          (rw (unregister_rules-eq cb found) (record {
            valid = cleared-valid cb;
            in_force = erased-InForce m v config.name _ (cleared-InForce cb found);
          }))
  ]

  sync_recover-IsSynced : IsSynced (sync_recover lib now config m).1
  unfolding sync_recover
  sync_recover-IsSynced =
      let (valid, same) =
        recover_all-IsValid now config.name config.rate_limitings "" m.limiter_store v.valid in
      record {
        valid = valid;
        in_force = subst (λ rules. InForce (held m v config.name) rules) (sym same) v.in_force;
      }

  sync_option-IsSynced : (option : SyncOption) → IsSynced (sync_option lib option now config m).1
  unfolding sync_option
  sync_option-IsSynced update = sync_update-IsSynced
  sync_option-IsSynced delete = sync_delete-IsSynced
  sync_option-IsSynced check = v
  sync_option-IsSynced recover = sync_recover-IsSynced
  sync_option-IsSynced (illegal name) = v

  -- Every call of Sync, with any option, for a configuration whose name has no colon, keeps the
  -- manager synchronised: its store is valid, and the rules of the store are exactly those of the
  -- configurations that it holds.
  pub sync-IsSynced : IsSynced (sync lib now config m).1
  unfolding sync
  sync-IsSynced = sync_option-IsSynced config.option

-- The new manager is synchronised.
pub new_manager-IsSynced : (lib : Platform) → IsSynced (new_manager lib)
unfolding new_manager lookup
new_manager-IsSynced lib = record {
  valid = new_limiter_store-IsValid lib;
  in_force = record {
    own_name = λ n cb e. cc;
    plain = λ n cb e. cc;
    present = λ n cb j e h. cc;
    no_other = λ j h. cc;
  };
}

-- Calls of Sync in turn, each with its time.
unfoldable pub sync_all : (lib : Platform) → List (ℕ × CircuitBreaker) → Manager lib → Manager lib
sync_all lib [] m = m
sync_all lib ((now, config) ∷ calls) m = sync_all lib calls (sync lib now config m).1

abbrev pub AllPlain : List (ℕ × CircuitBreaker) → Type 0
AllPlain [] = Unit
AllPlain ((now, config) ∷ calls) = NoColon config.name × AllPlain calls

sync_all-IsSynced :
    {lib : Platform} (calls : List (ℕ × CircuitBreaker)) (m : Manager lib)
    → AllPlain calls
    → IsSynced m
    → IsSynced (sync_all lib calls m)
unfolding sync_all
sync_all-IsSynced [] m plain v = v
sync_all-IsSynced {lib} ((now, config) ∷ calls) m (plain, plains) v =
    sync_all-IsSynced calls (sync lib now config m).1 plains (sync-IsSynced now config m v plain)

-- After any calls of Sync on the new manager, for configurations whose names have no colon, the
-- store is valid, and a key has a rule exactly if a configuration that the manager holds has a
-- rule of that key.
pub sync_all_in_force :
    (lib : Platform) (calls : List (ℕ × CircuitBreaker))
    → AllPlain calls
    → IsSynced (sync_all lib calls (new_manager lib))
sync_all_in_force lib calls plain =
    sync_all-IsSynced calls (new_manager lib) plain (new_manager-IsSynced lib)
