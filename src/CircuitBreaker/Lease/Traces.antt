-- ===== src/CircuitBreaker/Lease/Traces.antt =====
-- The store under everything that happens to it: rules, breakers and rounds of the lease
-- (pkg/proxy/circuitbreaker/store.go, pkg/proxy/circuitbreaker/lease.go).
use controller_mesh.Prelude.{
  ℕ, String, ◌≡◌, refl, ◌∙◌, List, [], ◌∷◌, arith, lookup, Bool-cases, Option-cases, inl, inr,
}
use controller_mesh.CircuitBreaker.Config.{opened, RateLimiting, LimitingSnapshot, Platform}
use controller_mesh.CircuitBreaker.Breaker.{State, state_eq}
use controller_mesh.CircuitBreaker.Breaker.Laws.{Call, call, recover, call-key}
use controller_mesh.CircuitBreaker.Store.{Store, Lease, create_or_update_rule, delete_rule}
use controller_mesh.CircuitBreaker.Store.Invariant.{
  IsValid, create_or_update_rule-IsValid, delete_rule-IsValid,
}
use controller_mesh.CircuitBreaker.Lease.{is_early, at_state, register_state, process}
use controller_mesh.CircuitBreaker.Lease.Laws.{IsQueued, register_state-IsQueued, process-IsQueued}

-- What happens to breakers that are there: a method is called, a state is registered, or a round of
-- the lease is made for a pointer.
pub data Event : Type 0 where
  method : ℕ → Call → Event
  register : ℕ → ℕ → Event
  round : ℕ → ℕ → Event

module _ {L : Type 0} where
  unfoldable pub happen : Event → Store L → Store L
  happen (method p c) s = at_state p (call c) s
  happen (register now p) s = register_state now p s
  happen (round now p) s = process now p s

  unfoldable pub happen_all : List Event → Store L → Store L
  unfolding happen
  happen_all [] s = s
  happen_all (e ∷ es) s = happen_all es (happen e s)

  at_state-key :
      (p q : ℕ) (c : Call) (s : Store L)
      → ((at_state p (call c) s).state_heap q).key ≡ (s.state_heap q).key
  at_state-key p q c s = ground (arith, call-key c (s.state_heap p))

  happen-IsQueued : (e : Event) (s : Store L) → IsQueued s → IsQueued (happen e s)
  unfolding happen
  happen-IsQueued (method p c) s v = record {
    own_key = λ k q h. at_state-key p q c s ∙ v.own_key k q h;
    waits = v.waits;
  }
  happen-IsQueued (register now p) s v = register_state-IsQueued now p s v
  happen-IsQueued (round now p) s v = process-IsQueued now p s v

  -- Whatever happens, in whatever order, to the breakers that are there, keeps each pointer that is
  -- registered with the lease in the queue and on a state of its key.
  pub happen_all-IsQueued :
      (es : List Event) (s : Store L) → IsQueued s → IsQueued (happen_all es s)
  unfolding happen_all
  happen_all-IsQueued [] s v = v
  happen_all-IsQueued (e ∷ es) s v = happen_all-IsQueued es (happen e s) (happen-IsQueued e s v)

  -- Another lease, and states that keep their keys.
  IsValid-states :
      (s : Store L) (heap : ℕ → State) (lease : Lease)
      → ((q : ℕ) → (heap q).key ≡ (s.state_heap q).key)
      → IsValid s
      → IsValid (record s { state_heap = heap; breaker_lease = lease })
  IsValid-states s heap lease same v = record {
    exact = v.exact;
    limiters_kept = v.limiters_kept;
    states_kept = v.states_kept;
    own_limiters = v.own_limiters;
    own_states = v.own_states;
    state_keys = λ j p h. same p ∙ v.state_keys j p h;
  }

  register_state-IsValid : (now p : ℕ) (s : Store L) → IsValid s → IsValid (register_state now p s)
  unfolding register_state
  register_state-IsValid now p s v = elim (Bool-cases (state_eq (s.state_heap p).state opened)) [
    | inr closed ↦ rw (closed, register_state) v
    | inl open_one ↦ elim (Option-cases (lookup (s.state_heap p).key s.breaker_lease.state_set)) [
      | inr (q, there) ↦ rw (open_one, there, register_state) v
      | inl missing ↦ elim (Option-cases (s.state_heap p).recover_at) [
        | inl untimed ↦ rw (open_one, missing, untimed, register_state) v
        | inr (t, timed) ↦
            rw (open_one, missing, timed, register_state)
              (IsValid-states s s.state_heap _ (λ q. refl) v)
      ]
    ]
  ]

  process-IsValid : (now p : ℕ) (s : Store L) → IsValid s → IsValid (process now p s)
  unfolding process call
  process-IsValid now p s v = elim (Bool-cases (is_early now (s.state_heap p).recover_at)) [
    | inl early ↦ rw (early, process) (IsValid-states s s.state_heap _ (λ q. refl) v)
    | inr due ↦
        rw (due, process)
          (IsValid-states s (at_state p (call (recover now)) s).state_heap _
            (λ q. at_state-key p q (recover now) s) v)
  ]

  happen-IsValid : (e : Event) (s : Store L) → IsValid s → IsValid (happen e s)
  unfolding happen
  happen-IsValid (method p c) s v =
      IsValid-states s (at_state p (call c) s).state_heap s.breaker_lease
        (λ q. at_state-key p q c s) v
  happen-IsValid (register now p) s v = register_state-IsValid now p s v
  happen-IsValid (round now p) s v = process-IsValid now p s v

-- What happens to the store: a rule is stored, a rule is removed, or something happens to breakers.
pub data Change : Type 0 where
  create_or_update : ℕ → String → RateLimiting → LimitingSnapshot → Change
  remove : String → Change
  event : Event → Change

module _ (lib : Platform) where
  unfoldable pub change : Change → Store lib.Limiter → Store lib.Limiter
  unfolding happen
  change (create_or_update now key limiting snapshot) s =
      create_or_update_rule lib now key limiting snapshot s
  change (remove key) s = delete_rule key s
  change (event e) s = happen e s

  unfoldable pub change_all : List Change → Store lib.Limiter → Store lib.Limiter
  unfolding change
  change_all [] s = s
  change_all (c ∷ cs) s = change_all cs (change c s)

  change-IsValid : (c : Change) (s : Store lib.Limiter) → IsValid s → IsValid (change c s)
  unfolding change
  change-IsValid (create_or_update now key limiting snapshot) s v =
      create_or_update_rule-IsValid lib s v now key limiting snapshot
  change-IsValid (remove key) s v = delete_rule-IsValid s v key
  change-IsValid (event e) s v = happen-IsValid e s v

  -- Whatever happens to a valid store, in whatever order, keeps it valid, where rules are stored and
  -- removed, methods of breakers are called, states are registered and the lease makes its rounds: the
  -- indices list exactly the rules, and every rule has a limiter and a state of its own.
  pub change_all-IsValid :
      (cs : List Change) (s : Store lib.Limiter) → IsValid s → IsValid (change_all cs s)
  unfolding change_all
  change_all-IsValid [] s v = v
  change_all-IsValid (c ∷ cs) s v = change_all-IsValid cs (change c s) (change-IsValid c s v)
