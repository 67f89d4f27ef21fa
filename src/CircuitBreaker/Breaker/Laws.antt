-- ===== src/CircuitBreaker/Breaker/Laws.antt =====
-- The life of a breaker under its three methods (pkg/proxy/circuitbreaker/store.go).
use controller_mesh.Prelude.{ℕ, ◌≡◌, refl, ◌∙◌, none, List, [], ◌∷◌, arith}
use controller_mesh.CircuitBreaker.Config.{ℤ, closed}
use controller_mesh.CircuitBreaker.Breaker.{
  State, trigger_breaker, trigger_breaker_with_time_window, recover_breaker,
}

-- One call of a method, with the times that it reads.
pub data Call : Type 0 where
  trigger : ℕ → Call
  trigger_window : ℕ → ℕ → ℤ → Call
  recover : ℕ → Call

unfoldable pub call : Call → State → State
call (trigger tm) s = trigger_breaker tm s
call (trigger_window tm now d) s = trigger_breaker_with_time_window tm now d s
call (recover tm) s = recover_breaker tm s

unfoldable pub calls : List Call → State → State
calls [] s = s
calls (c ∷ cs) s = calls cs (call c s)

-- A recovery time stands only on an open breaker, and only with the time of its opening.
pub record IsTimed (s : State) : Type 0 where
  pub closed_untimed : s.state ≡ closed → s.recover_at ≡ none
  pub timed_since : s.last_transition_time ≡ none → s.recover_at ≡ none

pub call-IsTimed : (c : Call) (s : State) → IsTimed s → IsTimed (call c s)
unfolding call trigger_breaker trigger_breaker_with_time_window recover_breaker
call-IsTimed (trigger tm) s h = ground arith
call-IsTimed (trigger_window tm now d) s h = ground arith
call-IsTimed (recover tm) s h = ground arith

pub call-key : (c : Call) (s : State) → (call c s).key ≡ s.key
unfolding call trigger_breaker trigger_breaker_with_time_window recover_breaker
call-key (trigger tm) s = ground arith
call-key (trigger_window tm now d) s = ground arith
call-key (recover tm) s = ground arith

-- Whatever methods are called, in whatever order, on a breaker whose recovery time is consistent
-- with its state, a recovery time is set only while the breaker is open and only together with
-- the time of its opening, and the key stays.
pub calls-IsTimed :
    (cs : List Call) (s : State) → IsTimed s → IsTimed (calls cs s) × ((calls cs s).key ≡ s.key)
unfolding calls
calls-IsTimed [] s h = (h, refl)
calls-IsTimed (c ∷ cs) s h =
    let (timed, same) = calls-IsTimed cs (call c s) (call-IsTimed c s h) in
    (timed, same ∙ call-key c s)

-- A call that leaves the breaker open or leaves it closed changes nothing at all: a second trigger
-- moves neither the time of the transition nor the time of the recovery.
pub call_idle : (c : Call) (s : State) → (call c s).state ≡ s.state → call c s ≡ s
unfolding call trigger_breaker trigger_breaker_with_time_window recover_breaker
call_idle (trigger tm) s h = ground arith
call_idle (trigger_window tm now d) s h = ground arith
call_idle (recover tm) s h = ground arith
