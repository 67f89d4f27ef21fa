-- ===== src/CircuitBreaker/Breaker.antt =====
-- The state of one breaker: `state` and its methods (pkg/proxy/circuitbreaker/store.go).
-- A method returns the new state; the times are those that its calls of `metav1.Now` return.
pub mod Laws
use controller_mesh.Prelude.{ℕ, String, Bool, true, false, Option, none, some, not, if◌then◌else◌}
use controller_mesh.CircuitBreaker.Config.{ℤ, BreakerState, opened, closed, add_duration}

-- The mutex is left out: each method holds it from its first line to its last.
pub record State : Type 0 where
  pub key : String
  pub state : BreakerState
  pub last_transition_time : Option ℕ
  pub recover_at : Option ℕ

abbrev pub state_eq : BreakerState → BreakerState → Bool
state_eq opened opened = true
state_eq closed closed = true
state_eq _ _ = false

unfoldable pub transition_to : BreakerState → ℕ → State → State × Bool
transition_to new_status t s =
    if not (state_eq s.state new_status)
    then (record s { state = new_status; last_transition_time = some t }, true)
    else (s, false)

unfoldable pub read : State → BreakerState × Option ℕ × Option ℕ
read s = (s.state, s.last_transition_time, s.recover_at)

unfoldable pub trigger_breaker : ℕ → State → State
unfolding transition_to
trigger_breaker tm s =
    let (s', changed) = transition_to opened tm s in
    if changed then record s' { recover_at = none } else s'

-- `tm` is the time of the first call of `Now`, and `now` that of the second.
unfoldable pub trigger_breaker_with_time_window : ℕ → ℕ → ℤ → State → State
unfolding transition_to
trigger_breaker_with_time_window tm now window_size s =
    let (s', changed) = transition_to opened tm s in
    if changed then record s' { recover_at = some (add_duration now window_size) } else s'

unfoldable pub recover_breaker : ℕ → State → State
unfolding transition_to
recover_breaker tm s =
    let (s', changed) = transition_to closed tm s in
    if changed then record s' { recover_at = none } else s'
