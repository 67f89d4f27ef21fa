-- ===== src/CircuitBreaker/Lease.antt =====
-- The recovery of open breakers after their window (pkg/proxy/circuitbreaker/lease.go).
-- The delaying queue delivers at some later time what was added to it; `process` is one round of
-- `processingLoop` for a pointer that it delivered.
pub mod Laws
pub mod Traces
use controller_mesh.Prelude.{
  ℕ, ◌-◌, ◌++◌, suc, String, List, [], ◌∷◌, Bool, true, false, not, ◌&&◌, Option, none, some, Map,
  lookup, insert, erase, if◌then◌else◌, leb, ltb, eqb,
}
use controller_mesh.CircuitBreaker.Config.{ℤ, BreakerState, opened}
use controller_mesh.CircuitBreaker.Breaker.{State, state_eq, recover_breaker}
use controller_mesh.CircuitBreaker.Store.{Store, Lease, update_at}

-- `time.Until(t)` at the time `now`.
abbrev pub until : ℕ → ℕ → ℤ
until now t = if leb now t then ℤ.pos (t - now) else ℤ.negsuc (now - t - 1)

abbrev pub add_after : ℕ → ℤ → Lease → Lease
add_after p d l = record l { waiting = l.waiting ++ (p, d) ∷ [] }

-- `Get` takes the pointer out of the queue.
abbrev pub take_out : ℕ → List (ℕ × ℤ) → List (ℕ × ℤ)
take_out p [] = []
take_out p ((q, d) ∷ w) = if eqb q p then take_out p w else (q, d) ∷ take_out p w

-- The recovery time is still ahead.
abbrev pub is_early : ℕ → Option ℕ → Bool
is_early now none = false
is_early now (some t) = ltb now t

abbrev pub requeue : ℕ → ℕ → Option ℕ → Lease → Lease
requeue now p none l = l
requeue now p (some t) l = add_after p (until now t) l

module _ {L : Type 0} where
  -- A method of the state behind a pointer.
  abbrev pub at_state : ℕ → (State → State) → Store L → Store L
  at_state p f s = record s { state_heap = update_at s.state_heap p (f (s.state_heap p)) }

  unfoldable pub register_state : ℕ → ℕ → Store L → Store L
  register_state now p s =
      let st = s.state_heap p in
      let lease = s.breaker_lease in
      if state_eq st.state opened
      then (elim (lookup st.key lease.state_set) [
        | none ↦ elim st.recover_at [
          | none ↦ s
          | some t ↦ record s {
            breaker_lease =
                add_after p (until now t)
                  (record lease { state_set = insert st.key p lease.state_set });
          }
        ]
        | some _ ↦ s
      ])
      else s

  -- One round for a delivered pointer; `now` is the time that the round reads.
  unfoldable pub process : ℕ → ℕ → Store L → Store L
  process now p s =
      let st = s.state_heap p in
      let lease = s.breaker_lease in
      let taken = record lease { waiting = take_out p lease.waiting } in
      if is_early now st.recover_at
      then record s { breaker_lease = requeue now p st.recover_at taken }
      else at_state p (recover_breaker now)
          (record s { breaker_lease = record taken { state_set = erase st.key lease.state_set } })
