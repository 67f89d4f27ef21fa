-- ===== src/CircuitBreaker/Validation/Laws.antt =====
-- What a validation decides and what it does to the breakers (pkg/proxy/circuitbreaker/manager.go).
use controller_mesh.Prelude.{
  ℕ, String, ◌≡◌, refl, sym, ◌∙◌, ap, ◌≢◌, List, [], ◌∷◌, true, Option, none, some, is_some, arith,
  All, Option-cases, inl, inr, >>=-eq-some,
}
use controller_mesh.CircuitBreaker.Config.{
  BreakerState, opened, closed, TriggerPolicy, normal, limiter_only, force_opened, force_closed,
  RateLimiting, Platform,
}
use controller_mesh.CircuitBreaker.Breaker.{State, recover_breaker}
use controller_mesh.CircuitBreaker.Store.{Store, Row}
use controller_mesh.CircuitBreaker.Validation.{
  ValidateResult, default_allow, by_status, by_policy, validate_row, validate_rows, do_validation,
}

-- A normal rule says how its breaker recovers.
abbrev pub HasPolicy : RateLimiting → Type 0
HasPolicy l = l.trigger_policy ≡ normal → is_some l.recover_policy ≡ true

-- No pointer of the row is nil.
pub record IsWhole (row : Row) : Type 0 where
  pub limiting : RateLimiting
  pub has_limiting : row.limiting ≡ some limiting
  pub has_limiter : is_some row.limiter ≡ true
  pub has_state : is_some row.state ≡ true
  pub has_policy : HasPolicy limiting

module _ (lib : Platform) (now : ℕ) where
  by_policy_total :
      (policy : TriggerPolicy) (l : RateLimiting) (limiter : Option ℕ) (st : ℕ)
      (result : ValidateResult) (s : Store lib.Limiter)
      → is_some limiter ≡ true
      → (policy ≡ normal → is_some l.recover_policy ≡ true)
      → is_some (by_policy lib policy now l limiter st result s) ≡ true
  unfolding by_policy
  by_policy_total normal l (some p) st result s k h = ground (arith, h refl)
  by_policy_total limiter_only l (some p) st result s k h = ground arith
  by_policy_total force_opened l limiter st result s k h = refl
  by_policy_total force_closed l limiter st result s k h = refl
  by_policy_total normal l none st result s k h = cc
  by_policy_total limiter_only l none st result s k h = cc

  validate_row_total :
      (row : Row) (result : ValidateResult) (s : Store lib.Limiter)
      → IsWhole row
      → is_some (validate_row lib now row result s) ≡ true
  unfolding validate_row
  validate_row_total row result s w = elim (Option-cases row.state) [
    | inl missing ↦ absurd (ground (arith, missing, w.has_state))
    | inr (st, e) ↦
        rw (e, w.has_limiting)
          (by_policy_total w.limiting.trigger_policy w.limiting row.limiter st _ s w.has_limiter
            w.has_policy)
  ]

  pub validate_rows_total :
      (rows : List Row) (result : ValidateResult) (s : Store lib.Limiter)
      → All IsWhole rows
      → is_some (validate_rows lib now rows result s) ≡ true
  unfolding validate_rows
  validate_rows_total [] result s w = refl
  validate_rows_total (row ∷ rows) result s (w, ws) =
      elim (Option-cases (validate_row lib now row result s)) [
        | inl missing ↦ absurd (ground (arith, missing, validate_row_total row result s w))
        | inr (next, e) ↦ rw e (validate_rows_total rows next.0 next.1 ws)
      ]

  by_policy_allows :
      (policy : TriggerPolicy) (l : RateLimiting) (limiter : Option ℕ) (st : ℕ)
      (result res : ValidateResult) (s s' : Store lib.Limiter)
      → policy ≢ force_closed
      → by_policy lib policy now l limiter st result s ≡ some (res, s')
      → res.allowed ≡ true
      → (result.allowed ≡ true)
        × ((s.state_heap st).state ≡ closed → (q : ℕ) → s'.state_heap q ≡ s.state_heap q)
  unfolding by_policy recover_breaker
  by_policy_allows normal l none st result res s s' n e a =
      (ground (arith, e, a), λ c q. ground (arith, e, a, c))
  by_policy_allows normal l (some p) st result res s s' n e a =
      (ground (arith, e, a), λ c q. ground (arith, e, a, c))
  by_policy_allows limiter_only l none st result res s s' n e a = cc
  by_policy_allows limiter_only l (some p) st result res s s' n e a =
      (ground (arith, e, a), λ c q. ground (arith, e, a, c))
  by_policy_allows force_opened l limiter st result res s s' n e a =
      (ground (arith, e, a), λ c q. ground (arith, e, a, c))
  by_policy_allows force_closed l limiter st result res s s' n e a = absurd (n refl)

  -- The breaker of the row, where there is one, is closed.
  abbrev pub IsClosedRow : Store lib.Limiter → Row → Type 0
  IsClosedRow s row = (st : ℕ) → row.state ≡ some st → (s.state_heap st).state ≡ closed

  abbrev pub NotForceClosed : Row → Type 0
  NotForceClosed row = (l : RateLimiting) → row.limiting ≡ some l → l.trigger_policy ≢ force_closed

  validate_row_allows :
      (row : Row) (result res : ValidateResult) (s s' : Store lib.Limiter)
      → NotForceClosed row
      → validate_row lib now row result s ≡ some (res, s')
      → res.allowed ≡ true
      → (result.allowed ≡ true) × IsClosedRow s row × ((q : ℕ) → s'.state_heap q ≡ s.state_heap q)
  unfolding validate_row
  validate_row_allows row result res s s' n e a =
      let (st, has_state, e₁) = >>=-eq-some row.state _ e in
      let (l, has_limiting, e₂) = >>=-eq-some row.limiting _ e₁ in
      let status : BreakerState = (s.state_heap st).state in
      let (kept, same) =
        by_policy_allows l.trigger_policy l row.limiter st (by_status status l.name result) res s s'
          (n l has_limiting) e₂ a in
      let is_closed : status ≡ closed = closed_of status l.name kept in
      (
        ground (arith, is_closed, kept),
        λ q e'. ground (arith, is_closed, e', has_state),
        same is_closed,
      )
    where
      closed_of :
          (b : BreakerState) (name : String) → (by_status b name result).allowed ≡ true → b ≡ closed
      closed_of opened name h = cc
      closed_of closed name h = refl

  validate_rows_allows :
      (rows : List Row) (result res : ValidateResult) (s s' : Store lib.Limiter)
      → All NotForceClosed rows
      → validate_rows lib now rows result s ≡ some (res, s')
      → res.allowed ≡ true
      → (result.allowed ≡ true)
        × All (IsClosedRow s) rows
        × ((q : ℕ) → s'.state_heap q ≡ s.state_heap q)
  unfolding validate_rows
  validate_rows_allows [] result res s s' n e a = (ground (arith, e, a), tt, λ q. ground (arith, e))
  validate_rows_allows (row ∷ rows) result res s s' (n, ns) e a =
      let ((res₁, s₁), e₁, e₂) = >>=-eq-some (validate_row lib now row result s) _ e in
      let (a₁, closed_rest, same_rest) = validate_rows_allows rows res₁ res s₁ s' ns e₂ a in
      let (a₀, closed_here, same_here) = validate_row_allows row result res₁ s s₁ n e₁ a₁ in
      (a₀, (closed_here, move rows s₁ s same_here closed_rest), λ q. same_rest q ∙ same_here q)
    where
      move :
          (rs : List Row) (t u : Store lib.Limiter)
          → ((q : ℕ) → t.state_heap q ≡ u.state_heap q)
          → All (IsClosedRow t) rs
          → All (IsClosedRow u) rs
      move [] t u same h = tt
      move (r ∷ rs) t u same (h, hs) =
          (λ st e'. ap (λ (b : State). b.state) (sym (same st)) ∙ h st e', move rs t u same hs)

  -- Where none of the rules is forced closed, a request is allowed only if every breaker among
  -- them is closed, and an allowed request leaves the state of every breaker as it was.
  pub do_validation_allows :
      (rows : List Row) (res : ValidateResult) (s s' : Store lib.Limiter)
      → All NotForceClosed rows
      → do_validation lib now rows s ≡ some (res, s')
      → res.allowed ≡ true
      → All (IsClosedRow s) rows × ((q : ℕ) → s'.state_heap q ≡ s.state_heap q)
  unfolding do_validation
  do_validation_allows rows res s s' n e a =
      let (_, closed_rows, same) = validate_rows_allows rows default_allow res s s' n e a in
      (closed_rows, same)
