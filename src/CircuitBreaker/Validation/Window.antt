-- ===== src/CircuitBreaker/Validation/Window.antt =====
-- A breaker from the request that opens it to the end of its window
-- (pkg/proxy/circuitbreaker/manager.go and lease.go).
use controller_mesh.Prelude.{
  ℕ, ◌≡◌, sym, ◌∙◌, ap, ◌≤◌, List, [], ◌∷◌, ◌++◌, false, some, arith, All, Bool-cases, Option-cases,
  inl, inr,
}
use controller_mesh.CircuitBreaker.Config.{
  opened, closed, normal, RateLimiting, Platform, RecoverPolicy, sleeping_window, add_duration,
}
use controller_mesh.CircuitBreaker.Breaker.{State, trigger_breaker_with_time_window}
use controller_mesh.CircuitBreaker.Store.{Store, Row}
use controller_mesh.CircuitBreaker.Lease.{register_state, process}
use controller_mesh.CircuitBreaker.Lease.Laws.{AllBefore, rounds, rounds_early, process_window}
use controller_mesh.CircuitBreaker.Validation.{
  ValidateResult, over_limit, allow, trip, validate_row, validate_rows, default_allow,
  do_validation,
}
use controller_mesh.CircuitBreaker.Validation.Laws.{
  IsWhole, validate_rows_total, NotForceClosed, IsClosedRow, do_validation_allows,
}

module _ (lib : Platform) (now : ℕ) where
  -- The row is of a normal rule with a sleeping window, its breaker is closed, and its limiter
  -- refuses.
  pub record Trips (row : Row) (st : ℕ) (until : ℕ) (s : Store lib.Limiter) : Type 0 where
    pub limiting : RateLimiting
    pub policy : RecoverPolicy
    pub limiter : ℕ
    pub has_limiting : row.limiting ≡ some limiting
    pub has_limiter : row.limiter ≡ some limiter
    pub has_state : row.state ≡ some st
    pub is_normal : limiting.trigger_policy ≡ normal
    pub has_policy : limiting.recover_policy ≡ some policy
    pub has_window : policy.recover_type ≡ sleeping_window
    pub is_closed : (s.state_heap st).state ≡ closed
    pub no_token : (lib.allow_n now 1 (s.limiter_heap limiter)).0 ≡ false
    pub window_end : add_duration now (lib.parse_duration policy.sleeping_window_size) ≡ until

  refused :
      (row : Row) (st until : ℕ) (result : ValidateResult) (s : Store lib.Limiter)
      (h : Trips row st until s)
      → validate_row lib now row result s
        ≡ some (over_limit h.limiting.name, trip lib now st h.policy (allow lib now h.limiter s).1)
  unfolding validate_row
  refused row st until result s h =
      rw (h.has_limiting, h.has_limiter, h.has_state, h.is_normal, validate_row)
        (ground (arith, h.is_closed, h.no_token, h.has_policy))

  opened_until :
      (st : ℕ) (policy : RecoverPolicy) (s : Store lib.Limiter)
      → policy.recover_type ≡ sleeping_window
      → (s.state_heap st).state ≡ closed
      → ((trip lib now st policy s).state_heap st).state ≡ opened
        × (((trip lib now st policy s).state_heap st).recover_at
            ≡ some (add_duration now (lib.parse_duration policy.sleeping_window_size)))
  unfolding trip register_state trigger_breaker_with_time_window
  opened_until st policy s w c = (ground (arith, w, c), ground (arith, w, c))

  opened_by :
      (row : Row) (st until : ℕ) (result res : ValidateResult) (s s' : Store lib.Limiter)
      → Trips row st until s
      → validate_row lib now row result s ≡ some (res, s')
      → ((s'.state_heap st).state ≡ opened) × ((s'.state_heap st).recover_at ≡ some until)
  opened_by row st until result res s s' h e =
      let after = trip lib now st h.policy (allow lib now h.limiter s).1 in
      let same : after ≡ s' = cc (refused row st until result s h, e) in
      let (open_now, at_end) =
        opened_until st h.policy (allow lib now h.limiter s).1 h.has_window h.is_closed in
      (
        ap (λ (t : Store lib.Limiter). (t.state_heap st).state) (sym same) ∙ open_now,
        ap (λ (t : Store lib.Limiter). (t.state_heap st).recover_at) (sym same)
            ∙ (at_end ∙ ap some h.window_end),
      )

All-middle {ℓ κ} :
    {A : Type ℓ} (P : A → Type κ) (xs : List A) (x : A) (ys : List A) → All P (xs ++ x ∷ ys) → P x
All-middle P [] x ys (p, ps) = p
All-middle P (y ∷ xs) x ys (p, ps) = All-middle P xs x ys ps

-- The validation of rows without nil pointers has a result.
validated :
    (lib : Platform) (at : ℕ) (rows : List Row) (s : Store lib.Limiter)
    → All IsWhole rows
    → (r : ValidateResult × Store lib.Limiter) × (do_validation lib at rows s ≡ some r)
unfolding do_validation
validated lib at rows s whole = elim (Option-cases (validate_rows lib at rows default_allow s)) [
  | inl missing ↦
      absurd (ground (arith, missing, validate_rows_total lib at rows default_allow s whole))
  | inr r ↦ r
]

-- A request that opens a breaker for a window, since the limiter of its normal rule refuses: whatever
-- rounds the lease then makes, as long as none for the breaker takes place at the end of the window
-- or later, every request that the rule is for is refused, whatever the other rules are, if none is
-- forced closed and no pointer is nil; and the first round for the breaker at the end of the window or
-- later closes it.
pub window_refuses :
    (lib : Platform) (now at later st until : ℕ) (row : Row) (result res : ValidateResult)
    (s s₁ : Store lib.Limiter) (rs : List (ℕ × ℕ)) (before after : List Row)
    → Trips lib now row st until s
    → validate_row lib now row result s ≡ some (res, s₁)
    → AllBefore st until rs
    → All (NotForceClosed lib at) (before ++ row ∷ after)
    → All IsWhole (before ++ row ∷ after)
    → until ≤ later
    → ((r : ValidateResult × Store lib.Limiter) × (do_validation lib at
            (before ++ row ∷ after)
            (rounds rs s₁)
          ≡ some r)
        × (r.0.allowed ≡ false))
      × (((process later st (rounds rs s₁)).state_heap st).state ≡ closed)
window_refuses lib now at later st until row result res s s₁ rs before after h e rs_before unforced
      whole due =
    let (open_now, at_end) = opened_by lib now row st until result res s s₁ h e in
    let kept = rounds_early rs st until s₁ at_end rs_before in
    let still_open : ((rounds rs s₁).state_heap st).state ≡ opened =
      ap (λ (t : State). t.state) kept ∙ open_now in
    let still_timed : ((rounds rs s₁).state_heap st).recover_at ≡ some until =
      ap (λ (t : State). t.recover_at) kept ∙ at_end in
    let (closes, _) = process_window later st until (rounds rs s₁) still_open still_timed in
    let rows = before ++ row ∷ after in
    let ((res', s₂), e') = validated lib at rows (rounds rs s₁) whole in
    let denied : (res'.allowed ≡ false) = elim (Bool-cases res'.allowed) [
      | inr f ↦ f
      | inl t ↦
          let (closed_rows, _) =
            do_validation_allows lib at rows res' (rounds rs s₁) s₂ unforced e' t in
          let is_closed =
            All-middle (IsClosedRow lib at (rounds rs s₁)) before row after closed_rows st
              h.has_state in
          cc (still_open, is_closed)
    ] in
    (((res', s₂), e', denied), closes.1 due)
