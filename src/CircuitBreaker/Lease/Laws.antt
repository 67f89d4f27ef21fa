-- ===== src/CircuitBreaker/Lease/Laws.antt =====
-- When an open breaker recovers (pkg/proxy/circuitbreaker/lease.go).
use controller_mesh.Prelude.{
  ℕ, ◌≤◌, ◌<◌, String, ◌≡◌, refl, ap, ◌≢◌, ◌↔◌, ◌∙◌, ◌&&◌, ◌||◌, not, List, [], ◌∷◌, ◌++◌, Bool,
  true, false, Option, none, some, is_some, lookup, lookup-insert, lookup-erase, eqb, any,
  any-append, arith, Bool-cases, inl, inr, eq_iff,
}
use controller_mesh.CircuitBreaker.Config.{ℤ, opened, closed}
use controller_mesh.CircuitBreaker.Breaker.{State, recover_breaker}
use controller_mesh.CircuitBreaker.Store.{Store, Lease}
use controller_mesh.CircuitBreaker.Lease.{register_state, process, take_out, until, requeue}

abbrev pub in_waiting : ℕ → List (ℕ × ℤ) → Bool
in_waiting p w = any (λ e. eqb e.0 p) w

in_waiting-take_out :
    (p q : ℕ) (w : List (ℕ × ℤ)) → in_waiting q (take_out p w) ≡ (not (eqb p q) && in_waiting q w)
in_waiting-take_out p q [] = ground arith
in_waiting-take_out p q ((r, d) ∷ w) = ground (arith, in_waiting-take_out p q w)

-- Every round for the pointer takes place before the time.
abbrev pub AllBefore : ℕ → ℕ → List (ℕ × ℕ) → Type 0
AllBefore p t [] = Unit
AllBefore p t ((now, q) ∷ rs) = (q ≡ p → now < t) × AllBefore p t rs

in_waiting-requeue :
    (now p q : ℕ) (r : Option ℕ) (l : Lease)
    → in_waiting q ((requeue now p r l).waiting)
      ≡ (in_waiting q (l.waiting) || (is_some r && eqb p q))
in_waiting-requeue now p q none l = ground arith
in_waiting-requeue now p q (some t) l =
    any-append (λ (e : ℕ × ℤ). eqb e.0 q) (l.waiting) ((p, until now t) ∷ []) ∙ ground arith

module _ {L : Type 0} where
  -- A round for another pointer does not touch the state.
  process_other :
      (now p q : ℕ) (s : Store L) → p ≢ q → (process now p s).state_heap q ≡ s.state_heap q
  unfolding process
  process_other now p q s h = ground arith

  -- A round for a pointer whose breaker is open until `t` closes the breaker exactly if `t` has come
  -- by the time of the round; before that it changes no state at all and puts the pointer back into
  -- the queue with the time that is left.
  pub process_window :
      (now p t : ℕ) (s : Store L)
      → (s.state_heap p).state ≡ opened
      → (s.state_heap p).recover_at ≡ some t
      → ((((process now p s).state_heap p).state ≡ closed) ↔ (t ≤ now))
        × (now < t
            → (((q : ℕ) → (process now p s).state_heap q ≡ s.state_heap q)
                × ((process now p s).breaker_lease.waiting
                    ≡ take_out p (s.breaker_lease.waiting) ++ (p, until now t) ∷ [])))
  unfolding process recover_breaker
  process_window now p t s o e = (
    (λ h. ground (arith, e, o, h), λ h. ground (arith, e, o, h)),
    λ h. (λ q. ground (arith, e, o, h), ground (arith, e, o, h)),
  )

  -- The rounds of the loop, each with its time and the pointer that it is for.
  unfoldable pub rounds : List (ℕ × ℕ) → Store L → Store L
  rounds [] s = s
  rounds ((now, p) ∷ rs) s = rounds rs (process now p s)

  process_early_state :
      (now p q t : ℕ) (s : Store L)
      → (s.state_heap q).recover_at ≡ some t
      → (p ≡ q → now < t)
      → (process now p s).state_heap q ≡ s.state_heap q
  unfolding process
  process_early_state now p q t s e h = elim (Bool-cases (eqb p q)) [
    | inl same ↦ process_at (eqb-eq p q same)
    | inr other ↦ process_other now p q s (λ k. ground (arith, k, other))
  ]
    where
      eqb-eq : (a b : ℕ) → eqb a b ≡ true → a ≡ b
      eqb-eq a b h' = ground arith

      process_at : p ≡ q → (process now p s).state_heap q ≡ s.state_heap q
      process_at k = ground (arith, k, h k, e)

  -- Whatever rounds the loop makes, for whatever pointers: a breaker that waits until `t` stays as
  -- it is as long as no round for it takes place at `t` or later.
  pub rounds_early :
      (rs : List (ℕ × ℕ)) (q t : ℕ) (s : Store L)
      → (s.state_heap q).recover_at ≡ some t
      → AllBefore q t rs
      → (rounds rs s).state_heap q ≡ s.state_heap q
  unfolding rounds
  rounds_early [] q t s e h = refl
  rounds_early ((now, p) ∷ rs) q t s e (h, hs) =
      let kept = process_early_state now p q t s e h in
      rounds_early rs q t (process now p s) (ap (λ (st : State). st.recover_at) kept ∙ e) hs ∙ kept

  -- Each registered pointer is to a state of that key, and waits in the queue.
  pub record IsQueued (s : Store L) : Type 0 where
    pub own_key :
        (k : String) (p : ℕ)
        → lookup k (s.breaker_lease.state_set) ≡ some p
        → (s.state_heap p).key ≡ k
    pub waits :
        (k : String) (p : ℕ)
        → lookup k (s.breaker_lease.state_set) ≡ some p
        → in_waiting p (s.breaker_lease.waiting) ≡ true

  -- The lease after `Get`.
  abbrev taken : ℕ → Store L → Lease
  taken p s = record (s.breaker_lease) { waiting = take_out p (s.breaker_lease.waiting) }

  -- Registering a state keeps each registered pointer in the queue and on a state of its key.
  pub register_state-IsQueued :
      (now p : ℕ) (s : Store L) → IsQueued s → IsQueued (register_state now p s)
  unfolding register_state
  register_state-IsQueued now p s v = record {
    own_key = λ k q e. ground (
      arith,
      e,
      lookup-insert (s.state_heap p).key k p (s.breaker_lease.state_set),
      v.own_key k q,
      eq_iff (s.state_heap p).key k,
    );
    waits = λ k q e. ground (
      arith,
      e,
      lookup-insert (s.state_heap p).key k p (s.breaker_lease.state_set),
      v.waits k q,
      in_waiting-requeue now p q (s.state_heap p).recover_at (s.breaker_lease),
    );
  }

  -- Every round of the loop, early or due, keeps each pointer that is still registered in the queue
  -- and on a state of its key.
  pub process-IsQueued : (now p : ℕ) (s : Store L) → IsQueued s → IsQueued (process now p s)
  unfolding process recover_breaker
  process-IsQueued now p s v = record {
    own_key = λ k q e.
        ground (
          arith,
          e,
          lookup-erase (s.state_heap p).key k (s.breaker_lease.state_set),
          v.own_key k q,
        );
    waits = λ k q e. ground (
      arith,
      e,
      lookup-erase (s.state_heap p).key k (s.breaker_lease.state_set),
      v.own_key k q,
      v.waits k q,
      in_waiting-take_out p q (s.breaker_lease.waiting),
      eq_iff (s.state_heap p).key k,
      in_waiting-requeue now p q (s.state_heap p).recover_at (taken p s),
    );
  }

  -- A state that replaced another one of its key while that one was registered: its registration
  -- is dropped, and the round for the old state leaves it open, outside the queue.
  pub register_state_stranded :
      (now later p q : ℕ) (s : Store L)
      → p ≢ q
      → lookup (s.state_heap q).key (s.breaker_lease.state_set) ≡ some p
      → in_waiting q (s.breaker_lease.waiting) ≡ false
      → let s' = process later p (register_state now q s) in
        (s'.state_heap q ≡ s.state_heap q) × (in_waiting q (s'.breaker_lease.waiting) ≡ false)
  unfolding process register_state
  register_state_stranded now later p q s ne e w = (
    ground (arith, e, w, ne),
    ground (
      arith,
      e,
      w,
      ne,
      in_waiting-take_out p q (s.breaker_lease.waiting),
      in_waiting-requeue later p q (s.state_heap p).recover_at (taken p s),
    ),
  )
