-- ===== src/FaultInjection/Injector/Laws.antt =====
-- How the faults that match a request are put together (pkg/proxy/faultinjection/manager.go and
-- injector.go).
use controller_mesh.Prelude.{
  ℕ, String, ◌≡◌, refl, ◌∙◌, ap, List, [], ◌∷◌, Bool, true, false, Option, none, some,
  if◌then◌else◌, Bool-cases, inl, inr, All, Option-cases,
}
use controller_mesh.FaultInjection.Config.{Delay, Abort, HttpFaultInjection, Moment, Platform}
use controller_mesh.FaultInjection.Injector.{
  AbortWithDelayInjector, add_delay, add_abort, add_int64, is_in_percent_range, in_effect,
  apply_delay, apply_abort, inject, get_injector, no_fault,
}

abbrev pub delay_after : {F : Type 0} → ℕ → Option (Delay F) → ℕ
delay_after d none = d
delay_after d (some own) = add_int64 d own.fixed_delay

abbrev pub abort_or :
    {F : Type 0} → Option (Abort F) → String → Option (ℕ × String) → Option (ℕ × String)
abort_or none name rest = rest
abort_or (some a) name rest = some (a.http_status, name)

module _ (lib : Platform) (now : Moment) (draws : ℕ → lib.Float) where
  open lib use {Float}

  -- The part of an injector that an abort sets.
  abbrev pub verdict : AbortWithDelayInjector × ℕ → Bool × (ℕ × String)
  verdict acc = ((acc.0).abort, ((acc.0).code, (acc.0).message))

  apply_delay-verdict :
      (d : Option (Delay Float)) (acc : AbortWithDelayInjector × ℕ)
      → verdict (apply_delay lib now draws d acc) ≡ verdict acc
  unfolding apply_delay add_delay
  apply_delay-verdict none acc = refl
  apply_delay-verdict (some d) (m, n) =
      elim (Bool-cases ((is_in_percent_range lib now draws d.percent n).0)) [
        | inl e ↦ rw e refl
        | inr e ↦ rw e refl
      ]

  apply_abort-aborted :
      (a : Option (Abort Float)) (name : String) (acc : AbortWithDelayInjector × ℕ)
      → (acc.0).abort ≡ true
      → apply_abort lib now draws a name acc ≡ acc
  unfolding apply_abort
  apply_abort-aborted none name acc e = refl
  apply_abort-aborted (some a) name (m, n) e = rw e refl

  -- Once a fault has aborted the request, no further fault changes the code or the message of the
  -- answer, whatever it is and whatever the random numbers are.
  pub inject-aborted :
      (fs : List (HttpFaultInjection Float)) (acc : AbortWithDelayInjector × ℕ)
      → (acc.0).abort ≡ true
      → verdict (inject lib now draws fs acc) ≡ verdict acc
  unfolding inject
  inject-aborted [] acc e = refl
  inject-aborted (f ∷ fs) acc e = elim (Bool-cases (in_effect lib now draws f.effective_time)) [
    | inl y ↦
        rw (y, inject)
          (let same = apply_delay-verdict f.delay acc in
            let aborted = ap (λ v. v.0) same ∙ e in
            rw (apply_abort-aborted f.abort f.name (apply_delay lib now draws f.delay acc) aborted)
              (inject-aborted fs (apply_delay lib now draws f.delay acc) aborted ∙ same))
    | inr y ↦ rw (y, inject) (inject-aborted fs acc e)
  ]

  -- A percentage of zero, which is how a fault that always takes place is written.
  pub record Certain (f : HttpFaultInjection Float) : Type 0 where
    pub delay_always : (d : Delay Float) → f.delay ≡ some d → d.percent ≡ lib.zero
    pub abort_always : (a : Abort Float) → f.abort ≡ some a → a.percent ≡ lib.zero

  -- The delays of the faults in effect, added up in int64.
  abbrev pub total_delay : ℕ → List (HttpFaultInjection Float) → ℕ
  total_delay d [] = d
  total_delay d (f ∷ fs) =
      total_delay (if in_effect lib now draws f.effective_time then delay_after d f.delay else d) fs

  -- The first abort among the faults in effect.
  abbrev pub first_abort : List (HttpFaultInjection Float) → Option (ℕ × String)
  first_abort [] = none
  first_abort (f ∷ fs) =
      let rest = first_abort fs in
      if in_effect lib now draws f.effective_time then abort_or f.abort f.name rest else rest

  -- The code of an answer; 0 lets the request pass.
  abbrev pub status_of : Option (ℕ × String) → ℕ
  status_of none = 0
  status_of (some verdict) = verdict.0

  apply_abort-delay :
      (a : Option (Abort Float)) (name : String) (acc : AbortWithDelayInjector × ℕ)
      → ((apply_abort lib now draws a name acc).0).delay ≡ (acc.0).delay
  unfolding apply_abort add_abort
  apply_abort-delay none name acc = refl
  apply_abort-delay (some a) name (m, n) = elim (Bool-cases (m.abort)) [
    | inl e ↦ rw e refl
    | inr e ↦ elim (Bool-cases ((is_in_percent_range lib now draws a.percent n).0)) [
      | inl hit ↦ rw (e, hit) refl
      | inr hit ↦ rw (e, hit) refl
    ]
  ]

  module _ (below : lib.less lib.zero lib.zero ≡ false)
      (above : lib.less lib.hundred lib.zero ≡ false)
      (same : lib.equal lib.zero lib.zero ≡ true) where
    is_in_percent_range_certain :
        (p : Float) (n : ℕ) → p ≡ lib.zero → is_in_percent_range lib now draws p n ≡ (true, n)
    unfolding is_in_percent_range
    is_in_percent_range_certain p n e = rw (e, below, above, same) refl

    apply_delay_certain :
        (d : Option (Delay Float)) (acc : AbortWithDelayInjector × ℕ)
        → ((own : Delay Float) → d ≡ some own → own.percent ≡ lib.zero)
        → ((apply_delay lib now draws d acc).0).delay ≡ delay_after ((acc.0).delay) d
    unfolding apply_delay add_delay
    apply_delay_certain none acc always = refl
    apply_delay_certain (some d) (m, n) always =
        rw (is_in_percent_range_certain d.percent n (always d refl)) refl

    apply_abort_certain :
        (a : Abort Float) (name : String) (acc : AbortWithDelayInjector × ℕ)
        → (acc.0).abort ≡ false
        → a.percent ≡ lib.zero
        → let m = (apply_abort lib now draws (some a) name acc).0 in
          (m.abort ≡ true) × (m.code ≡ a.http_status)
    unfolding apply_abort add_abort
    apply_abort_certain a name (m, n) e always =
        rw (e, is_in_percent_range_certain a.percent n always) (refl, refl)

    inject-delay :
        (fs : List (HttpFaultInjection Float)) (acc : AbortWithDelayInjector × ℕ)
        → All Certain fs
        → ((inject lib now draws fs acc).0).delay ≡ total_delay ((acc.0).delay) fs
    unfolding inject
    inject-delay [] acc certain = refl
    inject-delay (f ∷ fs) acc (c, certain) =
        elim (Bool-cases (in_effect lib now draws f.effective_time)) [
          | inl y ↦
              let next =
                apply_abort lib now draws f.abort f.name (apply_delay lib now draws f.delay acc) in
              rw (y, inject)
                (inject-delay fs next certain
                  ∙ ap (λ d. total_delay d fs)
                      (apply_abort-delay f.abort f.name (apply_delay lib now draws f.delay acc)
                        ∙ apply_delay_certain f.delay acc c.delay_always))
          | inr y ↦ rw (y, inject) (inject-delay fs acc certain)
        ]

    after_delay :
        (d : Option (Delay Float)) (m : AbortWithDelayInjector) (n : ℕ)
        → m.abort ≡ false
        → m.code ≡ 0
        → let m' = (apply_delay lib now draws d (m, n)).0 in (m'.abort ≡ false) × (m'.code ≡ 0)
    after_delay d m n e z =
        let kept = apply_delay-verdict d (m, n) in
        (ap (λ v. v.0) kept ∙ e, ap (λ v. (v.1).0) kept ∙ z)

    inject-code :
        (fs : List (HttpFaultInjection Float)) (acc : AbortWithDelayInjector × ℕ)
        → All Certain fs
        → (acc.0).abort ≡ false
        → (acc.0).code ≡ 0
        → ((inject lib now draws fs acc).0).code ≡ status_of (first_abort fs)
    unfolding inject
    inject-code [] acc certain e z = z
    inject-code (f ∷ fs) acc (c, certain) e z =
        let delayed = apply_delay lib now draws f.delay acc in
        let (e', z') = after_delay f.delay (acc.0) (acc.1) e z in
        elim (Bool-cases (in_effect lib now draws f.effective_time)) [
          | inl y ↦ elim (Option-cases (f.abort)) [
            | inl without ↦
                rw (y, without, inject, apply_abort) (inject-code fs delayed certain e' z')
            | inr (a, one) ↦
                let (aborted, code) =
                  apply_abort_certain a f.name delayed e' (c.abort_always a one) in
                rw (y, one, inject)
                  (ap (λ v. (v.1).0)
                      (inject-aborted fs (apply_abort lib now draws (some a) f.name delayed)
                        aborted)
                    ∙ code)
          ]
          | inr y ↦ rw (y, inject) (inject-code fs acc certain e z)
        ]

    -- Where every matching fault always takes place, the request waits for the int64 sum of the
    -- delays of those in effect, and the code of the answer is that of the first of them that
    -- aborts, or 0 if none does; the random numbers do not matter.
    pub get_injector-Certain :
        (fs : List (HttpFaultInjection Float))
        → All Certain fs
        → let m = get_injector lib now draws fs in
          (m.delay ≡ total_delay 0 fs) × (m.code ≡ status_of (first_abort fs))
    unfolding get_injector
    get_injector-Certain fs certain =
        (inject-delay fs (no_fault, 0) certain, inject-code fs (no_fault, 0) certain refl refl)
