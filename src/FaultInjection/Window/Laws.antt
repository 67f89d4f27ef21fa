-- ===== src/FaultInjection/Window/Laws.antt =====
-- When a fault is in effect (pkg/proxy/faultinjection/manager.go), described without loops.
use controller_mesh.Prelude.{
  ℕ, ◌≤◌, ◌<◌, ◌≡◌, ◌↔◌, refl, List, [], ◌∷◌, Bool, true, false, ◌||◌, some, eqb, any, is_empty,
  arith, ltb, not, if◌then◌else◌, ◌==◌, Bool-cases, inl, inr,
}
use controller_mesh.FaultInjection.Config.{EffectiveTimeRange, Moment, Platform}
use controller_mesh.FaultInjection.Window.{included, seconds_of, in_range, is_effective_time_range}

included-any : (current : ℕ) (days : List ℕ) → included current days ≡ any (eqb current) days
unfolding included
included-any current [] = refl
included-any current (day ∷ days) = ground (arith, included-any current days)

abbrev pub listed : ℕ → List ℕ → Bool
listed current days = is_empty days || any (eqb current) days

abbrev pub second_of_day : Moment → ℕ
second_of_day now = seconds_of now.hour now.minute now.second

tests_iff :
    (current from to : ℕ) (a b c : Bool)
    → ((if ltb current from
          then false
          else if ltb to current
          then false
          else if not a
          then false
          else if not b
          then false
          else if not c
          then false
          else true)
        ≡ true)
      ↔ (((from ≤ current) × (current ≤ to)) × ((a ≡ true) × ((b ≡ true) × (c ≡ true))))
tests_iff current from to false b c = ground arith
tests_iff current from to true false c = ground arith
tests_iff current from to true true false = ground arith
tests_iff current from to true true true = ground arith

in_range_iff :
    (r : EffectiveTimeRange) (now : Moment) (from to : ℕ)
    → (in_range r now from to ≡ true) ↔ (
        ((from ≤ second_of_day now) × (second_of_day now ≤ to))
        × ((listed now.weekday r.days_of_week ≡ true)
            × ((listed now.day r.days_of_month ≡ true) × (listed now.month r.months ≡ true))))
unfolding in_range
in_range_iff r now from to =
    rw
      (
        included-any now.weekday r.days_of_week,
        included-any now.day r.days_of_month,
        included-any now.month r.months,
      )
      (tests_iff (second_of_day now) from to (listed now.weekday r.days_of_week)
        (listed now.day r.days_of_month) (listed now.month r.months))

module _ (lib : Platform) where
  open lib use {parse_time}

  -- Where both times are given and can be read, a fault is in effect exactly if the second of the
  -- day lies between the two, both included, and the day of the week, the day of the month and the
  -- month are each in their list or the list is empty.
  pub is_effective_time_range_iff :
      (now : Moment) (r : EffectiveTimeRange) (h₁ m₁ s₁ h₂ m₂ s₂ : ℕ)
      → (r.start_time == "") ≡ false
      → (r.end_time == "") ≡ false
      → parse_time r.start_time ≡ some (h₁, m₁, s₁)
      → parse_time r.end_time ≡ some (h₂, m₂, s₂)
      → (is_effective_time_range lib now r ≡ true) ↔ (
          ((seconds_of h₁ m₁ s₁ ≤ second_of_day now) × (second_of_day now ≤ seconds_of h₂ m₂ s₂))
          × ((listed now.weekday r.days_of_week ≡ true)
              × ((listed now.day r.days_of_month ≡ true) × (listed now.month r.months ≡ true))))
  unfolding is_effective_time_range
  is_effective_time_range_iff now r h₁ m₁ s₁ h₂ m₂ s₂ e₁ e₂ p₁ p₂ =
      rw (e₁, e₂, p₁, p₂) (in_range_iff r now (seconds_of h₁ m₁ s₁) (seconds_of h₂ m₂ s₂))

  -- A range whose end comes before its start in the day, such as one over midnight, is never in
  -- effect.
  pub is_effective_time_range_overnight :
      (now : Moment) (r : EffectiveTimeRange) (h₁ m₁ s₁ h₂ m₂ s₂ : ℕ)
      → (r.start_time == "") ≡ false
      → (r.end_time == "") ≡ false
      → parse_time r.start_time ≡ some (h₁, m₁, s₁)
      → parse_time r.end_time ≡ some (h₂, m₂, s₂)
      → seconds_of h₂ m₂ s₂ < seconds_of h₁ m₁ s₁
      → is_effective_time_range lib now r ≡ false
  is_effective_time_range_overnight now r h₁ m₁ s₁ h₂ m₂ s₂ e₁ e₂ p₁ p₂ lt =
      let iff = is_effective_time_range_iff now r h₁ m₁ s₁ h₂ m₂ s₂ e₁ e₂ p₁ p₂ in
      elim (Bool-cases (is_effective_time_range lib now r)) [
        | inl e ↦ ground (arith, lt, iff.0 e)
        | inr e ↦ e
      ]
