-- ===== src/FaultInjection/Window.antt =====
-- When a fault is in effect: isEffectiveTimeRange (pkg/proxy/faultinjection/manager.go).
pub mod Laws
use controller_mesh.Prelude.{
  ℕ, ◌+◌, ◌*◌, String, List, [], ◌∷◌, Bool, true, false, not, ◌||◌, Option, none, some, ◌==◌, eqb,
  ltb, is_empty, if◌then◌else◌,
}
use controller_mesh.FaultInjection.Config.{EffectiveTimeRange, Moment, Platform}

-- The loops over the days of the week, the days of the month and the months.
unfoldable pub included : ℕ → List ℕ → Bool
included current [] = false
included current (day ∷ days) =
    let rest = included current days in if eqb current day then true else rest

abbrev pub seconds_of : ℕ → ℕ → ℕ → ℕ
seconds_of hour minute second = hour * 3600 + minute * 60 + second

-- The tests behind the reading of the two times.
unfoldable pub in_range : EffectiveTimeRange → Moment → ℕ → ℕ → Bool
unfolding included
in_range r now start_int end_int =
    let current_int = seconds_of now.hour now.minute now.second in
    if ltb current_int start_int
    then false
    else if ltb end_int current_int
    then false
    else if not (is_empty r.days_of_week || included now.weekday r.days_of_week)
    then false
    else if not (is_empty r.days_of_month || included now.day r.days_of_month)
    then false
    else if not (is_empty r.months || included now.month r.months)
    then false
    else true

module _ (lib : Platform) where
  open lib use {parse_time}

  unfoldable pub is_effective_time_range : Moment → EffectiveTimeRange → Bool
  unfolding in_range
  is_effective_time_range now r =
      if r.start_time == "" || r.end_time == "" then true else (elim (parse_time r.start_time) [
        | none ↦ false
        | some (h₁, m₁, s₁) ↦ elim (parse_time r.end_time) [
          | none ↦ false
          | some (h₂, m₂, s₂) ↦ in_range r now (seconds_of h₁ m₁ s₁) (seconds_of h₂ m₂ s₂)
        ]
      ])
