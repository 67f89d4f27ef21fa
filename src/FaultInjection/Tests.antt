-- ===== src/FaultInjection/Tests.antt =====
-- Faults run on concrete requests, and the theorems of the fault injection applied to them.
use Prim.Native.Nat.{ℕ, ◌*◌, ◌≤◌}
use controller_mesh.Prelude.{
  String, ◌≡◌, ◌↔◌, refl, [], ◌∷◌, true, Option, none, some, ltb, eqb, ◌==◌, any, if◌then◌else◌,
  arith,
}
use controller_mesh.FaultInjection.Config.{
  ResourceMatch, EffectiveTimeRange, HttpFaultInjection, Moment, Platform,
}
use controller_mesh.FaultInjection.Match.{resource_match, match_in_list, find_in_list}
use controller_mesh.FaultInjection.Match.Laws.{covers, resource_match-any}
use controller_mesh.FaultInjection.Window.{seconds_of, is_effective_time_range, in_range, included}
use controller_mesh.FaultInjection.Window.Laws.{second_of_day, listed, is_effective_time_range_iff}
use controller_mesh.FaultInjection.Injector.{
  AbortWithDelayInjector, answer, perform, inject, get_injector, add_abort, add_delay, apply_delay,
  apply_abort, is_in_percent_range,
}
use controller_mesh.FaultInjection.Injector.Laws.{Certain}

abbrev read_time : String → Option (ℕ × ℕ × ℕ)
read_time t =
    if t == "09:00:00" then some (9, 0, 0) else if t == "17:30:00" then some (17, 30, 0) else none

-- Whole percentages, and expressions that match only themselves.
abbrev sample_platform : Platform
sample_platform = record {
  Float = ℕ;
  zero = 0;
  hundred = 100;
  less = ltb;
  equal = eqb;
  times = ◌*◌;
  Regexp = String;
  compile = some;
  match_string = ◌==◌;
  parse_time = read_time;
}

abbrev noon : Moment
noon = record { hour = 12; minute = 0; second = 0; weekday = 2; day = 14; month = 5 }

abbrev pods : ResourceMatch
pods = record {
  api_groups = "" ∷ [];
  resources = "pods" ∷ [];
  verbs = "delete" ∷ "update" ∷ [];
  namespaces = "*" ∷ [];
}

deletes_pod : resource_match (pods ∷ []) "default" "" "pods" "delete" ≡ true
unfolding resource_match match_in_list find_in_list
deletes_pod = refl

resource_match-any_example :
    resource_match (pods ∷ []) "default" "" "pods" "delete"
    ≡ any (covers "default" "" "pods" "delete") (pods ∷ [])
resource_match-any_example = resource_match-any (pods ∷ []) "default" "" "pods" "delete"

abbrev office_hours : EffectiveTimeRange
office_hours = record {
  start_time = "09:00:00";
  end_time = "17:30:00";
  days_of_week = 1 ∷ 2 ∷ [];
  days_of_month = [];
  months = [];
}

is_effective_time_range_iff_example :
    (is_effective_time_range sample_platform noon office_hours ≡ true) ↔ (
      ((seconds_of 9 0 0 ≤ second_of_day noon) × (second_of_day noon ≤ seconds_of 17 30 0))
      × ((listed 2 (1 ∷ 2 ∷ []) ≡ true) × ((listed 14 [] ≡ true) × (listed 5 [] ≡ true))))
is_effective_time_range_iff_example =
    is_effective_time_range_iff sample_platform noon office_hours 9 0 0 17 30 0 refl refl refl refl

-- A fault with a delay and one with a delay and an abort, both certain.
abbrev slow : HttpFaultInjection ℕ
slow = record {
  delay = some (record { percent = 0; fixed_delay = 5 });
  abort = none;
  match = none;
  name = "slow";
  effective_time = none;
}

abbrev broken : HttpFaultInjection ℕ
broken = record {
  delay = some (record { percent = 0; fixed_delay = 7 });
  abort = some (record { percent = 0; http_status = 503 });
  match = none;
  name = "broken";
  effective_time = some office_hours;
}

abbrev draw : ℕ → ℕ
draw n = n

abbrev aborted : AbortWithDelayInjector
aborted = record { abort = true; delay = 3; code = 500; message = "early" }

slow-Certain : Certain sample_platform noon draw slow
slow-Certain = record {
  delay_always = λ d e. ground (arith, e);
  abort_always = λ a e. ground (arith, e);
}

broken-Certain : Certain sample_platform noon draw broken
broken-Certain = record {
  delay_always = λ d e. ground (arith, e);
  abort_always = λ a e. ground (arith, e);
}

answers_503 :
    perform (get_injector sample_platform noon draw (slow ∷ broken ∷ []))
    ≡ answer 12 503 "the fault injection is triggered. Limiting rule name: broken"
unfolding perform get_injector inject apply_delay apply_abort is_in_percent_range add_delay
    add_abort is_effective_time_range in_range included
answers_503 = refl
