-- ===== src/FaultInjection/Injector.antt =====
-- What a fault does to a request: abortWithDelayInjector (pkg/proxy/faultinjection/injector.go),
-- getInjector and isInPercentRange (manager.go).
pub mod Laws
use Prim.Native.String
use controller_mesh.Prelude.{
  ℕ, suc, ◌+◌, ◌%◌, String, List, [], ◌∷◌, Bool, true, false, not, ◌&&◌, ◌||◌, Option, none, some,
  eqb, if◌then◌else◌,
}
use controller_mesh.FaultInjection.Config.{
  Delay, Abort, EffectiveTimeRange, HttpFaultInjection, Moment, Platform,
}
use controller_mesh.FaultInjection.Window.{is_effective_time_range}

pub record AbortWithDelayInjector : Type 0 where
  pub abort : Bool
  pub delay : ℕ
  pub code : ℕ
  pub message : String

abbrev pub no_fault : AbortWithDelayInjector
no_fault = record { abort = false; delay = 0; code = 0; message = "" }

-- An int64 sum.
abbrev pub add_int64 : ℕ → ℕ → ℕ
add_int64 a b = (a + b) % 18446744073709551616

unfoldable pub add_delay : ℕ → AbortWithDelayInjector → AbortWithDelayInjector
add_delay d m = record m { delay = add_int64 m.delay d }

unfoldable pub add_abort : ℕ → String → AbortWithDelayInjector → AbortWithDelayInjector
add_abort code message m = record m { abort = true; code = code; message = message }

-- What `Do` does: it waits for the delay, and then either answers with the code and the message
-- and ends the request, or lets it go on.
pub data Effect : Type 0 where
  answer : ℕ → ℕ → String → Effect
  pass : ℕ → Effect

unfoldable pub perform : AbortWithDelayInjector → Effect
perform m =
    if not (eqb m.code 200) && not (eqb m.code 0)
    then answer m.delay m.code m.message
    else pass m.delay

module _ (lib : Platform) (now : Moment) (draws : ℕ → lib.Float) where
  open lib use {Float, zero, hundred, less, equal, times}

  -- `n` numbers have been drawn before; the result says how many have been drawn after.
  unfoldable pub is_in_percent_range : Float → ℕ → Bool × ℕ
  is_in_percent_range value n =
      if less value zero || less hundred value
      then (false, n)
      else if equal value zero
      then (true, n)
      else (less (times (draws n) hundred) value, suc n)

  abbrev pub in_effect : Option EffectiveTimeRange → Bool
  in_effect none = true
  in_effect (some r) = is_effective_time_range lib now r

  unfoldable pub apply_delay :
      Option (Delay Float) → AbortWithDelayInjector × ℕ → AbortWithDelayInjector × ℕ
  unfolding is_in_percent_range add_delay
  apply_delay none (m, n) = (m, n)
  apply_delay (some d) (m, n) =
      let (hit, n') = is_in_percent_range d.percent n in
      (if hit then add_delay d.fixed_delay m else m, n')

  unfoldable pub apply_abort :
      Option (Abort Float) → String → AbortWithDelayInjector × ℕ → AbortWithDelayInjector × ℕ
  unfolding is_in_percent_range add_abort
  apply_abort none name (m, n) = (m, n)
  apply_abort (some a) name (m, n) =
      let (hit, n') = is_in_percent_range a.percent n in
      if m.abort then (m, n) else (
        if hit
            then add_abort a.http_status
                (String.◌++◌ "the fault injection is triggered. Limiting rule name: " name) m
            else m,
        n',
      )

  -- The loop of `getInjector`.
  unfoldable pub inject :
      List (HttpFaultInjection Float) → AbortWithDelayInjector × ℕ → AbortWithDelayInjector × ℕ
  unfolding apply_delay apply_abort is_effective_time_range
  inject [] acc = acc
  inject (f ∷ fs) acc = inject fs (
      if in_effect f.effective_time
      then apply_abort f.abort f.name (apply_delay f.delay acc)
      else acc)

  unfoldable pub get_injector : List (HttpFaultInjection Float) → AbortWithDelayInjector
  unfolding inject
  get_injector fault_injections = (inject fault_injections (no_fault, 0)).0
