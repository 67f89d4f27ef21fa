-- ===== src/Conversion/RoundTrip.antt =====
-- What the conversion of a limiting keeps (pkg/apis/ctrlmesh/utils/conv/conv.go).
use controller_mesh.Prelude.{
  Map, String, ◌≡◌, refl, sym, ap, ◌∙◌, List, [], ◌∷◌, map, false, Option, none, some,
  if◌then◌else◌, ◌==◌,
}
use controller_mesh.CircuitBreaker.Config.{
  TriggerPolicy, normal, limiter_only, force_opened, force_closed, RecoverType, manual,
  sleeping_window, RecoverPolicy, RateLimiting,
}
use controller_mesh.Conversion.{
  ApiRecoverPolicy, Limiting, convert_trigger_policy, convert_recover_type, convert_recover_policy,
  convert_resource_rule, copy_properties, convert_limiting,
}

abbrev pub policy_name : TriggerPolicy → String
policy_name normal = "Normal"
policy_name limiter_only = "LimiterOnly"
policy_name force_opened = "ForceOpened"
policy_name force_closed = "ForceClosed"

abbrev pub type_name : RecoverType → String
type_name manual = "Manual"
type_name sleeping_window = "SleepingWindow"

-- A window size that is there is not the empty text.
abbrev pub size_of : String → Option String
size_of s = if s == "" then none else some s

-- What the message of a limiting says of it.
abbrev pub recover_policy_from : Option RecoverPolicy → Option ApiRecoverPolicy
recover_policy_from none = none
recover_policy_from (some p) = some (record {
  recover_type = type_name p.recover_type;
  sleeping_window_size = size_of p.sleeping_window_size;
})

abbrev pub limiting_from : RateLimiting → Limiting
limiting_from r = record {
  name = r.name;
  resource_rules = r.resource_rules;
  rest_rules = r.rest_rules;
  bucket = r.bucket;
  trigger_policy = policy_name r.trigger_policy;
  recover_policy = recover_policy_from r.recover_policy;
  properties = r.properties;
}

-- The policies are among the constants of the API, and a window size is not the empty text.
pub data IsKnownRecovery : Option ApiRecoverPolicy → Type 0 where
  unset : IsKnownRecovery none
  unsized :
      (t : RecoverType)
      → IsKnownRecovery (some (record { recover_type = type_name t; sleeping_window_size = none }))
  sized :
      (t : RecoverType) (s : String)
      → (s == "") ≡ false
      → IsKnownRecovery
          (some (record { recover_type = type_name t; sleeping_window_size = some s }))

pub record IsKnownLimiting (limit : Limiting) : Type 0 where
  pub policy : TriggerPolicy
  pub is_policy : limit.trigger_policy ≡ policy_name policy
  pub is_recovery : IsKnownRecovery limit.recover_policy

convert_trigger_policy-policy_name :
    (p : TriggerPolicy) → convert_trigger_policy (policy_name p) ≡ p
unfolding convert_trigger_policy
convert_trigger_policy-policy_name normal = refl
convert_trigger_policy-policy_name limiter_only = refl
convert_trigger_policy-policy_name force_opened = refl
convert_trigger_policy-policy_name force_closed = refl

convert_recover_type-type_name : (t : RecoverType) → convert_recover_type (type_name t) ≡ t
unfolding convert_recover_type
convert_recover_type-type_name manual = refl
convert_recover_type-type_name sleeping_window = refl

map-same {ℓ} : {A : Type ℓ} (f : A → A) → ((a : A) → f a ≡ a) → (xs : List A) → map f xs ≡ xs
map-same f h [] = refl
map-same f h (x ∷ xs) = ap (λ y. y ∷ map f xs) (h x) ∙ ap (λ ys. x ∷ ys) (map-same f h xs)

abbrev convert_recovery : Option ApiRecoverPolicy → Option RecoverPolicy
convert_recovery p = elim p [ none ↦ none | some p ↦ some (convert_recover_policy p) ]

recover_policy_from-convert_recovery :
    (p : Option ApiRecoverPolicy) → IsKnownRecovery p → recover_policy_from (convert_recovery p) ≡ p
unfolding convert_recover_policy convert_recover_type
recover_policy_from-convert_recovery _ unset = refl
recover_policy_from-convert_recovery _ (unsized manual) = refl
recover_policy_from-convert_recovery _ (unsized sleeping_window) = refl
recover_policy_from-convert_recovery _ (sized manual s nonempty) =
    ap
      (λ b.
        some
          (record { recover_type = "Manual"; sleeping_window_size = if b then none else some s }))
      nonempty
recover_policy_from-convert_recovery _ (sized sleeping_window s nonempty) =
    ap
      (λ b. some (record {
        recover_type = "SleepingWindow";
        sleeping_window_size = if b then none else some s;
      }))
      nonempty

trigger_policy-known :
    (text : String) (p : TriggerPolicy)
    → text ≡ policy_name p
    → policy_name (convert_trigger_policy text) ≡ text
trigger_policy-known text p known =
    ap policy_name (ap convert_trigger_policy known ∙ convert_trigger_policy-policy_name p)
    ∙ sym known

copy_properties-same : (ps : Map String) → copy_properties ps ≡ ps
unfolding copy_properties
copy_properties-same [] = refl
copy_properties-same ((k, v) ∷ ps) = ap (λ qs. (k, v) ∷ qs) (copy_properties-same ps)

-- The message of a limiting tells all that is in it: a limiting with policies among the constants of
-- the API, and no window size that is the empty text, is read back from its message.
pub limiting_from-convert_limiting :
    (limit : Limiting) → IsKnownLimiting limit → limiting_from (convert_limiting limit) ≡ limit
unfolding convert_limiting convert_resource_rule
limiting_from-convert_limiting limit known = λ i. record {
  name = limit.name;
  resource_rules = map-same convert_resource_rule (λ r. refl) limit.resource_rules i;
  rest_rules =
      map-same (λ r. record { url = r.url; method = r.method }) (λ r. refl) limit.rest_rules i;
  bucket = limit.bucket;
  trigger_policy = trigger_policy-known limit.trigger_policy known.policy known.is_policy i;
  recover_policy = recover_policy_from-convert_recovery limit.recover_policy known.is_recovery i;
  properties = copy_properties-same limit.properties i;
}
