-- ===== src/Conversion/Tests.antt =====
-- Runs of the conversions.
use controller_mesh.Prelude.{[], ◌∷◌, some, ◌≡◌, refl}
use controller_mesh.CircuitBreaker.Config.{limiter_only, sleeping_window}
use controller_mesh.Conversion.{Limiting, convert_limiting}
use controller_mesh.Conversion.RoundTrip.{
  IsKnownLimiting, sized, limiting_from, limiting_from-convert_limiting,
}

abbrev deletions : Limiting
deletions = record {
  name = "deletions";
  resource_rules =
      record {
        api_groups = "apps" ∷ [];
        resources = "deployments" ∷ [];
        verbs = "delete" ∷ [];
        namespaces = "*" ∷ [];
      }
      ∷ [];
  rest_rules = record { url = "/delete"; method = "POST" } ∷ [];
  bucket = record { limit = 10; burst = 20; interval = "1m" };
  trigger_policy = "LimiterOnly";
  recover_policy =
      some (record { recover_type = "SleepingWindow"; sleeping_window_size = some "10m" });
  properties = ("tier", "gold") ∷ ("owner", "apps") ∷ [];
}

deletions-IsKnownLimiting : IsKnownLimiting deletions
deletions-IsKnownLimiting = record {
  policy = limiter_only;
  is_policy = refl;
  is_recovery = sized sleeping_window "10m" refl;
}

limiting_from-convert_limiting_example : limiting_from (convert_limiting deletions) ≡ deletions
limiting_from-convert_limiting_example =
    limiting_from-convert_limiting deletions deletions-IsKnownLimiting
