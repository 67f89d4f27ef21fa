-- ===== src/Sharding/Validation/Limits.antt =====
-- What an accepted configuration says of its limits
-- (pkg/webhook/shardingconfig/shardingconfig_validating_handler.go).
use controller_mesh.Prelude.{
  String, ◌≡◌, refl, sym, ap, ◌∙◌, List, [], ◌∷◌, ◌++◌, map, false, Option, none, some, contains,
  arith,
}
use controller_mesh.Prelude.Sets.{contains-insert}
use controller_mesh.Prelude.Sets
use controller_mesh.Sharding.Config.{ObjectLimiter}
use controller_mesh.Sharding.Validation.{
  ShardingConfig, Environment, api_resource, pairs_of, validate_pairs, validate_selector,
  validate_limits, validate, first_error, validate_controller, validate_webhook,
}

pub first_error-none : (a b : Option String) → first_error a b ≡ none → (a ≡ none) × (b ≡ none)
first_error-none none b e = (refl, e)
first_error-none (some x) b e = ground (arith, e)

abbrev pub joined : List (String × String) → List String
joined pairs = map (λ (p : String × String). api_resource (p.1) (p.0)) pairs

-- The two keys that the loop looks for.
record AreAbsent (resource api : String) (keys : List String) : Type 0 where
  itself : contains (api_resource api resource) keys ≡ false
  wildcard : contains (api_resource "*" resource) keys ≡ false

-- The body of the loops, where it reports nothing.
validate_pairs-cons :
    (resource api : String) (pairs : List (String × String)) (seen : List String)
    → validate_pairs ((resource, api) ∷ pairs) seen ≡ none
    → AreAbsent resource api seen
      × (validate_pairs pairs (Sets.insert (api_resource api resource) seen) ≡ none)
unfolding validate_pairs
validate_pairs-cons resource api pairs seen e =
    (record { itself = ground (arith, e); wildcard = ground (arith, e) }, ground (arith, e))

AreAbsent-insert :
    (resource api key : String) (keys : List String)
    → AreAbsent resource api (Sets.insert key keys)
    → AreAbsent resource api (key ∷ []) × AreAbsent resource api keys
AreAbsent-insert resource api key keys h =
    let one = contains-insert key (api_resource api resource) keys in
    let two = contains-insert key (api_resource "*" resource) keys in
    (
      record { itself = ground (arith, h.itself, one); wildcard = ground (arith, h.wildcard, two) },
      record { itself = ground (arith, h.itself, one); wildcard = ground (arith, h.wildcard, two) },
    )

AreAbsent-cons :
    (resource api key : String) (keys : List String)
    → AreAbsent resource api (key ∷ [])
    → AreAbsent resource api keys
    → AreAbsent resource api (key ∷ keys)
AreAbsent-cons resource api key keys h k = record {
  itself = ground (arith, h.itself, k.itself);
  wildcard = ground (arith, h.wildcard, k.wildcard);
}

validate_pairs-AreAbsent :
    (resource api : String) (before after : List (String × String)) (seen : List String)
    → validate_pairs (before ++ (resource, api) ∷ after) seen ≡ none
    → AreAbsent resource api seen × AreAbsent resource api (joined before)
validate_pairs-AreAbsent resource api [] after seen e =
    ((validate_pairs-cons resource api after seen e).0, record { itself = refl; wildcard = refl })
validate_pairs-AreAbsent resource api ((r, a) ∷ before) after seen e =
    let (seen_now, tail) =
      validate_pairs-AreAbsent resource api before after (Sets.insert (api_resource a r) seen)
        ((validate_pairs-cons r a (before ++ (resource, api) ∷ after) seen e).1) in
    let (head, old) = AreAbsent-insert resource api (api_resource a r) seen seen_now in
    (old, AreAbsent-cons resource api (api_resource a r) (joined before) head tail)

validate_limits-pairs :
    (env : Environment) (obj : ShardingConfig) (limits : List ObjectLimiter)
    → obj.limits ≡ some limits
    → validate_limits env obj ≡ none
    → validate_pairs (pairs_of limits) [] ≡ none
unfolding validate_limits
validate_limits-pairs env obj limits has_limits ok =
    let others = first_error (validate_controller obj.controller) (validate_webhook obj.webhook) in
    let opened : validate_limits env obj
        ≡ first_error (validate_pairs (pairs_of limits) []) others =
      rw (has_limits, validate_limits) refl in
    (first_error-none (validate_pairs (pairs_of limits) []) others (sym opened ∙ ok)).0

-- In a configuration that is accepted, no resource of an API group is limited twice, and none is
-- limited after the same resource of all API groups.
pub validate_no_duplicate :
    (env : Environment) (obj : ShardingConfig) (limits : List ObjectLimiter)
    (before after : List (String × String)) (resource api : String)
    → validate env obj ≡ none
    → obj.limits ≡ some limits
    → pairs_of limits ≡ before ++ (resource, api) ∷ after
    → (contains (api_resource api resource) (joined before) ≡ false)
      × (contains (api_resource "*" resource) (joined before) ≡ false)
unfolding validate validate_limits
validate_no_duplicate env obj limits before after resource api accepted has_limits pairs =
    let (root_ok, rest) = first_error-none _ _ accepted in
    let (selector_ok, limits_ok) =
      first_error-none (validate_selector env obj.selector obj.root) (validate_limits env obj)
        rest in
    let pairs_ok = validate_limits-pairs env obj limits has_limits limits_ok in
    let absent =
      (validate_pairs-AreAbsent resource api before after []
        (ap (λ ps. validate_pairs ps []) (sym pairs) ∙ pairs_ok)).1 in
    (absent.itself, absent.wildcard)
