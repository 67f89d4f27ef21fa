-- ===== src/Sharding/Auto.antt =====
-- The children of a root configuration: getChild and what it calls
-- (pkg/manager/controllers/shardingconfigserver/auto_sharding.go). `none` is the panic of a nil
-- pointer.
pub mod Laws
pub mod Children
pub mod Sync
pub mod Release
pub mod Runs
use Prim.Native.String
use controller_mesh.Prelude.{
  ℕ, zero, suc, ◌+◌, ◌*◌, ◌-◌, ◌/◌, ◌%◌, String, List, [], ◌∷◌, ◌++◌, map, Bool, true, false, not,
  ◌&&◌, ◌||◌, Option, none, some, ltb, ◌==◌, is_empty, if◌then◌else◌, ◌>>=◌, get_elem?,
}
use controller_mesh.CircuitBreaker.Config.{ℤ, pos, negsuc}
use controller_mesh.Selectors.{op_in, op_not_in, Requirement, LabelSelector}
use controller_mesh.Sharding.Config.{
  ObjectLimiter, CanaryConfig, AutoConfig, ShardingConfigRoot, ChildSpec, Child, RootConfig,
  Environment,
}

abbrev pub text : String → String → String
text a b = String.◌++◌ a b

abbrev digit : ℕ → String
digit n =
    elim (get_elem? {A = String} ("0" ∷ "1" ∷ "2" ∷ "3" ∷ "4" ∷ "5" ∷ "6" ∷ "7" ∷ "8" ∷ []) n) [
      | none ↦ "9"
      | some d ↦ d
    ]

-- `strconv.Itoa`; the first number bounds the number of digits.
unfoldable pub digits : ℕ → ℕ → String
digits zero n = ""
digits (suc fuel) n =
    let rest = digits fuel (n / 10) in if ltb n 10 then digit n else text rest (digit (n % 10))

abbrev pub itoa : ℕ → String
itoa n = digits (suc n) n

-- The `count` numbers from `s` on.
unfoldable pub numbers_from : ℕ → ℕ → List ℕ
numbers_from s zero = []
numbers_from s (suc count) = s ∷ numbers_from (suc s) count

-- How many rounds a loop from 1 to the number has.
abbrev pub rounds_to : ℤ → ℕ
rounds_to (pos n) = n
rounds_to (negsuc n) = 0

abbrev pub shifted : ℤ → ℕ → ℤ
shifted (pos n) i = pos (n + i)
shifted (negsuc n) i = if ltb n i then pos (i - (n + 1)) else negsuc (n - i)

abbrev pub int_text : ℤ → String
int_text (pos n) = itoa n
int_text (negsuc n) = text "-" (itoa (n + 1))

-- From `base + s` to the number before `base + until`.
abbrev pub gen_name_in_range : String → ℤ → ℕ → ℕ → List String
gen_name_in_range prefix base s until =
    map (λ i. text prefix (text "-" (int_text (shifted base i)))) (numbers_from s (until - s))

-- `math.Ceil` of the quotient, for a size of at least 1.
abbrev pub batch_size : ℕ → ℕ → ℕ
batch_size sharding_size all = (all + (sharding_size - 1)) / sharding_size

-- The numbers of the batch of a shard, whose `id` is at least 1: those from `s` to `t` below `all`.
unfoldable pub batch_numbers : ℕ → ℕ → ℕ → List ℕ
unfolding numbers_from
batch_numbers id sharding_size all =
    let s = batch_size sharding_size all * (id - 1) in
    let until = batch_size sharding_size all * id in
    numbers_from s ((if ltb all until then all else until) - s)

unfoldable pub get_range : ℕ → ℕ → ℕ → List String
unfolding batch_numbers
get_range id sharding_size all = map itoa (batch_numbers id sharding_size all)

-- The inner loop ends without effect, since its `continue` belongs to itself.
unfoldable pub clear_same : List String → List String → List String
clear_same [] target = []
clear_same (id ∷ ids) target = id ∷ clear_same ids target

-- `append(selector.MatchExpressions, requirement)`.
abbrev pub require : Requirement → LabelSelector → LabelSelector
require requirement s = record s { match_expressions = s.match_expressions ++ requirement ∷ [] }

abbrev pub selector_or_empty : Option LabelSelector → LabelSelector
selector_or_empty none = record { match_labels = []; match_expressions = [] }
selector_or_empty (some s) = s

abbrev pub has_canary : CanaryConfig → Bool
has_canary canary = not (is_empty canary.in_namespaces) || not (is_empty canary.in_shard_hash)

module _ (env : Environment) where
  abbrev pub namespaces : List String → Requirement
  namespaces values = record { key = env.namespace_shard_label; operator = op_in; values = values }

  abbrev pub hashes : List String → Requirement
  hashes values = record { key = env.shard_hash_label; operator = op_in; values = values }

  -- The body of the loop of `genCanaryLimits`.
  abbrev pub canary_limit : CanaryConfig → ObjectLimiter → ObjectLimiter
  canary_limit canary limiter =
      let s₀ = selector_or_empty limiter.selector in
      let s₁ =
        if not (is_empty canary.in_namespaces)
        then require (namespaces canary.in_namespaces) s₀
        else s₀ in
      let s₂ =
        if not (is_empty canary.in_shard_hash)
        then require (hashes canary.in_shard_hash) s₁
        else s₁ in
      record limiter { selector = some s₂ }

  unfoldable pub gen_canary_limits : CanaryConfig → List ObjectLimiter → List ObjectLimiter
  gen_canary_limits canary limiters = map (canary_limit canary) limiters

  -- The selector of a limit without what is for the canary, which has the replicas, 0 for a negative
  -- number.
  abbrev pub without_canary : CanaryConfig → ℕ → ObjectLimiter → LabelSelector
  without_canary canary replicas limiter =
      let s₀ = selector_or_empty limiter.selector in
      let s₁ =
        if not (is_empty canary.in_namespaces) && ltb 0 replicas
        then require (record (namespaces canary.in_namespaces) { operator = op_not_in }) s₀
        else s₀ in
      if not (is_empty canary.in_shard_hash) && ltb 0 replicas
      then require (record (hashes canary.in_shard_hash) { operator = op_not_in }) s₁
      else s₁

  -- The body of the loop of `genShardingGlobalLimits`.
  abbrev pub global_limit : CanaryConfig → ℕ → List String → ObjectLimiter → ObjectLimiter
  global_limit canary replicas batch limiter = record limiter {
    selector = some (require (hashes batch) (without_canary canary replicas limiter));
  }

  -- `getChild` has set the canary and its replicas before.
  unfoldable pub gen_sharding_global_limits :
      CanaryConfig → ℕ → List String → List ObjectLimiter → List ObjectLimiter
  unfolding clear_same
  gen_sharding_global_limits canary replicas batch limiters =
      let own =
        if not (is_empty canary.in_shard_hash)
        then clear_same batch canary.in_shard_hash
        else batch in
      map (global_limit canary replicas own) limiters

  -- A child with the given name, pods `base + first` to the one before `base + until`, and limits.
  abbrev pub child : RootConfig → String → ℤ → ℕ → ℕ → List ObjectLimiter → Child
  child c name base first until limits = record {
    name = name;
    namespace = c.namespace;
    annotations = ("ctrlmesh.kusionstack.io/auto-sharding-hash", env.root_hash c.root) ∷ [];
    labels = ("ctrlmesh.kusionstack.io/auto-sharding-root", c.name) ∷ [];
    spec = record {
      selector = some (
          require
            (record {
              key = "statefulset.kubernetes.io/pod-name";
              operator = op_in;
              values = gen_name_in_range (c.root.target_stateful_set) base first until;
            })
            (selector_or_empty c.spec.selector));
      controller = c.spec.controller;
      webhook = c.spec.webhook;
      limits = limits;
    };
  }

  -- A number of replicas of a shard that is not positive makes the range of its pods empty, as 0 does.
  abbrev pub normal_child : RootConfig → CanaryConfig → ℤ → AutoConfig → ℕ → Child
  normal_child c canary replicas auto id =
      child c (text c.root.prefix (text "-" (text (itoa id) "-normal"))) replicas
        (rounds_to auto.every_shard_replicas * (id - 1)) (rounds_to auto.every_shard_replicas * id)
        (gen_sharding_global_limits canary (rounds_to replicas)
          (get_range id (rounds_to auto.sharding_size) 32) c.root.resource_selector)

  abbrev pub normal_children : RootConfig → CanaryConfig → ℤ → AutoConfig → List Child
  normal_children c canary replicas auto =
      map (normal_child c canary replicas auto) (numbers_from 1 (rounds_to auto.sharding_size))

  -- Without a canary to make, `getChild` writes 0 through the pointer to the canary.
  abbrev pub children_with : RootConfig → AutoConfig → CanaryConfig → List Child
  children_with c auto canary = elim (canary.replicas) [
    | none ↦ normal_children c (record canary { replicas = some (pos 0) }) (pos 0) auto
    | some r ↦
        if has_canary canary
        then child c (text c.root.prefix "-0-canary") (pos 0) 0 (rounds_to r)
            (gen_canary_limits canary c.root.resource_selector)
          ∷ normal_children c canary r auto
        else normal_children c (record canary { replicas = some (pos 0) }) (pos 0) auto
  ]

  unfoldable pub get_child : RootConfig → Option (List Child)
  unfolding gen_canary_limits gen_sharding_global_limits get_range numbers_from
  get_child c = elim (c.root.auto) [
    | none ↦ some []
    | some auto ↦ do canary ← c.root.canary; some (children_with c auto canary)
  ]
