-- ===== src/Sharding/Auto/Children.antt =====
-- The pods and the hashes of the children of a root
-- (pkg/manager/controllers/shardingconfigserver/auto_sharding.go).
use controller_mesh.CircuitBreaker.Config.{pos}
use controller_mesh.Prelude.{
  ℕ, zero, suc, ◌+◌, ◌*◌, ◌-◌, ◌≤◌, ◌<◌, ◌≡◌, refl, sym, ap, ◌∙◌, String, List, [], ◌∷◌, ◌++◌, map,
  flat_map, get_elem?, length, Bool, true, false, Option, none, some, arith, if◌then◌else◌, ◌==◌,
  eq_refl, is_empty, not,
}
use controller_mesh.Selectors.{op_in, Requirement, LabelSelector}
use controller_mesh.Sharding.Config.{
  ObjectLimiter, CanaryConfig, AutoConfig, RootConfig, Child, Environment,
}
use controller_mesh.Sharding.Auto.{
  text, itoa, numbers_from, gen_name_in_range, get_range, clear_same, require, selector_or_empty,
  without_canary, global_limit, gen_sharding_global_limits, child, normal_child, rounds_to,
}
use controller_mesh.Sharding.Auto.Laws.{
  map-append, numbers_from-append, ranges-batches, batches-partition,
}

-- The values that the last requirement allows, if it asks for the key to be in its values.
abbrev pub last_allowed : String → List Requirement → List String
last_allowed key [] = []
last_allowed key (r ∷ []) =
    if r.key == key then (elim (r.operator) [ op_in ↦ r.values | _ ↦ [] ]) else []
last_allowed key (r ∷ q ∷ qs) = last_allowed key (q ∷ qs)

abbrev pub allowed_by : String → Option LabelSelector → List String
allowed_by key none = []
allowed_by key (some s) = last_allowed key s.match_expressions

-- The pods that a child selects.
abbrev pub pods_of : Child → List String
pods_of c = allowed_by "statefulset.kubernetes.io/pod-name" c.spec.selector

-- The shard hashes that the limit of a child at an index lets through.
abbrev pub hashes_of : Environment → ℕ → Child → List String
hashes_of env i c = elim (get_elem? c.spec.limits i) [
  | none ↦ []
  | some l ↦ allowed_by env.shard_hash_label l.selector
]

-- The name of a pod of a stateful set.
abbrev pub pod_name : String → ℕ → String
pod_name set i = text set (text "-" (itoa i))

abbrev allows : String → List String → Requirement
allows key values = record { key = key; operator = op_in; values = values }

last_allowed-append :
    (key : String) (values : List String) (xs : List Requirement)
    → last_allowed key (xs ++ allows key values ∷ []) ≡ values
last_allowed-append key values [] = rw (eq_refl key) refl
last_allowed-append key values (x ∷ []) = last_allowed-append key values []
last_allowed-append key values (x ∷ y ∷ ys) = last_allowed-append key values (y ∷ ys)

allowed_by-require :
    (key : String) (values : List String) (s : LabelSelector)
    → allowed_by key (some (require (allows key values) s)) ≡ values
allowed_by-require key values s = last_allowed-append key values s.match_expressions

pub flat_map-map {ℓ κ μ} :
    {A : Type ℓ} {B : Type κ} {C : Type μ} (f : B → List C) (g : A → B) (xs : List A)
    → flat_map f (map g xs) ≡ flat_map (λ x. f (g x)) xs
flat_map-map f g [] = refl
flat_map-map f g (x ∷ xs) = ap (λ zs. f (g x) ++ zs) (flat_map-map f g xs)

flat_map-same {ℓ κ} :
    {A : Type ℓ} {B : Type κ} (f g : A → List B) (xs : List A)
    → ((x : A) → f x ≡ g x)
    → flat_map f xs ≡ flat_map g xs
flat_map-same f g [] h = refl
flat_map-same f g (x ∷ xs) h =
    ap (λ ys. ys ++ flat_map f xs) (h x) ∙ ap (λ zs. g x ++ zs) (flat_map-same f g xs h)

pub map-map {ℓ κ μ} :
    {A : Type ℓ} {B : Type κ} {C : Type μ} (f : B → C) (g : A → B) (xs : List A)
    → map f (map g xs) ≡ map (λ x. f (g x)) xs
map-map f g [] = refl
map-map f g (x ∷ xs) = ap (λ zs. f (g x) ∷ zs) (map-map f g xs)

clear_same_id : (xs ys : List String) → clear_same xs ys ≡ xs
unfolding clear_same
clear_same_id [] ys = refl
clear_same_id (x ∷ xs) ys = ap (λ zs. x ∷ zs) (clear_same_id xs ys)

-- A range of names from a base on is that of the numbers with the base added.
names-shifted :
    (set : String) (r s k : ℕ)
    → map (λ i. text set (text "-" (itoa (r + i)))) (numbers_from s k)
      ≡ map (pod_name set) (numbers_from (r + s) k)
unfolding numbers_from
names-shifted set r s zero = refl
names-shifted set r s (suc k) =
    let next : r + suc s ≡ suc (r + s) = omega arith in
    ap (λ xs. pod_name set (r + s) ∷ xs)
      (names-shifted set r (suc s) k ∙ ap (λ n. map (pod_name set) (numbers_from n k)) next)

range-names :
    (set : String) (r a b k : ℕ)
    → b ≡ a + k
    → gen_name_in_range set (pos r) a b ≡ map (pod_name set) (numbers_from (r + a) k)
range-names set r a b k e =
    let size : b - a ≡ k = omega (arith, e) in
    ap (λ n. map (λ i. text set (text "-" (itoa (r + i)))) (numbers_from a n)) size
    ∙ names-shifted set r a k

pods-normal :
    (env : Environment) (c : RootConfig) (canary : CanaryConfig) (r e i : ℕ) (auto : AutoConfig)
    → auto.every_shard_replicas ≡ pos e
    → pods_of (normal_child env c canary (pos r) auto (suc i))
      ≡ map (pod_name (c.root.target_stateful_set)) (numbers_from (r + e * i) e)
pods-normal env c canary r e i auto every =
    let set = c.root.target_stateful_set in
    let index : suc i - 1 ≡ i = omega arith in
    let grown : e * suc i ≡ e * i + e = grind arith in
    allowed_by-require "statefulset.kubernetes.io/pod-name"
      (gen_name_in_range set (pos r) (rounds_to auto.every_shard_replicas * (suc i - 1))
        (rounds_to auto.every_shard_replicas * suc i))
      (selector_or_empty c.spec.selector)
    ∙ ap (λ z. gen_name_in_range set (pos r) (rounds_to z * (suc i - 1)) (rounds_to z * suc i))
        every
    ∙ ap (λ k. gen_name_in_range set (pos r) (e * k) (e * suc i)) index
    ∙ range-names set r (e * i) (e * suc i) e grown

-- The pods of `n` shards from the one after `i` on.
pods_from :
    (env : Environment) (c : RootConfig) (canary : CanaryConfig) (r e : ℕ) (auto : AutoConfig)
    → auto.every_shard_replicas ≡ pos e
    → (i n : ℕ)
    → flat_map (λ id. pods_of (normal_child env c canary (pos r) auto id)) (numbers_from (suc i) n)
      ≡ map (pod_name (c.root.target_stateful_set)) (numbers_from (r + e * i) (e * n))
unfolding numbers_from
pods_from env c canary r e auto every i zero =
    let nothing : e * 0 ≡ 0 = grind arith in
    ap (λ k. map (pod_name (c.root.target_stateful_set)) (numbers_from (r + e * i) k)) (sym nothing)
pods_from env c canary r e auto every i (suc n) =
    let name = pod_name (c.root.target_stateful_set) in
    let start : r + e * i + e ≡ r + e * suc i = grind arith in
    let size : e + e * n ≡ e * suc n = grind arith in
    ap
      (λ xs.
        xs
        ++ flat_map (λ id. pods_of (normal_child env c canary (pos r) auto id))
            (numbers_from (suc (suc i)) n))
      (pods-normal env c canary r e i auto every)
    ∙ ap (λ ys. map name (numbers_from (r + e * i) e) ++ ys)
        (pods_from env c canary r e auto every (suc i) n)
    ∙ sym (map-append name (numbers_from (r + e * i) e) (numbers_from (r + e * suc i) (e * n)))
    ∙ ap (map name)
        (numbers_from-append (r + e * i) e (r + e * suc i) (e * n) (e * suc n) start size)

limit_at :
    (key : String) (f : ObjectLimiter → ObjectLimiter) (values : List String)
    → ((l : ObjectLimiter) → allowed_by key (f l).selector ≡ values)
    → (ls : List ObjectLimiter) (j : ℕ) → j < length ls
    → (elim (get_elem? (map f ls) j) [ none ↦ [] | some l ↦ allowed_by key l.selector ]) ≡ values
limit_at key f values h [] j lt = ground (arith, lt)
limit_at key f values h (l ∷ ls) zero lt = h l
limit_at key f values h (l ∷ ls) (suc j) lt = limit_at key f values h ls j (omega (arith, lt))

own_batch :
    (some_hashes : Bool) (batch target : List String)
    → (if some_hashes then clear_same batch target else batch) ≡ batch
own_batch true batch target = clear_same_id batch target
own_batch false batch target = refl

hashes-normal :
    (env : Environment) (c : RootConfig) (canary : CanaryConfig) (r : ℕ) (auto : AutoConfig)
    (j id n : ℕ)
    → auto.sharding_size ≡ pos n
    → j < length (c.root.resource_selector)
    → hashes_of env j (normal_child env c canary (pos r) auto id) ≡ get_range id n 32
unfolding gen_sharding_global_limits
hashes-normal env c canary r auto j id n size lt =
    let batch = get_range id (rounds_to auto.sharding_size) 32 in
    let some_hashes = not (is_empty canary.in_shard_hash) in
    let own = if some_hashes then clear_same batch canary.in_shard_hash else batch in
    limit_at env.shard_hash_label (global_limit env canary r own) own
      (λ l.
        last_allowed-append env.shard_hash_label own
          (without_canary env canary r l).match_expressions)
      c.root.resource_selector j lt
    ∙ own_batch some_hashes batch canary.in_shard_hash
    ∙ ap (λ z. get_range id (rounds_to z) 32) size

-- The hashes of all shards are all hashes, each once and in order.
pub hashes-partition :
    (env : Environment) (c : RootConfig) (canary : CanaryConfig) (r : ℕ) (auto : AutoConfig)
    (j n : ℕ)
    → auto.sharding_size ≡ pos n
    → j < length (c.root.resource_selector)
    → 1 ≤ n
    → flat_map
        (λ id. hashes_of env j (normal_child env c canary (pos r) auto id))
        (numbers_from 1 n)
      ≡ map itoa (numbers_from 0 32)
hashes-partition env c canary r auto j n size lt positive =
    flat_map-same (λ id. hashes_of env j (normal_child env c canary (pos r) auto id))
      (λ id. get_range id n 32) (numbers_from 1 n)
      (λ id. hashes-normal env c canary r auto j id n size lt)
    ∙ ranges-batches n 32 (numbers_from 1 n)
    ∙ ap (map itoa) (batches-partition n 32 positive)

-- The pods of the canary and of all shards are all pods from the first one on.
pub pods-partition :
    (env : Environment) (c : RootConfig) (canary : CanaryConfig) (r e n : ℕ) (auto : AutoConfig)
    (name : String) (limits : List ObjectLimiter)
    → auto.every_shard_replicas ≡ pos e
    → pods_of (child env c name (pos 0) 0 r limits)
        ++ flat_map (λ id. pods_of (normal_child env c canary (pos r) auto id)) (numbers_from 1 n)
      ≡ map (pod_name (c.root.target_stateful_set)) (numbers_from 0 (r + e * n))
pods-partition env c canary r e n auto name limits every =
    let set = c.root.target_stateful_set in
    let rest =
      flat_map (λ id. pods_of (normal_child env c canary (pos r) auto id)) (numbers_from 1 n) in
    let start : 0 + r ≡ r + e * 0 = grind arith in
    ap (λ xs. xs ++ rest)
      (allowed_by-require "statefulset.kubernetes.io/pod-name" (gen_name_in_range set (pos 0) 0 r)
          (selector_or_empty c.spec.selector)
        ∙ range-names set 0 0 r r (omega arith))
    ∙ ap (λ ys. map (pod_name set) (numbers_from 0 r) ++ ys)
        (pods_from env c canary r e auto every 0 n)
    ∙ sym (map-append (pod_name set) (numbers_from 0 r) (numbers_from (r + e * 0) (e * n)))
    ∙ ap (map (pod_name set)) (numbers_from-append 0 r (r + e * 0) (e * n) (r + e * n) start refl)
