-- ===== src/CircuitBreaker/Store/Found.antt =====
-- What `byIndex` finds in a valid store (pkg/proxy/circuitbreaker/store.go).
use mathlib.Core.List.{Memᴰ}
use controller_mesh.Prelude.{
  String, ◌≡◌, sym, ◌∙◌, ap, ◌==◌, eq_iff, eq_refl, true, List, [], ◌∷◌, map, arith, contains,
  lookup, some, is_some, Option-cases, inl, inr, Bool-cases, All,
}
use controller_mesh.CircuitBreaker.Config.{RateLimiting}
use controller_mesh.CircuitBreaker.Keys.{
  index_functions, index_resource, index_rest, index_func_for_resource, index_func_for_rest,
}
use controller_mesh.CircuitBreaker.Store.{Store, Row, Functions, by_key, by_index, or_nil}
use controller_mesh.CircuitBreaker.Store.Indices.{gives, covers}
use controller_mesh.CircuitBreaker.Store.Invariant.{IsValid, holds}

-- The row is that of a stored rule for which the index function gives the value, and has a
-- limiter and a state.
pub record IsHit {L : Type 0} (s : Store L) (name value : String) (row : Row) : Type 0 where
  pub key : String
  pub rule : RateLimiting
  pub stored : lookup key s.rules ≡ some rule
  pub has_rule : row.limiting ≡ some rule
  pub given : gives rule name value ≡ true
  pub has_limiter : is_some row.limiter ≡ true
  pub has_state : is_some row.state ≡ true

contains-cons :
    (x : String) (xs ys : List String)
    → All (λ j. contains j xs ≡ true) ys
    → All (λ j. contains j (x ∷ xs) ≡ true) ys
contains-cons x xs [] h = tt
contains-cons x xs (y ∷ ys) (p, h) = (ground (arith, p), contains-cons x xs ys h)

contains_self : (xs : List String) → All (λ j. contains j xs ≡ true) xs
contains_self [] = tt
contains_self (x ∷ xs) = (ground (arith, eq_refl x), contains-cons x xs xs (contains_self xs))

mem_of_contains :
    {B : Type 0} (f : String → B) (j : String) (xs : List String)
    → contains j xs ≡ true
    → Memᴰ (f j) (map f xs)
mem_of_contains f j [] h = cc
mem_of_contains f j (x ∷ xs) h = elim (Bool-cases (x == j)) [
  | inl same ↦ Memᴰ.head (ap f (sym ((eq_iff x j).0 same)))
  | inr other ↦ Memᴰ.tail (mem_of_contains f j xs (ground (arith, other)))
]

covers-lookup :
    (fs : Functions) (r : RateLimiting) (m v : String)
    → covers fs r m v ≡ true
    → is_some (lookup m fs) ≡ true
unfolding lookup
covers-lookup [] r m v h = cc
covers-lookup ((name, f) ∷ fs) r m v h = ground (arith, h, covers-lookup fs r m v)

gives-lookup :
    (r : RateLimiting) (m v : String)
    → gives r m v ≡ true
    → is_some (lookup m index_functions) ≡ true
unfolding gives
gives-lookup r m v h = covers-lookup index_functions r m v h

module _ {L : Type 0} (s : Store L) (v : IsValid s) (name value : String) where
  abbrev found : List String
  found = or_nil (lookup value (or_nil (lookup name s.indices)))

  key-IsHit : (j : String) → contains j found ≡ true → IsHit s name value (by_key j s)
  unfolding by_key
  key-IsHit j h = elim (Option-cases (lookup j s.rules)) [
    | inl e ↦ absurd (ground (arith, e, h, v.exact name value j))
    | inr (r, e) ↦ record {
      key = j;
      rule = r;
      stored = e;
      has_rule = e;
      given = ground (arith, e, h, v.exact name value j);
      has_limiter = v.limiters_kept j ∙ ap is_some e;
      has_state = v.states_kept j ∙ ap is_some e;
    }
  ]

  keys-IsHit :
      (js : List String)
      → All (λ j. contains j found ≡ true) js
      → All (IsHit s name value) (map (λ j. by_key j s) js)
  keys-IsHit [] h = tt
  keys-IsHit (j ∷ js) (p, h) = (key-IsHit j p, keys-IsHit js h)

  -- Every place of the slices that `byIndex` returns has a rule that the index function gives the
  -- value for, and its limiter and its state: no pointer is nil.
  pub by_index-IsHit : All (IsHit s name value) (by_index name value s)
  unfolding by_index
  by_index-IsHit = elim (Option-cases (lookup name index_functions)) [
    | inl e ↦ rw (e, by_index) tt
    | inr (f, e) ↦ rw (e, by_index) (keys-IsHit found (contains_self found))
  ]

  -- Every rule of the store that the index function gives the value for is found, with its
  -- limiter and its state.
  pub by_index-complete :
      (j : String) (r : RateLimiting)
      → lookup j s.rules ≡ some r
      → gives r name value ≡ true
      → Memᴰ (by_key j s) (by_index name value s)
  unfolding by_index
  by_index-complete j r e g = elim (Option-cases (lookup name index_functions)) [
    | inl missing ↦ absurd (ground (arith, missing, gives-lookup r name value g))
    | inr (f, known) ↦
        rw (known, by_index)
          (mem_of_contains (λ k. by_key k s) j found
            (v.exact name value j ∙ ap (λ o. holds o name value) e ∙ g))
  ]

-- In a valid store byIndex finds exactly the rules that the index function gives the value for: every
-- such rule is found, with its limiter and its state, and every place of the slices that it returns is
-- that of such a rule, with no pointer that is nil.
pub by_index-exact :
    {L : Type 0} (s : Store L)
    → IsValid s
    → (name value : String)
    → All (IsHit s name value) (by_index name value s)
      × ((j : String) (r : RateLimiting)
          → lookup j s.rules ≡ some r
          → gives r name value ≡ true
          → Memᴰ (by_key j s) (by_index name value s))
by_index-exact s v name value = (by_index-IsHit s v name value, by_index-complete s v name value)

-- What the two index functions give.
pub gives-resource :
    (r : RateLimiting) (v : String)
    → gives r index_resource v ≡ contains v (index_func_for_resource r)
unfolding gives index_functions
gives-resource r v = ground arith

pub gives-rest :
    (r : RateLimiting) (v : String) → gives r index_rest v ≡ contains v (index_func_for_rest r)
unfolding gives index_functions
gives-rest r v = ground arith
