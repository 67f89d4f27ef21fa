-- ===== src/CircuitBreaker/Manager/Rules.antt =====
-- Which rules are in force after configurations have been synchronised: Sync
-- (pkg/proxy/circuitbreaker/manager.go).
use mathlib.Core.Path.{subst}
use controller_mesh.Prelude.{
  ℕ, String, ◌≡◌, refl, sym, ◌∙◌, ◌⊎◌, ◌||◌, List, [], ◌∷◌, map, true, false, Option, none, some,
  is_some, Map, lookup, lookup-insert, lookup-erase, if◌then◌else◌, ◌==◌, eq_iff, eq_refl,
  colon_join, NoColon, colon_join_inj, contains, arith, Option-cases, Bool-cases, inl, inr,
}
use controller_mesh.CircuitBreaker.Config.{CircuitBreaker, RateLimiting, Platform}
use controller_mesh.CircuitBreaker.Store.{Store, create_or_update_rule, delete_rule}
use controller_mesh.CircuitBreaker.Store.Invariant.{
  IsValid, delete_rule-IsValid, create_or_update_rule-IsValid,
}
use controller_mesh.CircuitBreaker.Manager.{delete_limitings, create_limitings, closed_snapshot}

-- The keys of the limiting rules of a configuration.
abbrev pub keys_of : String → List RateLimiting → List String
keys_of cb_name limitings = map (λ (l : RateLimiting). colon_join cb_name l.name) limitings

module _ {L : Type 0} where
  rules-delete_rule :
      (key j : String) (s : Store L)
      → lookup j ((delete_rule key s).rules) ≡ (if key == j then none else lookup j s.rules)
  unfolding delete_rule
  rules-delete_rule key j s = elim (Option-cases (lookup key s.rules)) [
    | inl e ↦ ground (arith, e, eq_iff key j)
    | inr (obj, e) ↦ ground (arith, e, lookup-erase key j s.rules)
  ]

  rules-delete_limitings :
      (name : String) (ls : List RateLimiting) (j : String) (s : Store L)
      → lookup j ((delete_limitings name ls s).rules)
        ≡ (if contains j (keys_of name ls) then none else lookup j s.rules)
  unfolding delete_limitings
  rules-delete_limitings name [] j s = refl
  rules-delete_limitings name (l ∷ ls) j s =
      let key = colon_join name l.name in
      ground
        (arith, rules-delete_limitings name ls j (delete_rule key s), rules-delete_rule key j s)

  pub delete_limitings-IsValid :
      (name : String) (ls : List RateLimiting) (s : Store L)
      → IsValid s
      → IsValid (delete_limitings name ls s)
  unfolding delete_limitings
  delete_limitings-IsValid name [] s v = v
  delete_limitings-IsValid name (l ∷ ls) s v =
      delete_limitings-IsValid name ls (delete_rule (colon_join name l.name) s)
        (delete_rule-IsValid s v (colon_join name l.name))

module _ (lib : Platform) (now : ℕ) where
  rules-create :
      (key j : String) (l : RateLimiting) (s : Store lib.Limiter)
      → lookup j ((create_or_update_rule lib now key l closed_snapshot s).rules)
        ≡ (if key == j then some l else lookup j s.rules)
  unfolding create_or_update_rule
  rules-create key j l s = elim (Option-cases (lookup key s.rules)) [
    | inl e ↦ rw (e, create_or_update_rule) (lookup-insert key j l s.rules)
    | inr (old_one, e) ↦ ground (arith, e, lookup-insert key j l s.rules)
  ]

  rules-create_limitings :
      (name : String) (ls : List RateLimiting) (j : String) (s : Store lib.Limiter)
      → is_some (lookup j ((create_limitings lib now name ls s).rules))
        ≡ (contains j (keys_of name ls) || is_some (lookup j s.rules))
  unfolding create_limitings
  rules-create_limitings name [] j s = refl
  rules-create_limitings name (l ∷ ls) j s =
      let key = colon_join name l.name in
      let s' = create_or_update_rule lib now key l closed_snapshot s in
      ground (arith, rules-create_limitings name ls j s', rules-create key j l s)

  pub create_limitings-IsValid :
      (name : String) (ls : List RateLimiting) (s : Store lib.Limiter)
      → IsValid s
      → IsValid (create_limitings lib now name ls s)
  unfolding create_limitings
  create_limitings-IsValid name [] s v = v
  create_limitings-IsValid name (l ∷ ls) s v =
      let key = colon_join name l.name in
      create_limitings-IsValid name ls (create_or_update_rule lib now key l closed_snapshot s)
        (create_or_update_rule-IsValid lib s v now key l closed_snapshot)

key_owner :
    (n j : String) (ls : List RateLimiting)
    → contains j (keys_of n ls) ≡ true
    → (b : String) × (j ≡ colon_join n b)
key_owner n j [] h = cc
key_owner n j (l ∷ ls) h = elim (Bool-cases (colon_join n l.name == j)) [
  | inl same ↦ (l.name, sym ((eq_iff _ _).0 same))
  | inr other ↦ key_owner n j ls (ground (arith, other, h))
]

-- Configurations of different names without colons have no key in common.
keys_disjoint :
    (n n' j : String) (ls ls' : List RateLimiting)
    → NoColon n
    → NoColon n'
    → contains j (keys_of n ls) ≡ true
    → contains j (keys_of n' ls') ≡ true
    → n ≡ n'
keys_disjoint n n' j ls ls' p p' h h' =
    let (b, e) = key_owner n j ls h in
    let (b', e') = key_owner n' j ls' h' in (colon_join_inj n n' b b' p p' (sym e ∙ e')).0

-- The rules are those of the configurations held: each configuration stands under its own name,
-- which has no colon, each rule of it is there, and there is no other rule.
pub record InForce (held : String → Option CircuitBreaker) (rules : Map RateLimiting) : Type 0 where
  pub own_name : (n : String) (cb : CircuitBreaker) → held n ≡ some cb → cb.name ≡ n
  pub plain : (n : String) (cb : CircuitBreaker) → held n ≡ some cb → NoColon n
  pub present :
      (n : String) (cb : CircuitBreaker) (j : String)
      → held n ≡ some cb
      → contains j (keys_of n cb.rate_limitings) ≡ true
      → is_some (lookup j rules) ≡ true
  pub no_other :
      (j : String)
      → is_some (lookup j rules) ≡ true
      → (n : String) × (cb : CircuitBreaker) × (held n ≡ some cb)
        × (contains j (keys_of n cb.rate_limitings) ≡ true)

module _ (held : String → Option CircuitBreaker) (n : String) where
  abbrev pub without : String → Option CircuitBreaker
  without k = if n == k then none else held k

  abbrev pub with : CircuitBreaker → String → Option CircuitBreaker
  with cb k = if n == k then some cb else held k

module _ {L : Type 0} (held : String → Option CircuitBreaker) (s : Store L)
    (v : InForce held s.rules) (n : String) (cb : CircuitBreaker) (e : held n ≡ some cb) where
  pub delete_limitings-InForce :
      InForce (without held n) ((delete_limitings n cb.rate_limitings s).rules)
  delete_limitings-InForce = record {
    own_name = λ k c f. ground (arith, f, v.own_name k c);
    plain = λ k c f. v.plain k c (ground (arith, f));
    present = λ k c j f h. kept k c j f (ground (arith, f)) h;
    no_other = λ j h. owner j h;
  }
    where
      kept :
          (k : String) (c : CircuitBreaker) (j : String)
          → without held n k ≡ some c
          → held k ≡ some c
          → contains j (keys_of k c.rate_limitings) ≡ true
          → is_some (lookup j ((delete_limitings n cb.rate_limitings s).rules)) ≡ true
      kept k c j f g h = ground (
        arith,
        rules-delete_limitings n cb.rate_limitings j s,
        v.present k c j g h,
        h,
        f,
        keys_disjoint n k j cb.rate_limitings c.rate_limitings (v.plain n cb e) (v.plain k c g),
        eq_iff n k,
      )

      owner :
          (j : String)
          → is_some (lookup j ((delete_limitings n cb.rate_limitings s).rules)) ≡ true
          → (k : String) × (c : CircuitBreaker) × (without held n k ≡ some c)
            × (contains j (keys_of k c.rate_limitings) ≡ true)
      owner j h =
          let gone = rules-delete_limitings n cb.rate_limitings j s in
          let (k, c, f, g) = v.no_other j (ground (arith, gone, h)) in
          (k, c, ground (arith, gone, h, f, g, e, eq_iff n k), g)

module _ (lib : Platform) (now : ℕ) (held : String → Option CircuitBreaker) (s : Store lib.Limiter)
    (v : InForce held s.rules) (cb : CircuitBreaker) (free : held cb.name ≡ none)
    (plain_name : NoColon cb.name) where
  pub create_limitings-InForce :
      InForce (with held cb.name cb) ((create_limitings lib now cb.name cb.rate_limitings s).rules)
  create_limitings-InForce = record {
    own_name = λ k c f. ground (arith, f, v.own_name k c, eq_iff cb.name k);
    plain = λ k c f. named k c f (Bool-cases (cb.name == k));
    present = λ k c j f h. ground (
      arith,
      rules-create_limitings lib now cb.name cb.rate_limitings j s,
      v.present k c j,
      f,
      h,
      eq_iff cb.name k,
    );
    no_other = λ j h. owner j h;
  }
    where
      named :
          (k : String) (c : CircuitBreaker)
          → with held cb.name cb k ≡ some c
          → ((cb.name == k) ≡ true) ⊎ ((cb.name == k) ≡ false)
          → NoColon k
      named k c f (inl same) = subst NoColon ((eq_iff cb.name k).0 same) plain_name
      named k c f (inr other) = v.plain k c (ground (arith, f, other))

      owner :
          (j : String)
          → is_some (lookup j ((create_limitings lib now cb.name cb.rate_limitings s).rules)) ≡ true
          → (k : String) × (c : CircuitBreaker) × (with held cb.name cb k ≡ some c)
            × (contains j (keys_of k c.rate_limitings) ≡ true)
      owner j h =
          let made = rules-create_limitings lib now cb.name cb.rate_limitings j s in
          elim (Bool-cases (contains j (keys_of cb.name cb.rate_limitings))) [
            | inl own ↦ (cb.name, cb, ground (arith, eq_refl cb.name), own)
            | inr other ↦
                let (k, c, f, g) = v.no_other j (ground (arith, made, h, other)) in
                (k, c, ground (arith, f, g, free, eq_iff cb.name k), g)
          ]
