-- ===== src/CircuitBreaker/Store/Invariant.antt =====
-- The invariant of the store: the indices list exactly the rules, and every rule has a limiter and
-- a state of its own (pkg/proxy/circuitbreaker/store.go).
use controller_mesh.Prelude.{
  ℕ, suc, ◌<◌, String, ◌≡◌, refl, ◌∙◌, ap, eq_iff, Bool, true, false, arith, Map, lookup, insert,
  erase, lookup-insert, lookup-erase, Option, none, some, is_some, Option-cases, Bool-cases, inl,
  inr,
}
use controller_mesh.CircuitBreaker.Config.{RateLimiting, LimitingSnapshot, Platform}
use controller_mesh.CircuitBreaker.Store.{
  Store, new_limiter_store, create_or_update_rule, delete_rule, update_indices, bucket_equals,
}
use controller_mesh.CircuitBreaker.Store.Indices.{
  gives, indexed, indexed-delete_from_indices, indexed-update_indices_new,
  indexed-update_indices_old,
}

-- The rule is there, and an index function of the name gives the value for it.
abbrev pub holds : Option RateLimiting → String → String → Bool
holds none m v = false
holds (some r) m v = gives r m v

-- Each entry of a map of pointers has a pointer of its own that has been given out.
pub record IsOwned (next : ℕ) (pointers : Map ℕ) : Type 0 where
  pub given_out : (j : String) (p : ℕ) → lookup j pointers ≡ some p → p < next
  pub own : (j k : String) (p : ℕ) → lookup j pointers ≡ some p → lookup k pointers ≡ some p → j ≡ k

module _ {L : Type 0} where
  pub record IsValid (s : Store L) : Type 0 where
    pub exact : (m v j : String) → indexed s.indices m v j ≡ holds (lookup j s.rules) m v
    pub limiters_kept : (j : String) → is_some (lookup j s.limiters) ≡ is_some (lookup j s.rules)
    pub states_kept : (j : String) → is_some (lookup j s.states) ≡ is_some (lookup j s.rules)
    pub own_limiters : IsOwned s.next s.limiters
    pub own_states : IsOwned s.next s.states
    pub state_keys : (j : String) (p : ℕ) → lookup j s.states ≡ some p → (s.state_heap p).key ≡ j

IsOwned-insert :
    (next : ℕ) (k : String) (pointers : Map ℕ)
    → IsOwned next pointers
    → IsOwned (suc next) (insert k next pointers)
IsOwned-insert next k pointers h = record {
  given_out = λ j p e. ground (arith, e, lookup-insert k j next pointers, h.given_out j p);
  own = λ j l p e f. ground (
    arith,
    e,
    f,
    lookup-insert k j next pointers,
    lookup-insert k l next pointers,
    h.given_out j p,
    h.given_out l p,
    h.own j l p,
    eq_iff k j,
    eq_iff k l,
  );
}

IsOwned-erase :
    (next : ℕ) (k : String) (pointers : Map ℕ)
    → IsOwned next pointers
    → IsOwned next (erase k pointers)
IsOwned-erase next k pointers h = record {
  given_out = λ j p e. ground (arith, e, lookup-erase k j pointers, h.given_out j p);
  own = λ j l p e f.
      ground (arith, e, f, lookup-erase k j pointers, lookup-erase k l pointers, h.own j l p);
}

IsOwned-suc : (next : ℕ) (pointers : Map ℕ) → IsOwned next pointers → IsOwned (suc next) pointers
IsOwned-suc next pointers h = record {
  given_out = λ j p e. omega (arith, h.given_out j p e);
  own = h.own;
}

-- The new store is valid.
pub new_limiter_store-IsValid : (lib : Platform) → IsValid (new_limiter_store lib)
unfolding new_limiter_store lookup
new_limiter_store-IsValid lib = record {
  exact = λ m v j. refl;
  limiters_kept = λ j. refl;
  states_kept = λ j. refl;
  own_limiters = record { given_out = λ j p e. cc; own = λ j k p e f. cc };
  own_states = record { given_out = λ j p e. cc; own = λ j k p e f. cc };
  state_keys = λ j p e. cc;
}

module _ {L : Type 0} (s : Store L) (v : IsValid s) (key : String) where
  -- Removing a rule, whether it is there or not, keeps the invariant.
  pub delete_rule-IsValid : IsValid (delete_rule key s)
  unfolding delete_rule
  delete_rule-IsValid = elim (Option-cases (lookup key s.rules)) [
    | inl e ↦ rw (e, delete_rule) v
    | inr (obj, e) ↦
        rw (e, delete_rule)
          (record {
            exact = λ m w j. ground (
              arith,
              e,
              lookup-erase key j s.rules,
              indexed-delete_from_indices obj key s.indices m w j,
              v.exact m w j,
              eq_iff key j,
            );
            limiters_kept = λ j. ground (
              arith,
              lookup-erase key j s.rules,
              lookup-erase key j s.limiters,
              v.limiters_kept j,
            );
            states_kept = λ j.
                ground
                  (arith, lookup-erase key j s.rules, lookup-erase key j s.states, v.states_kept j);
            own_limiters = IsOwned-erase s.next key s.limiters v.own_limiters;
            own_states = IsOwned-erase s.next key s.states v.own_states;
            state_keys = λ j p f. ground (arith, f, lookup-erase key j s.states, v.state_keys j p);
          })
  ]

module _ (lib : Platform) (s : Store lib.Limiter) (v : IsValid s) (now : ℕ) (key : String)
    (limiting : RateLimiting) (snapshot : LimitingSnapshot) where
  create_new :
      lookup key s.rules ≡ none → IsValid (create_or_update_rule lib now key limiting snapshot s)
  unfolding create_or_update_rule
  create_new e =
      rw (e, create_or_update_rule)
        (record {
          exact = λ m w j. ground (
            arith,
            e,
            lookup-insert key j limiting s.rules,
            indexed-update_indices_new limiting key s.indices m w j,
            v.exact m w j,
            eq_iff key j,
          );
          limiters_kept = λ j. ground (
            arith,
            lookup-insert key j limiting s.rules,
            lookup-insert key j s.next s.limiters,
            v.limiters_kept j,
          );
          states_kept = λ j. ground (
            arith,
            lookup-insert key j limiting s.rules,
            lookup-insert key j s.next s.states,
            v.states_kept j,
          );
          own_limiters = IsOwned-insert s.next key s.limiters v.own_limiters;
          own_states = IsOwned-insert s.next key s.states v.own_states;
          state_keys = λ j p f. ground (
            arith,
            f,
            lookup-insert key j s.next s.states,
            v.state_keys j p,
            v.own_states.given_out j p,
            eq_iff key j,
          );
        })

  -- The rule and its indices, replaced where a rule of the key was there.
  update_rules : RateLimiting → Store lib.Limiter
  update_rules old_one = record s {
    rules = insert key limiting s.rules;
    indices = update_indices (some old_one) limiting key s.indices;
  }

  update_rules-IsValid :
      (old_one : RateLimiting) → lookup key s.rules ≡ some old_one → IsValid (update_rules old_one)
  unfolding update_rules
  update_rules-IsValid old_one e = record {
    exact = λ m w j. ground (
      arith,
      e,
      lookup-insert key j limiting s.rules,
      indexed-update_indices_old old_one limiting key s.indices m w j,
      v.exact m w j,
      eq_iff key j,
    );
    limiters_kept = λ j.
        ground (arith, e, lookup-insert key j limiting s.rules, v.limiters_kept j, eq_iff key j);
    states_kept =
        λ j. ground (arith, e, lookup-insert key j limiting s.rules, v.states_kept j, eq_iff key j);
    own_limiters = v.own_limiters;
    own_states = v.own_states;
    state_keys = v.state_keys;
  }

  -- A new limiter for a key that has one.
  renew-IsValid :
      (t : Store lib.Limiter) (heap : ℕ → lib.Limiter)
      → IsValid t
      → is_some (lookup key t.limiters) ≡ true
      → IsValid (record t {
        limiters = insert key t.next t.limiters;
        limiter_heap = heap;
        next = suc t.next;
      })
  renew-IsValid t heap w there = record {
    exact = w.exact;
    limiters_kept = λ j.
        ground
          (arith, there, lookup-insert key j t.next t.limiters, w.limiters_kept j, eq_iff key j);
    states_kept = w.states_kept;
    own_limiters = IsOwned-insert t.next key t.limiters w.own_limiters;
    own_states = IsOwned-suc t.next t.states w.own_states;
    state_keys = w.state_keys;
  }

  update_old :
      (old_one : RateLimiting)
      → lookup key s.rules ≡ some old_one
      → IsValid (create_or_update_rule lib now key limiting snapshot s)
  unfolding create_or_update_rule update_rules
  update_old old_one e = elim (Bool-cases (bucket_equals old_one.bucket limiting.bucket)) [
    | inl same ↦ rw (e, same, create_or_update_rule) (update_rules-IsValid old_one e)
    | inr other ↦
        rw (e, other, create_or_update_rule)
          (renew-IsValid (update_rules old_one) _ (update_rules-IsValid old_one e)
            (v.limiters_kept key ∙ ap is_some e))
  ]

  -- Storing a rule keeps the invariant, whether the key is new, has a rule with the same bucket or
  -- has a rule with another bucket.
  pub create_or_update_rule-IsValid :
      IsValid (create_or_update_rule lib now key limiting snapshot s)
  create_or_update_rule-IsValid = elim (Option-cases (lookup key s.rules)) [
    | inl e ↦ create_new e
    | inr (old_one, e) ↦ update_old old_one e
  ]
