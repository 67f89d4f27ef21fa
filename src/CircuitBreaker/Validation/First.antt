-- ===== src/CircuitBreaker/Validation/First.antt =====
-- Which rules decide on a request: ValidateResource (pkg/proxy/circuitbreaker/manager.go).
use mathlib.Core.List.{Memᴰ, append-nil}
use controller_mesh.Prelude.{
  ℕ, String, ◌≡◌, refl, sym, ◌∙◌, ap, List, [], ◌∷◌, ◌++◌, true, false, some, is_some, is_empty,
  arith, All, lookup, Bool-cases, inl, inr,
}
use controller_mesh.CircuitBreaker.Config.{RateLimiting, Platform}
use controller_mesh.CircuitBreaker.Keys.{index_resource}
use controller_mesh.CircuitBreaker.Seeds.{generate_wildcard_seeds}
use controller_mesh.CircuitBreaker.Store.{Store, Row, by_key, by_index}
use controller_mesh.CircuitBreaker.Store.Indices.{gives}
use controller_mesh.CircuitBreaker.Store.Invariant.{IsValid}
use controller_mesh.CircuitBreaker.Store.Found.{IsHit, by_index-IsHit, by_index-complete}
use controller_mesh.CircuitBreaker.Validation.{
  default_allow, no_rule_match, do_validation, validate_first, validate_resource,
}
use controller_mesh.CircuitBreaker.Validation.Laws.{HasPolicy, IsWhole, validate_rows_total}

module _ (lib : Platform) (s : Store lib.Limiter) (v : IsValid s) where
  -- No rule of the store has the value.
  abbrev pub IsMissed : String → String → Type 0
  IsMissed name value =
      (j : String) (r : RateLimiting) → lookup j s.rules ≡ some r → gives r name value ≡ false

  no_rows :
      (name value : String) (rows : List Row)
      → IsMissed name value
      → All (IsHit s name value) rows
      → rows ≡ []
  no_rows name value [] m h = refl
  no_rows name value (row ∷ rows) m (h, hs) =
      absurd (ground (arith, h.given, m h.key h.rule h.stored))

  -- The values that no rule has are passed over, and the search goes on with the rest.
  pub validate_first_misses :
      (now : ℕ) (name : String) (missed rest : List String)
      → All (IsMissed name) missed
      → validate_first lib now name (missed ++ rest) s ≡ validate_first lib now name rest s
  unfolding validate_first
  validate_first_misses now name [] rest h = refl
  validate_first_misses now name (value ∷ missed) rest (m, h) =
      rw (no_rows name value (by_index name value s) m (by_index-IsHit s v name value))
        (validate_first_misses now name missed rest h)

  validate_first_nil :
      (now : ℕ) → validate_first lib now index_resource [] s ≡ some (no_rule_match, s)
  unfolding validate_first
  validate_first_nil now = refl

  not_empty : {A : Type 0} (x : A) (xs : List A) → Memᴰ x xs → is_empty xs ≡ false
  not_empty x [] m = elim m [ ]
  not_empty x (y ∷ xs) m = refl

  -- The rules of the first value that a rule has decide alone: all earlier values being missed, the
  -- validation of the rules of that value is the result, and the rule is among them.
  pub validate_first_decides :
      (now : ℕ) (name : String) (missed rest : List String) (value j : String) (r : RateLimiting)
      → All (IsMissed name) missed
      → lookup j s.rules ≡ some r
      → gives r name value ≡ true
      → (validate_first lib now name (missed ++ value ∷ rest) s
          ≡ do_validation lib now (by_index name value s) s)
        × Memᴰ (by_key j s) (by_index name value s)
  unfolding validate_first
  validate_first_decides now name missed rest value j r m e g =
      let found = by_index-complete s v name value j r e g in
      (validate_first_misses now name missed (value ∷ rest) m ∙ rw (not_empty _ _ found), found)

  -- A request that no rule of the store covers, under any choice of wildcards, is allowed with the
  -- reason "No rule match", and the store stays as it is.
  pub validate_resource_no_rule :
      (now : ℕ) (ns group res verb : String)
      → All (IsMissed index_resource) (generate_wildcard_seeds ns group res verb)
      → validate_resource lib now ns group res verb s ≡ some (no_rule_match, s)
  unfolding validate_resource
  validate_resource_no_rule now ns group res verb h =
      let seeds = generate_wildcard_seeds ns group res verb in
      ap (λ values. validate_first lib now index_resource values s) (sym (append-nil seeds))
      ∙ validate_first_misses now index_resource seeds [] h
      ∙ validate_first_nil now

  rows-IsWhole :
      (name value : String) (rows : List Row)
      → ((j : String) (r : RateLimiting) → lookup j s.rules ≡ some r → HasPolicy r)
      → All (IsHit s name value) rows
      → All IsWhole rows
  rows-IsWhole name value [] p h = tt
  rows-IsWhole name value (row ∷ rows) p (h, hs) = (
    record {
      limiting = h.rule;
      has_limiting = h.has_rule;
      has_limiter = h.has_limiter;
      has_state = h.has_state;
      has_policy = p h.key h.rule h.stored;
    },
    rows-IsWhole name value rows p hs,
  )

  validate_first_total :
      (now : ℕ) (name : String) (values : List String)
      → ((j : String) (r : RateLimiting) → lookup j s.rules ≡ some r → HasPolicy r)
      → is_some (validate_first lib now name values s) ≡ true
  unfolding validate_first
  validate_first_total now name [] p = refl
  validate_first_total now name (value ∷ values) p =
      elim (Bool-cases (is_empty (by_index name value s))) [
        | inl e ↦ rw e (validate_first_total now name values p)
        | inr e ↦ rw e (
            validate_rows_total lib now (by_index name value s) default_allow s
              (rows-IsWhole name value (by_index name value s) p (by_index-IsHit s v name value)))
      ]

  -- Where every normal rule of the store has a recover policy, the validation of a request returns
  -- a result: it meets no nil pointer.
  pub validate_resource_total :
      (now : ℕ) (ns group res verb : String)
      → ((j : String) (r : RateLimiting) → lookup j s.rules ≡ some r → HasPolicy r)
      → is_some (validate_resource lib now ns group res verb s) ≡ true
  unfolding validate_resource
  validate_resource_total now ns group res verb p =
      validate_first_total now index_resource (generate_wildcard_seeds ns group res verb) p
