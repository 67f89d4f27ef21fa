-- ===== src/Sharding/Validation/Ranges.antt =====
-- What the check of the namespaces keeps apart
-- (pkg/webhook/shardingconfig/shardingconfig_validating_handler.go).
use controller_mesh.Prelude.{
  String, ◌≡◌, refl, sym, ap, ◌∙◌, List, [], ◌∷◌, ◌++◌, Bool, true, false, ◌&&◌, ◌||◌, Option, none,
  some, Map, lookup, insert, lookup-insert, contains, any, if◌then◌else◌, ◌==◌, eq_iff, arith,
  Option-cases, Bool-cases, inl, inr, ◌>>=◌,
}
use controller_mesh.Prelude.Sets.{contains-insert}
use controller_mesh.Prelude.Sets
use controller_mesh.Sharding.Config.{ObjectLimiter}
use controller_mesh.Sharding.Validation.{
  ShardingConfig, Environment, extend_range, set_of, claim_resource, claim, claims_of_limit,
  claim_limits, Claimed, free, conflict, list_error, all_limits, allowed, validate_config_resource,
  respond,
}

-- The name is in the range of the resource.
abbrev covered : String → String → Map (List String) → Bool
covered resource name ranges = elim (lookup resource ranges) [
  | none ↦ false
  | some range ↦ contains name range
]

-- One of the claims has the resource in the namespace.
abbrev pub claimed : String → String → List (String × List String) → Bool
claimed resource name claims = any (λ c. c.0 == resource && contains name c.1) claims

contains-set_of :
    (name : String) (names range : List String)
    → contains name (set_of names range) ≡ (contains name range || contains name names)
unfolding set_of
contains-set_of name [] range = ground arith
contains-set_of name (n ∷ names) range =
    ground (arith, contains-set_of name names (Sets.insert n range), contains-insert n name range)

contains-extend_range :
    (name : String) (names range range' : List String)
    → extend_range names range ≡ some range'
    → (contains name range' ≡ (contains name range || contains name names))
      × ((contains name range && contains name names) ≡ false)
unfolding extend_range
contains-extend_range name [] range range' e = ground (arith, e)
contains-extend_range name (n ∷ names) range range' e = elim (Bool-cases (contains n range)) [
  | inl h ↦ ground (arith, e, h)
  | inr h ↦
      let rest : extend_range names (Sets.insert n range) ≡ some range' = ground (arith, e, h) in
      ground (
        arith,
        contains-extend_range name names (Sets.insert n range) range' rest,
        contains-insert n name range,
        eq_iff n name,
        h,
      )
]

written_lookup :
    (resource r : String) (range : List String) (ranges ranges' : Map (List String))
    → some (insert resource range ranges) ≡ some ranges'
    → lookup r ranges' ≡ (if resource == r then some range else lookup r ranges)
written_lookup resource r range ranges ranges' e =
    let same : insert resource range ranges ≡ ranges' = ground (arith, e) in
    ap (lookup r) (sym same) ∙ lookup-insert resource r range ranges

-- After a round, the range of its resource has its names besides what was there, where none was.
claim_resource-covered :
    (resource : String) (names : List String) (ranges ranges' : Map (List String))
    → claim_resource resource names ranges ≡ some ranges'
    → (r name : String)
    → (covered r name ranges' ≡ (covered r name ranges || (resource == r && contains name names)))
      × ((covered resource name ranges && contains name names) ≡ false)
unfolding claim_resource
claim_resource-covered resource names ranges ranges' e r name =
    elim (Option-cases (lookup resource ranges)) [
      | inl absent ↦
          let opened : claim_resource resource names ranges
              ≡ some (insert resource (set_of names []) ranges) =
            rw (absent, claim_resource) refl in
          let written = sym opened ∙ e in
          ground (
            arith,
            absent,
            written_lookup resource r (set_of names []) ranges ranges' written,
            contains-set_of name names [],
            eq_iff resource r,
          )
      | inr (range, there) ↦ elim (Option-cases (extend_range names range)) [
        | inl none_left ↦
            let opened : claim_resource resource names ranges ≡ none =
              rw (there, none_left, claim_resource) refl in
            ground (arith, sym opened ∙ e)
        | inr (range', extended) ↦
            let opened : claim_resource resource names ranges
                ≡ some (insert resource range' ranges) =
              rw (there, extended, claim_resource) refl in
            let written = sym opened ∙ e in
            ground (
              arith,
              there,
              written_lookup resource r range' ranges ranges' written,
              contains-extend_range name names range range' extended,
              eq_iff resource r,
            )
      ]
    ]

-- A round that is not a conflict, and what is left to do after it.
claim-cons :
    (resource : String) (names : List String) (claims : List (String × List String))
    (ranges final : Map (List String))
    → claim ((resource, names) ∷ claims) ranges ≡ some final
    → (ranges' : Map (List String)) × (claim_resource resource names ranges ≡ some ranges')
      × (claim claims ranges' ≡ some final)
unfolding claim
claim-cons resource names claims ranges final e =
    elim (Option-cases (claim_resource resource names ranges)) [
      | inl n ↦
          let opened : claim ((resource, names) ∷ claims) ranges ≡ none = rw (n, claim) refl in
          ground (arith, sym opened ∙ e)
      | inr (ranges', s) ↦
          let opened : claim ((resource, names) ∷ claims) ranges ≡ claim claims ranges' =
            rw (s, claim) refl in
          (ranges', s, sym opened ∙ e)
    ]

claim-claimed :
    (before after : List (String × List String)) (resource : String) (names : List String)
    (ranges final : Map (List String))
    → claim (before ++ (resource, names) ∷ after) ranges ≡ some final
    → (name : String) → contains name names ≡ true
    → (covered resource name ranges ≡ false) × (claimed resource name before ≡ false)
claim-claimed [] after resource names ranges final e name held =
    let (ranges', now, later) = claim-cons resource names after ranges final e in
    let free_before = (claim_resource-covered resource names ranges ranges' now resource name).1 in
    (ground (arith, free_before, held), refl)
claim-claimed ((r, ns) ∷ before) after resource names ranges final e name held =
    let (ranges', now, later) =
      claim-cons r ns (before ++ (resource, names) ∷ after) ranges final e in
    let (uncovered, unclaimed) =
      claim-claimed before after resource names ranges' final later name held in
    let grown = (claim_resource-covered r ns ranges ranges' now resource name).0 in
    (ground (arith, uncovered, grown), ground (arith, unclaimed, uncovered, grown))

claim-append :
    (xs ys : List (String × List String)) (ranges middle final : Map (List String))
    → claim xs ranges ≡ some middle
    → claim ys middle ≡ some final
    → claim (xs ++ ys) ranges ≡ some final
unfolding claim
claim-append [] ys ranges middle final e f =
    let same : ranges ≡ middle = ground (arith, e) in ap (claim ys) same ∙ f
claim-append ((r, ns) ∷ xs) ys ranges middle final e f =
    let (ranges', now, later) = claim-cons r ns xs ranges middle e in
    rw (now, claim) (claim-append xs ys ranges' middle final later f)

respond-allowed :
    (r : Claimed) → respond r ≡ allowed → (final : Map (List String)) × (r ≡ free final)
respond-allowed (free final) e = (final, refl)
respond-allowed conflict e = ground (arith, e)
respond-allowed list_error e = ground (arith, e)

some_inj : {a b : List (String × List String)} → some a ≡ some b → a ≡ b
some_inj e = ground (arith, e)

module _ (env : Environment) where
  -- The claims of all limits in their order.
  abbrev pub claims_of : List ObjectLimiter → Option (List (String × List String))
  claims_of [] = some []
  claims_of (limit ∷ limits) = do
    own ← claims_of_limit env limit
    others ← claims_of limits
    some (own ++ others)

  claim_limits-free :
      (limits : List ObjectLimiter) (ranges final : Map (List String))
      → claim_limits env limits ranges ≡ free final
      → (claims : List (String × List String)) × (claims_of limits ≡ some claims)
        × (claim claims ranges ≡ some final)
  unfolding claim_limits claim
  claim_limits-free [] ranges final e = ([], refl, ground (arith, e))
  claim_limits-free (limit ∷ limits) ranges final e =
      elim (Option-cases (claims_of_limit env limit)) [
        | inl n ↦
            let opened : claim_limits env (limit ∷ limits) ranges ≡ list_error =
              rw (n, claim_limits) refl in
            ground (arith, sym opened ∙ e)
        | inr (own, s) ↦ elim (Option-cases (claim own ranges)) [
          | inl n ↦
              let opened : claim_limits env (limit ∷ limits) ranges ≡ conflict =
                rw (s, n, claim_limits) refl in
              ground (arith, sym opened ∙ e)
          | inr (ranges', c) ↦
              let opened : claim_limits env (limit ∷ limits) ranges
                  ≡ claim_limits env limits ranges' =
                rw (s, c, claim_limits) refl in
              let (others, o, done) = claim_limits-free limits ranges' final (sym opened ∙ e) in
              (own ++ others, rw (s, o) refl, claim-append own others ranges ranges' final c done)
        ]
      ]

  -- Where the check of the namespaces is on and accepts an object, no resource is limited twice in
  -- one namespace, among all limits of the configurations of other names and of the object: a claim
  -- of a resource in some namespaces has none of them in common with the claims of that resource
  -- before it.
  pub validate_config_resource_disjoint :
      (cfgs : List ShardingConfig) (obj : ShardingConfig)
      (before after : List (String × List String)) (resource : String) (names : List String)
      → validate_config_resource env true cfgs obj ≡ allowed
      → claims_of (all_limits env cfgs obj) ≡ some (before ++ (resource, names) ∷ after)
      → (name : String) → contains name names ≡ true
      → claimed resource name before ≡ false
  unfolding validate_config_resource
  validate_config_resource_disjoint cfgs obj before after resource names accepted claims name held =
      let limits = all_limits env cfgs obj in
      let (final, ok) = respond-allowed (claim_limits env limits []) accepted in
      let (cs, found, done) = claim_limits-free limits [] final ok in
      let same : cs ≡ before ++ (resource, names) ∷ after = some_inj (sym found ∙ claims) in
      (claim-claimed before after resource names [] final (ap (λ c. claim c []) (sym same) ∙ done)
        name held).1
