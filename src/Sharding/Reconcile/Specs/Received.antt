-- ===== src/Sharding/Reconcile/Specs/Received.antt =====
-- What the proxies read of the specification that they are sent
-- (pkg/manager/controllers/shardingconfigserver/util.go and pkg/apis/ctrlmesh/conv/convert.go).
use mathlib.Core.Path.{subst}
use controller_mesh.Prelude.{
  All, String, List, [], ◌∷◌, map, length, Bool, false, not, ◌&&◌, ◌||◌, any, all, contains,
  is_empty, Option, some, ◌≡◌, refl, sym, ap, ◌∙◌, ◌==◌, eqb, arith,
}
use controller_mesh.Selectors.{Requirement, LabelSelector}
use controller_mesh.Selectors.Merge.{matches, matches_option}
use controller_mesh.Proxy.{
  Limit, InternalMatchLimitRule, GroupResource, contains_string, is_gr_matched_api_resources,
  convert_limit, convert_limits, convert_proto_spec_to_internal, get_object_selector,
}
use controller_mesh.Proxy.Limits.{Agrees, IsMap, AllAgree, is_for, matches-get_object_selector}
use controller_mesh.Sharding.Config.{ResourceGroup, ObjectLimiter}
use controller_mesh.Sharding.Auto.{selector_or_empty}
use controller_mesh.Sharding.Reconcile.Specs.{
  generate_api_resources, generate_limits, generate_proto_config,
}

-- The list names the text, or it is the wildcard alone.
abbrev pub names : List String → String → Bool
names xs x = contains x xs || (eqb (length xs) 1 && contains "*" xs)

-- The limit is for the resource: it names its group and its resource in one of its groups of
-- resources, or it has none of these.
abbrev pub covers : GroupResource → ObjectLimiter → Bool
covers gr l =
    is_empty l.related_resources
    || any (λ g. names g.api_groups gr.group && names g.resources gr.resource) l.related_resources

contains_string-names : (x : String) (xs : List String) → contains_string x xs "*" ≡ names xs x
unfolding contains_string
contains_string-names x [] = refl
contains_string-names x (y ∷ []) = ground arith
contains_string-names x (y ∷ z ∷ zs) = ground arith

matched-groups :
    (gr : GroupResource) (gs : List ResourceGroup)
    → is_gr_matched_api_resources gr (generate_api_resources gs)
      ≡ any (λ g. names g.api_groups gr.group && names g.resources gr.resource) gs
unfolding is_gr_matched_api_resources generate_api_resources
matched-groups gr [] = refl
matched-groups gr (g ∷ gs) = ground (
  arith,
  contains_string-names gr.group g.api_groups,
  contains_string-names gr.resource g.resources,
  matched-groups gr gs,
)

as_rule : ObjectLimiter → InternalMatchLimitRule
as_rule l = record {
  object_selector = some (selector_or_empty l.selector);
  resources = generate_api_resources l.related_resources;
}

is_empty-generate_api_resources :
    (gs : List ResourceGroup) → is_empty (generate_api_resources gs) ≡ is_empty gs
unfolding generate_api_resources
is_empty-generate_api_resources [] = refl
is_empty-generate_api_resources (g ∷ gs) = refl

is_for-as_rule : (gr : GroupResource) (l : ObjectLimiter) → is_for gr (as_rule l) ≡ covers gr l
unfolding as_rule
is_for-as_rule gr l = ground (
  arith,
  is_empty-generate_api_resources l.related_resources,
  matched-groups gr l.related_resources,
)

module _ (dump : Option LabelSelector → String) (limits_hash : List Limit → String)
    (decode : String → LabelSelector) where
  -- The dump of a selector decodes to the selector, the empty one for nil, and is not empty itself.
  abbrev pub IsDecoded : ObjectLimiter → Type 0
  IsDecoded l =
      (decode (dump l.selector) ≡ selector_or_empty l.selector) × (dump l.selector == "" ≡ false)

  convert_limits-generate_limits :
      (ls : List ObjectLimiter)
      → All IsDecoded ls
      → convert_limits decode (generate_limits dump limits_hash ls) ≡ map as_rule ls
  unfolding convert_limits generate_limits convert_limit as_rule
  convert_limits-generate_limits [] hs = refl
  convert_limits-generate_limits (l ∷ ls) ((h, k), hs) =
      rw (k, h, convert_limits-generate_limits ls hs) refl

  convert-generate_proto_config :
      (name : String) (ls : List ObjectLimiter)
      → All IsDecoded ls
      → (convert_proto_spec_to_internal decode
          (generate_proto_config dump limits_hash name ls)).current_limits
        ≡ map as_rule ls
  unfolding convert_proto_spec_to_internal generate_proto_config
  convert-generate_proto_config name ls hs = convert_limits-generate_limits ls hs

-- The labels of the selector are a map, and have the values that `value_of` gives their keys.
abbrev pub IsPlain : (String → String) → ObjectLimiter → Type 0
IsPlain value_of l =
    let labels = (selector_or_empty l.selector).match_labels in
    IsMap labels × Agrees value_of labels

AllAgree-as_rule :
    (value_of : String → String) (ls : List ObjectLimiter)
    → All (IsPlain value_of) ls
    → AllAgree value_of (map as_rule ls)
unfolding as_rule
AllAgree-as_rule value_of [] hs = tt
AllAgree-as_rule value_of (l ∷ ls) (h, hs) = (h, AllAgree-as_rule value_of ls hs)

module _ (meets : Requirement → Bool) (gr : GroupResource) where
  -- What the limits ask of an object of the resource.
  abbrev pub asked : List ObjectLimiter → Bool
  asked ls = all (λ l. not (covers gr l) || matches meets (selector_or_empty l.selector)) ls

  all-as_rule :
      (ls : List ObjectLimiter)
      → all (λ r. not (is_for gr r) || matches_option meets r.object_selector) (map as_rule ls)
        ≡ asked ls
  unfolding as_rule
  all-as_rule [] = refl
  all-as_rule (l ∷ ls) = ground (arith, is_for-as_rule gr l, all-as_rule ls)

-- Where the dump of the selector of each limit decodes to the selector, the empty one for nil, and is
-- not the empty text, and no two of the selectors give the key of a label different values: the object
-- selector that a proxy makes for a resource of the specification that it is sent matches what the
-- selectors of exactly those limits of the configuration match that name the group and the resource,
-- by a name or by a wildcard that stands alone, or that name no resources.
pub matches-generate_proto_config :
    (dump : Option LabelSelector → String) (limits_hash : List Limit → String)
    (decode : String → LabelSelector) (value_of : String → String) (meets : Requirement → Bool)
    (gr : GroupResource) (name : String) (ls : List ObjectLimiter)
    → All (IsDecoded dump limits_hash decode) ls
    → All (IsPlain value_of) ls
    → matches_option meets (
        get_object_selector gr
          (convert_proto_spec_to_internal decode (generate_proto_config dump limits_hash name ls)))
      ≡ all (λ l. not (covers gr l) || matches meets (selector_or_empty l.selector)) ls
matches-generate_proto_config dump limits_hash decode value_of meets gr name ls hs plain =
    let spec =
      convert_proto_spec_to_internal decode (generate_proto_config dump limits_hash name ls) in
    let limits = convert-generate_proto_config dump limits_hash decode name ls hs in
    let agree : AllAgree value_of spec.current_limits =
      subst (AllAgree value_of) (sym limits) (AllAgree-as_rule value_of ls plain) in
    matches-get_object_selector value_of meets gr spec agree
    ∙ ap (all (λ r. not (is_for gr r) || matches_option meets r.object_selector)) limits
    ∙ all-as_rule meets gr ls
