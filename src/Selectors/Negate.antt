-- ===== src/Selectors/Negate.antt =====
-- What a negated selector matches (pkg/utils/selector.go).
use controller_mesh.Prelude.{
  String, ◌≡◌, refl, ◌∙◌, ap, List, [], ◌∷◌, ◌++◌, map, Bool, not, ◌&&◌, some, any, all, arith, Map,
}
use controller_mesh.Selectors.{
  op_in, op_not_in, op_exists, op_does_not_exist, op_other, SelectorOperator, Requirement,
  LabelSelector, differs_from, insert_by_key, sort_by_key, negate_operator, negate_requirement,
  negate_label_selector,
}
use controller_mesh.Selectors.Merge.{equals_to, matches_option}

-- The operator is one of the four.
abbrev pub IsKnown : SelectorOperator → Type 0
IsKnown (op_other name) = ⊥
IsKnown _ = Unit

abbrev pub AreKnown : List Requirement → Type 0
AreKnown [] = Unit
AreKnown (r ∷ rs) = IsKnown r.operator × AreKnown rs

-- What Kubernetes documents of the operators: they come in two pairs of opposites.
pub record AreOpposites (meets : Requirement → Bool) : Type 0 where
  pub not_in_opposes :
      (key : String) (values : List String)
      → meets (record { key = key; operator = op_not_in; values = values })
        ≡ not (meets (record { key = key; operator = op_in; values = values }))
  pub absence_opposes :
      (key : String) (values : List String)
      → meets (record { key = key; operator = op_does_not_exist; values = values })
        ≡ not (meets (record { key = key; operator = op_exists; values = values }))

module _ (meets : Requirement → Bool) (opposites : AreOpposites meets) where
  meets-negate_operator :
      (key : String) (operator : SelectorOperator) (values : List String)
      → IsKnown operator
      → meets (record { key = key; operator = negate_operator operator; values = values })
        ≡ not (meets (record { key = key; operator = operator; values = values }))
  unfolding negate_operator
  meets-negate_operator key op_in values known = opposites.not_in_opposes key values
  meets-negate_operator key op_not_in values known =
      ground (arith, opposites.not_in_opposes key values)
  meets-negate_operator key op_exists values known = opposites.absence_opposes key values
  meets-negate_operator key op_does_not_exist values known =
      ground (arith, opposites.absence_opposes key values)
  meets-negate_operator key (op_other name) values known = ground (arith, known)

  meets-negate_requirement :
      (r : Requirement) → IsKnown r.operator → meets (negate_requirement r) ≡ not (meets r)
  meets-negate_requirement r known = meets-negate_operator r.key r.operator r.values known

  all-insert_by_key :
      (r : Requirement) (rs : List Requirement)
      → all meets (insert_by_key r rs) ≡ (meets r && all meets rs)
  unfolding insert_by_key
  all-insert_by_key r [] = refl
  all-insert_by_key r (q ∷ qs) = ground (arith, all-insert_by_key r qs)

  all-sort_by_key : (rs : List Requirement) → all meets (sort_by_key rs) ≡ all meets rs
  unfolding sort_by_key
  all-sort_by_key [] = refl
  all-sort_by_key (r ∷ rs) =
      all-insert_by_key r (sort_by_key rs) ∙ ap (λ b. meets r && b) (all-sort_by_key rs)

  all-differs_from :
      (m : Map String) → all meets (map differs_from m) ≡ not (any (λ e. meets (equals_to e)) m)
  all-differs_from [] = refl
  all-differs_from ((key, value) ∷ m) =
      ground (arith, all-differs_from m, opposites.not_in_opposes key (value ∷ []))

  all-negate_requirement :
      (rs : List Requirement)
      → AreKnown rs
      → all meets (map negate_requirement rs) ≡ not (any meets rs)
  all-negate_requirement [] known = refl
  all-negate_requirement (r ∷ rs) (k, known) =
      ground (arith, meets-negate_requirement r k, all-negate_requirement rs known)

  all-append : (xs ys : List Requirement) → all meets (xs ++ ys) ≡ (all meets xs && all meets ys)
  all-append [] ys = refl
  all-append (x ∷ xs) ys = ground (arith, all-append xs ys)

  -- Where all operators are known, the negation of a selector matches exactly if none of the labels
  -- and none of the requirements of the selector is met.
  pub matches-negate_label_selector :
      (s : LabelSelector)
      → AreKnown s.match_expressions
      → matches_option meets (negate_label_selector (some s)) ≡ (
          not (any (λ e. meets (equals_to e)) s.match_labels)
          && not (any meets s.match_expressions))
  unfolding negate_label_selector
  matches-negate_label_selector s known =
      let labels = map differs_from s.match_labels in
      all-append (sort_by_key labels) (map negate_requirement s.match_expressions)
      ∙ (ap (λ b. b && all meets (map negate_requirement s.match_expressions))
            (all-sort_by_key labels ∙ all-differs_from s.match_labels)
          ∙ ap (λ b. not (any (λ e. meets (equals_to e)) s.match_labels) && b)
              (all-negate_requirement s.match_expressions known))
