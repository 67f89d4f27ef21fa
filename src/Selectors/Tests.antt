-- ===== src/Selectors/Tests.antt =====
-- Concrete selectors (pkg/utils/selector.go).
use controller_mesh.Prelude.{
  String, ◌≡◌, refl, [], ◌∷◌, Bool, true, false, not, ◌&&◌, ◌||◌, some, any, contains, ◌==◌,
}
use controller_mesh.Selectors.{
  op_in, op_not_in, op_exists, op_does_not_exist, op_other, Requirement, LabelSelector,
  negate_label_selector,
}
use controller_mesh.Selectors.Merge.{equals_to, matches_option}
use controller_mesh.Selectors.Negate.{AreOpposites, matches-negate_label_selector}

-- The requirements that the labels app=web and tier=back meet.
abbrev value_of : String → String
value_of key = elim (key == "app") [ true ↦ "web" | false ↦ "back" ]

abbrev meets_web : Requirement → Bool
meets_web r = elim (r.operator) [
  | op_in ↦ contains (value_of r.key) r.values
  | op_not_in ↦ not (contains (value_of r.key) r.values)
  | op_exists ↦ r.key == "app" || r.key == "tier"
  | op_does_not_exist ↦ not (r.key == "app" || r.key == "tier")
  | op_other name ↦ false
]

abbrev back : LabelSelector
back = record {
  match_labels = ("tier", "front") ∷ [];
  match_expressions = record { key = "app"; operator = op_in; values = "web" ∷ "db" ∷ [] } ∷ [];
}

web-AreOpposites : AreOpposites meets_web
web-AreOpposites = record {
  not_in_opposes = λ key values. refl;
  absence_opposes = λ key values. refl;
}

matches-negate_label_selector_example :
    matches_option meets_web (negate_label_selector (some back)) ≡ (
      not (any (λ e. meets_web (equals_to e)) (("tier", "front") ∷ []))
      && not (any meets_web (back.match_expressions)))
matches-negate_label_selector_example =
    matches-negate_label_selector meets_web web-AreOpposites back (tt, tt)

-- The labels do not match the selector, and they do not match its negation.
neither :
    (matches_option meets_web (some back)
      || matches_option meets_web (negate_label_selector (some back)))
    ≡ false
unfolding negate_label_selector
neither = refl
