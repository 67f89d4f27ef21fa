-- ===== src/Selectors.antt =====
-- Label selectors and what pkg/utils/selector.go does with them.
pub mod Merge
pub mod Negate
mod Tests
use text.Mathlib.Text.{is_lt}
use Prim.Native.String.{compare}
use controller_mesh.Prelude.{
  String, List, [], ◌∷◌, ◌++◌, map, Bool, true, false, Option, none, some, Map, insert, is_empty,
  ◌&&◌, if◌then◌else◌,
}

-- The operators of `metav1.LabelSelectorOperator`, a text; `op_other` is any other text.
pub data SelectorOperator : Type 0 where
  op_in op_not_in op_exists op_does_not_exist : SelectorOperator
  op_other : String → SelectorOperator

pub record Requirement : Type 0 where
  pub key : String
  pub operator : SelectorOperator
  pub values : List String

pub record LabelSelector : Type 0 where
  pub match_labels : Map String
  pub match_expressions : List Requirement

unfoldable pub merge_labels : Map String → Map String → Map String
merge_labels labels [] = labels
merge_labels labels ((key, value) ∷ entries) = merge_labels (insert key value labels) entries

unfoldable pub merge_label_selector :
    Option LabelSelector → Option LabelSelector → Option LabelSelector
unfolding merge_labels
merge_label_selector a none = a
merge_label_selector none (some b) = some b
merge_label_selector (some a) (some b) = some (record {
  match_labels = merge_labels a.match_labels b.match_labels;
  match_expressions = a.match_expressions ++ b.match_expressions;
})

-- A label as a requirement, with the operator for its negation.
abbrev pub differs_from : String × String → Requirement
differs_from (key, value) = record { key = key; operator = op_not_in; values = value ∷ [] }

-- `sort.SliceStable` by the keys.
unfoldable pub insert_by_key : Requirement → List Requirement → List Requirement
insert_by_key r [] = r ∷ []
insert_by_key r (q ∷ qs) =
    let rest = insert_by_key r qs in if is_lt (compare q.key r.key) then q ∷ rest else r ∷ q ∷ qs

unfoldable pub sort_by_key : List Requirement → List Requirement
unfolding insert_by_key
sort_by_key [] = []
sort_by_key (r ∷ rs) = insert_by_key r (sort_by_key rs)

-- An operator that is none of the four leaves the empty text.
unfoldable pub negate_operator : SelectorOperator → SelectorOperator
negate_operator op_in = op_not_in
negate_operator op_not_in = op_in
negate_operator op_exists = op_does_not_exist
negate_operator op_does_not_exist = op_exists
negate_operator (op_other name) = op_other ""

abbrev pub negate_requirement : Requirement → Requirement
negate_requirement r = record r { operator = negate_operator r.operator }

unfoldable pub negate_label_selector : Option LabelSelector → Option LabelSelector
unfolding sort_by_key negate_operator
negate_label_selector none = none
negate_label_selector (some s) = some (record {
  match_labels = [];
  match_expressions =
      sort_by_key (map differs_from s.match_labels) ++ map negate_requirement s.match_expressions;
})

-- The operators of `selection.Operator` that the code uses.
pub data SelectionOperator : Type 0 where
  equals is_in not_in exists does_not_exist : SelectionOperator

-- What the labels library provides: selectors, to which requirements are added. `newRequirement`
-- writes its three fields without a check.
pub record Labels : Type 1 where
  pub Selector : Type 0
  pub LabelRequirement : Type 0
  pub nothing : Selector
  pub everything : Selector
  pub new_selector : Selector
  pub requirement : String → SelectionOperator → List String → LabelRequirement
  pub requirements : Selector → List LabelRequirement
  pub add : Selector → List LabelRequirement → Selector

pub data Selected (S : Type 0) : Type 0 where
  selected : S → Selected S
  invalid_operator : String → Selected S

module _ (lib : Labels) where
  open lib use {Selector, requirement, requirements, add, new_selector}

  -- A selector that is `none` is a nil interface.
  unfoldable pub combine_from : Option Selector → List (Option Selector) → Option Selector
  combine_from combined [] = combined
  combine_from combined (none ∷ ls) = combine_from combined ls
  combine_from none (some l ∷ ls) = combine_from (some (add new_selector (requirements l))) ls
  combine_from (some c) (some l ∷ ls) = combine_from (some (add c (requirements l))) ls

  unfoldable pub combine_label_selectors : List (Option Selector) → Option Selector
  unfolding combine_from
  combine_label_selectors ls = combine_from none ls

  unfoldable pub add_labels : Map String → Selector → Selector
  add_labels [] s = s
  add_labels ((key, value) ∷ entries) s =
      add_labels entries (add s (requirement key equals (value ∷ []) ∷ []))

  unfoldable pub add_expressions : List Requirement → Selector → Selected Selector
  add_expressions [] s = selected s
  add_expressions (r ∷ rs) s = elim (r.operator) [
    | op_in ↦ add_expressions rs (add s (requirement r.key is_in r.values ∷ []))
    | op_not_in ↦ add_expressions rs (add s (requirement r.key not_in r.values ∷ []))
    | op_exists ↦ add_expressions rs (add s (requirement r.key exists r.values ∷ []))
    | op_does_not_exist ↦
        add_expressions rs (add s (requirement r.key does_not_exist r.values ∷ []))
    | op_other name ↦ invalid_operator name
  ]

  unfoldable pub validated_label_selector_as_selector : Option LabelSelector → Selected Selector
  unfolding add_labels add_expressions
  validated_label_selector_as_selector none = selected lib.nothing
  validated_label_selector_as_selector (some s) =
      if is_empty s.match_labels && is_empty s.match_expressions
      then selected lib.everything
      else add_expressions s.match_expressions (add_labels s.match_labels new_selector)
