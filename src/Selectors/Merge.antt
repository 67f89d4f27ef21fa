-- ===== src/Selectors/Merge.antt =====
-- What a merged selector matches (pkg/utils/selector.go).
use controller_mesh.Prelude.{
  String, ◌≡◌, refl, sym, ◌∙◌, ap, List, [], ◌∷◌, ◌++◌, Bool, true, false, ◌&&◌, Option, none, some,
  Map, lookup, insert, lookup-insert, all, ◌==◌, eq_iff, arith, is_some, Bool-cases, inl, inr,
}
use controller_mesh.Selectors.{
  op_in, Requirement, LabelSelector, merge_labels, merge_label_selector,
}

-- Whether the labels of an object meet a requirement is a parameter. A label of the selector is met
-- as the requirement that the value be in the list of it alone, and a selector matches where all are.
abbrev pub equals_to : String × String → Requirement
equals_to (key, value) = record { key = key; operator = op_in; values = value ∷ [] }

abbrev pub matches : (Requirement → Bool) → LabelSelector → Bool
matches meets s = all (λ e. meets (equals_to e)) s.match_labels && all meets s.match_expressions

abbrev pub matches_option : (Requirement → Bool) → Option LabelSelector → Bool
matches_option meets none = true
matches_option meets (some s) = matches meets s

-- No key stands twice in the second map, and where a key stands in both it has one value.
abbrev pub AreCompatible : Map String → Map String → Type 0
AreCompatible a [] = Unit
AreCompatible a ((key, value) ∷ b) =
    (is_some (lookup key b) ≡ false)
    × (((other : String) → lookup key a ≡ some other → other ≡ value) × AreCompatible a b)

abbrev pub labels_of : Option LabelSelector → Map String
labels_of none = []
labels_of (some s) = s.match_labels

again : (x y m : Bool) → y ≡ x → (x && m) ≡ ((y && m) && x)
again x y m e = ground (arith, e)

regroup : (x y z : Bool) → (x && (y && z)) ≡ ((x && y) && z)
regroup x y z = ground arith

right_unit : (x : Bool) → x ≡ (x && true)
right_unit x = ground arith

module _ (meets : Requirement → Bool) where
  abbrev met : String × String → Bool
  met e = meets (equals_to e)

  all-insert :
      (key value : String) (m : Map String)
      → ((other : String) → lookup key m ≡ some other → other ≡ value)
      → all met (insert key value m) ≡ (all met m && met (key, value))
  unfolding lookup insert
  all-insert key value [] h = ground arith
  all-insert key value ((k, v) ∷ m) h = elim (Bool-cases (k == key)) [
    | inl e ↦
        let same_key = (eq_iff k key).0 e in
        let same_value = h v (rw (e, lookup) refl) in
        rw (e, insert)
          (again (met (key, value)) (met (k, v)) (all met m)
            (ap (λ x. met (x, v)) same_key ∙ ap (λ x. met (key, x)) same_value))
    | inr e ↦
        rw (e, insert)
          (ap (λ b. met (k, v) && b) (all-insert key value m (λ o q. h o (rw (e, lookup) q)))
            ∙ regroup (met (k, v)) (all met m) (met (key, value)))
  ]

  AreCompatible-insert :
      (key value : String) (a b : Map String)
      → is_some (lookup key b) ≡ false
      → AreCompatible a b
      → AreCompatible (insert key value a) b
  unfolding lookup
  AreCompatible-insert key value a [] n c = c
  AreCompatible-insert key value a ((k, v) ∷ b) n (absent, (agrees, c)) =
      let tail : is_some (lookup key b) ≡ false = ground (arith, n) in
      (
        absent,
        (
          (λ other q.
              agrees other
                (ground (arith, n, q, lookup-insert key k value a, eq_iff k key, eq_iff key k))),
          AreCompatible-insert key value a b tail c,
        ),
      )

  all-merge_labels :
      (a b : Map String) → AreCompatible a b → all met (merge_labels a b) ≡ (all met a && all met b)
  unfolding merge_labels
  all-merge_labels a [] c = right_unit (all met a)
  all-merge_labels a ((k, v) ∷ b) (absent, (agrees, c)) =
      all-merge_labels (insert k v a) b (AreCompatible-insert k v a b absent c)
      ∙ (ap (λ x. x && all met b) (all-insert k v a agrees)
          ∙ sym (regroup (all met a) (met (k, v)) (all met b)))

  all-append : (xs ys : List Requirement) → all meets (xs ++ ys) ≡ (all meets xs && all meets ys)
  all-append [] ys = refl
  all-append (x ∷ xs) ys = ground (arith, all-append xs ys)

  -- Where no key has different values in the labels of two selectors, the merged selector matches
  -- exactly what both match, nil selectors included, which match everything here.
  pub matches-merge_label_selector :
      (a b : Option LabelSelector)
      → AreCompatible (labels_of a) (labels_of b)
      → matches_option meets (merge_label_selector a b)
        ≡ (matches_option meets a && matches_option meets b)
  unfolding merge_label_selector
  matches-merge_label_selector none none c = refl
  matches-merge_label_selector (some a) none c = right_unit (matches meets a)
  matches-merge_label_selector none (some b) c = refl
  matches-merge_label_selector (some a) (some b) c = ground (
    arith,
    all-merge_labels a.match_labels b.match_labels c,
    all-append a.match_expressions b.match_expressions,
  )
