-- ===== src/Proxy/Limits.antt =====
-- What the object selector of a resource matches (pkg/apis/ctrlmesh/conv/convert.go).
use controller_mesh.Prelude.{
  String, ◌≡◌, sym, ◌∙◌, List, [], ◌∷◌, Bool, false, not, ◌&&◌, ◌||◌, Option, none, some, Map,
  lookup, insert, all, ◌==◌, eq_iff, arith, is_some, is_empty, Bool-cases, inl, inr,
}
use controller_mesh.Selectors.{Requirement, LabelSelector, merge_labels, merge_label_selector}
use controller_mesh.Selectors.Merge.{
  matches_option, AreCompatible, labels_of, matches-merge_label_selector,
}
use controller_mesh.Proxy.{
  ApiGroupResource, InternalMatchLimitRule, InternalSpec, GroupResource,
  is_gr_matched_api_resources, merge_limit, merge_limits, get_object_selector,
}

-- The labels have the values that `value_of` gives their keys.
abbrev pub Agrees : (String → String) → Map String → Type 0
Agrees value_of [] = Unit
Agrees value_of ((key, value) ∷ labels) = (value ≡ value_of key) × Agrees value_of labels

-- The labels of a selector, which are a map: no key stands twice.
abbrev pub IsMap : Map String → Type 0
IsMap [] = Unit
IsMap ((key, value) ∷ labels) = (is_some (lookup key labels) ≡ false) × IsMap labels

abbrev pub AllAgree : (String → String) → List InternalMatchLimitRule → Type 0
AllAgree value_of [] = Unit
AllAgree value_of (l ∷ ls) =
    (IsMap (labels_of l.object_selector) × Agrees value_of (labels_of l.object_selector))
    × AllAgree value_of ls

-- A limit that has resources is for a resource that is among them, one that has none for every one.
abbrev pub is_for : GroupResource → InternalMatchLimitRule → Bool
is_for gr l = is_empty l.resources || is_gr_matched_api_resources gr l.resources

module _ (value_of : String → String) where
  value-Agrees :
      (key other : String) (m : Map String)
      → Agrees value_of m
      → lookup key m ≡ some other
      → other ≡ value_of key
  unfolding lookup
  value-Agrees key other [] a h = ground (arith, h)
  value-Agrees key other ((k, v) ∷ m) (agrees, rest) h =
      ground (arith, agrees, h, eq_iff k key, value-Agrees key other m rest)

  Agrees-insert :
      (key value : String) (m : Map String)
      → value ≡ value_of key
      → Agrees value_of m
      → Agrees value_of (insert key value m)
  unfolding insert
  Agrees-insert key value [] e a = (e, a)
  Agrees-insert key value ((k, v) ∷ m) e (agrees, rest) = elim (Bool-cases (k == key)) [
    | inl same ↦ rw (same, insert) (e, rest)
    | inr differ ↦ rw (differ, insert) (agrees, Agrees-insert key value m e rest)
  ]

  Agrees-merge_labels :
      (a b : Map String)
      → Agrees value_of a
      → Agrees value_of b
      → Agrees value_of (merge_labels a b)
  unfolding merge_labels
  Agrees-merge_labels a [] x y = x
  Agrees-merge_labels a ((k, v) ∷ b) x (e, y) =
      Agrees-merge_labels (insert k v a) b (Agrees-insert k v a e x) y

  AreCompatible-Agrees :
      (a b : Map String) → Agrees value_of a → IsMap b → Agrees value_of b → AreCompatible a b
  AreCompatible-Agrees a [] x m y = y
  AreCompatible-Agrees a ((k, v) ∷ b) x (absent, m) (e, y) =
      (absent, ((λ other h. value-Agrees k other a x h ∙ sym e), AreCompatible-Agrees a b x m y))

  Agrees-merge_label_selector :
      (s : LabelSelector) (sel : Option LabelSelector)
      → Agrees value_of (labels_of sel)
      → Agrees value_of s.match_labels
      → Agrees value_of (labels_of (merge_label_selector sel (some s)))
  unfolding merge_label_selector
  Agrees-merge_label_selector s none x y = y
  Agrees-merge_label_selector s (some t) x y = Agrees-merge_labels t.match_labels s.match_labels x y

  Agrees-merge_option :
      (gr : GroupResource) (os : Option LabelSelector) (rs : List ApiGroupResource)
      (sel : Option LabelSelector)
      → Agrees value_of (labels_of sel)
      → Agrees value_of (labels_of os)
      → Agrees value_of
          (labels_of (merge_limit gr (record { object_selector = os; resources = rs }) sel))
  unfolding merge_limit
  Agrees-merge_option gr none rs sel x y = x
  Agrees-merge_option gr (some s) rs sel x y =
      elim (Bool-cases (not (is_empty rs) && not (is_gr_matched_api_resources gr rs))) [
        | inl skipped ↦ rw skipped x
        | inr taken ↦ rw taken (Agrees-merge_label_selector s sel x y)
      ]

  Agrees-merge_limit :
      (gr : GroupResource) (l : InternalMatchLimitRule) (sel : Option LabelSelector)
      → Agrees value_of (labels_of sel)
      → Agrees value_of (labels_of l.object_selector)
      → Agrees value_of (labels_of (merge_limit gr l sel))
  Agrees-merge_limit gr l sel x y = Agrees-merge_option gr l.object_selector l.resources sel x y

module _ (value_of : String → String) (meets : Requirement → Bool) (gr : GroupResource) where
  matches-merge_option :
      (os : Option LabelSelector) (rs : List ApiGroupResource) (sel : Option LabelSelector)
      → AreCompatible (labels_of sel) (labels_of os)
      → matches_option meets (merge_limit gr (record { object_selector = os; resources = rs }) sel)
        ≡ (matches_option meets sel
            && (not (is_empty rs || is_gr_matched_api_resources gr rs) || matches_option meets os))
  unfolding merge_limit
  matches-merge_option none rs sel c = ground arith
  matches-merge_option (some s) rs sel c =
      ground (arith, matches-merge_label_selector meets sel (some s) c)

  -- One round adds what the selector of the limit matches, if the limit is for the resource.
  matches-merge_limit :
      (l : InternalMatchLimitRule) (sel : Option LabelSelector)
      → Agrees value_of (labels_of sel)
      → IsMap (labels_of l.object_selector)
      → Agrees value_of (labels_of l.object_selector)
      → matches_option meets (merge_limit gr l sel) ≡ (
          matches_option meets sel && (not (is_for gr l) || matches_option meets l.object_selector))
  matches-merge_limit l sel x m y =
      matches-merge_option l.object_selector l.resources sel
        (AreCompatible-Agrees value_of (labels_of sel) (labels_of l.object_selector) x m y)

  matches-merge_limits :
      (ls : List InternalMatchLimitRule) (sel : Option LabelSelector)
      → Agrees value_of (labels_of sel)
      → AllAgree value_of ls
      → matches_option meets (merge_limits gr ls sel) ≡ (
          matches_option meets sel
          && all (λ l. not (is_for gr l) || matches_option meets l.object_selector) ls)
  unfolding merge_limits
  matches-merge_limits [] sel x ys = ground arith
  matches-merge_limits (l ∷ ls) sel x ((m, y), ys) = ground (
    arith,
    matches-merge_limit l sel x m y,
    matches-merge_limits ls (merge_limit gr l sel) (Agrees-merge_limit value_of gr l sel x y) ys,
  )

  -- Where no two of the labels in the selectors of the limits give a key different values, the object
  -- selector of a resource matches exactly what the selectors of all limits that are for the resource
  -- match.
  pub matches-get_object_selector :
      (spec : InternalSpec)
      → AllAgree value_of spec.current_limits
      → matches_option meets (get_object_selector gr spec)
        ≡ all (λ l. not (is_for gr l) || matches_option meets l.object_selector) spec.current_limits
  unfolding get_object_selector
  matches-get_object_selector spec agree = matches-merge_limits spec.current_limits none tt agree
