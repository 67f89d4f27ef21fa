-- ===== src/CircuitBreaker/Store/Indices.antt =====
-- What the loops over the index functions leave in the indices: updateIndices and
-- deleteFromIndices (pkg/proxy/circuitbreaker/store.go).
use controller_mesh.Prelude.{
  String, ◌≡◌, refl, ◌&&◌, ◌||◌, ◌==◌, not, eq_iff, Bool, true, false, List, [], ◌∷◌, arith,
  contains, Map, lookup, insert, lookup-nil, lookup-insert, lookup-erase, none, some, is_empty,
  Option-cases, inl, inr,
}
use controller_mesh.Prelude.Sets
use controller_mesh.Prelude.Sets.{contains-insert, contains-delete}
use controller_mesh.CircuitBreaker.Config.{RateLimiting}
use controller_mesh.CircuitBreaker.Keys.{index_functions}
use controller_mesh.CircuitBreaker.Store.{
  Index, Functions, or_nil, insert_values, delete_value, delete_values, insert_indices,
  delete_indices, delete_from_indices, update_indices,
}

-- The key stands in the set of the value.
abbrev pub in_index : Index → String → String → Bool
in_index idx v j = contains j (or_nil (lookup v idx))

-- The key stands under the value in the index of the name.
abbrev pub indexed : Map Index → String → String → String → Bool
indexed indices m v j = in_index (or_nil (lookup m indices)) v j

-- A function of the name gives the value for the rule.
abbrev pub covers : Functions → RateLimiting → String → String → Bool
covers [] r m v = false
covers ((name, index_func) ∷ fs) r m v = (name == m && contains v (index_func r)) || covers fs r m v

insert_one :
    (k x v j : String) (idx : Index)
    → in_index (insert x (Sets.insert k (or_nil (lookup x idx))) idx) v j
      ≡ ((k == j && x == v) || in_index idx v j)
insert_one k x v j idx = ground (
  arith,
  lookup-insert x v (Sets.insert k (or_nil (lookup x idx))) idx,
  eq_iff x v,
  eq_iff k j,
  contains-insert k j (or_nil (lookup x idx)),
)

in_index-insert_values :
    (k : String) (vs : List String) (v j : String) (idx : Index)
    → in_index (insert_values k vs idx) v j ≡ ((k == j && contains v vs) || in_index idx v j)
unfolding insert_values
in_index-insert_values k [] v j idx = ground arith
in_index-insert_values k (x ∷ vs) v j idx =
    let idx' = insert x (Sets.insert k (or_nil (lookup x idx))) idx in
    ground (arith, in_index-insert_values k vs v j idx', insert_one k x v j idx)

is_empty-contains : (s : List String) (j : String) → is_empty s ≡ true → contains j s ≡ false
is_empty-contains [] j h = refl
is_empty-contains (x ∷ s) j h = cc

delete_one :
    (k x v j : String) (idx : Index)
    → in_index (delete_value k x idx) v j ≡ (not (k == j && x == v) && in_index idx v j)
unfolding delete_value
delete_one k x v j idx = elim (Option-cases (lookup x idx)) [
  | inl e ↦ ground (arith, e, eq_iff x v)
  | inr (set, e) ↦
      let set' : List String = Sets.delete k set in
      ground (
        arith,
        e,
        eq_iff x v,
        lookup-insert x v set' idx,
        lookup-erase x v (insert x set' idx),
        contains-delete k j set,
        is_empty-contains set' j,
      )
]

in_index-delete_values :
    (k : String) (vs : List String) (v j : String) (idx : Index)
    → in_index (delete_values k vs idx) v j ≡ (not (k == j && contains v vs) && in_index idx v j)
unfolding delete_values
in_index-delete_values k [] v j idx = ground arith
in_index-delete_values k (x ∷ vs) v j idx =
    ground (arith, in_index-delete_values k vs v j (delete_value k x idx), delete_one k x v j idx)

indexed-insert_indices :
    (fs : Functions) (r : RateLimiting) (k : String) (ind : Map Index) (m v j : String)
    → indexed (insert_indices fs r k ind) m v j ≡ ((k == j && covers fs r m v) || indexed ind m v j)
unfolding insert_indices
indexed-insert_indices [] r k ind m v j = ground arith
indexed-insert_indices ((name, f) ∷ fs) r k ind m v j =
    let idx = insert_values k (f r) (or_nil (lookup name ind)) in
    ground (
      arith,
      indexed-insert_indices fs r k (insert name idx ind) m v j,
      lookup-insert name m idx ind,
      eq_iff name m,
      in_index-insert_values k (f r) v j (or_nil (lookup name ind)),
    )

-- One round of the loop of `deleteFromIndices` over the index functions.
abbrev delete_round :
    String → (RateLimiting → List String) → RateLimiting → String → Map Index → Map Index
delete_round name f r k ind = elim (lookup name ind) [
  | none ↦ ind
  | some idx ↦ insert name (delete_values k (f r) idx) ind
]

delete_round_lem :
    (name : String) (f : RateLimiting → List String) (r : RateLimiting) (k : String)
    (ind : Map Index) (m v j : String)
    → indexed (delete_round name f r k ind) m v j
      ≡ (not (k == j && (name == m && contains v (f r))) && indexed ind m v j)
delete_round_lem name f r k ind m v j = elim (Option-cases (lookup name ind)) [
  | inl e ↦ ground (arith, e, eq_iff name m, lookup-nil {V = List String} v)
  | inr (idx, e) ↦ ground (
    arith,
    e,
    eq_iff name m,
    lookup-insert name m (delete_values k (f r) idx) ind,
    in_index-delete_values k (f r) v j idx,
  )
]

indexed-delete_indices :
    (fs : Functions) (r : RateLimiting) (k : String) (ind : Map Index) (m v j : String)
    → indexed (delete_indices fs r k ind) m v j
      ≡ (not (k == j && covers fs r m v) && indexed ind m v j)
unfolding delete_indices
indexed-delete_indices [] r k ind m v j = ground arith
indexed-delete_indices ((name, f) ∷ fs) r k ind m v j = ground (
  arith,
  indexed-delete_indices fs r k (delete_round name f r k ind) m v j,
  delete_round_lem name f r k ind m v j,
)

-- An index function of the store gives the value for the rule.
unfoldable pub gives : RateLimiting → String → String → Bool
gives r m v = covers index_functions r m v

pub indexed-delete_from_indices :
    (r : RateLimiting) (k : String) (ind : Map Index) (m v j : String)
    → indexed (delete_from_indices r k ind) m v j
      ≡ (not (k == j && gives r m v) && indexed ind m v j)
unfolding delete_from_indices gives
indexed-delete_from_indices r k ind m v j = indexed-delete_indices index_functions r k ind m v j

pub indexed-update_indices_new :
    (r : RateLimiting) (k : String) (ind : Map Index) (m v j : String)
    → indexed (update_indices none r k ind) m v j ≡ ((k == j && gives r m v) || indexed ind m v j)
unfolding update_indices gives
indexed-update_indices_new r k ind m v j = indexed-insert_indices index_functions r k ind m v j

pub indexed-update_indices_old :
    (old_one r : RateLimiting) (k : String) (ind : Map Index) (m v j : String)
    → indexed (update_indices (some old_one) r k ind) m v j
      ≡ ((k == j && gives r m v) || (not (k == j && gives old_one m v) && indexed ind m v j))
unfolding update_indices gives
indexed-update_indices_old old_one r k ind m v j = ground (
  arith,
  indexed-insert_indices index_functions r k (delete_from_indices old_one k ind) m v j,
  indexed-delete_from_indices old_one k ind m v j,
)
