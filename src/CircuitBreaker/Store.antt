-- ===== src/CircuitBreaker/Store.antt =====
-- The store of the limiting rules (pkg/proxy/circuitbreaker/store.go and lease.go). Limiters and
-- states are shared by pointers: a pointer is a number, and the two heaps hold what it points to.
-- The rules are copied when they are stored, and stand in the map by value.
-- The mutex is left out: each method holds it from its first line to its last.
pub mod Indices
pub mod Invariant
pub mod Found
use controller_mesh.Prelude.{
  ℕ, ◌+◌, ◌*◌, String, List, [], ◌∷◌, Bool, true, false, not, ◌&&◌, Option, none, some, Map, lookup,
  insert, erase, eqb, ◌==◌, if◌then◌else◌, is_empty, map, suc,
}
use controller_mesh.Prelude.Sets
use controller_mesh.CircuitBreaker.Config.{
  ℤ, BreakerState, opened, RateLimiting, Bucket, LimitingSnapshot, Platform, div_duration,
}
use controller_mesh.CircuitBreaker.Breaker.{State, state_eq}
use controller_mesh.CircuitBreaker.Keys.{index_functions}

-- The values of one index, each with the set of the keys of its rules.
abbrev pub Index : Type 0
Index = Map (List String)

-- A nil set has no element, and a nil map no entry.
abbrev pub or_nil {ℓ} : {A : Type ℓ} → Option (List A) → List A
or_nil none = []
or_nil (some s) = s

-- The loop of `updateIndices` over the values of one index.
unfoldable pub insert_values : String → List String → Index → Index
insert_values key [] idx = idx
insert_values key (v ∷ vs) idx =
    insert_values key vs (insert v (Sets.insert key (or_nil (lookup v idx))) idx)

-- One round of the loop of `deleteFromIndices` over the values of one index.
unfoldable pub delete_value : String → String → Index → Index
delete_value key v idx = elim (lookup v idx) [
  | none ↦ idx
  | some set ↦
      let set' = Sets.delete key set in
      if is_empty set' then erase v (insert v set' idx) else insert v set' idx
]

unfoldable pub delete_values : String → List String → Index → Index
unfolding delete_value
delete_values key [] idx = idx
delete_values key (v ∷ vs) idx = delete_values key vs (delete_value key v idx)

abbrev pub Functions : Type 0
Functions = Map (RateLimiting → List String)

-- The loop of `updateIndices` over the index functions.
unfoldable pub insert_indices : Functions → RateLimiting → String → Map Index → Map Index
unfolding insert_values
insert_indices [] new_one key indices = indices
insert_indices ((name, index_func) ∷ fs) new_one key indices =
    let idx = insert_values key (index_func new_one) (or_nil (lookup name indices)) in
    insert_indices fs new_one key (insert name idx indices)

unfoldable pub delete_indices : Functions → RateLimiting → String → Map Index → Map Index
unfolding delete_values
delete_indices [] old_one key indices = indices
delete_indices ((name, index_func) ∷ fs) old_one key indices =
    delete_indices fs old_one key (elim (lookup name indices) [
      | none ↦ indices
      | some idx ↦ insert name (delete_values key (index_func old_one) idx) indices
    ])

unfoldable pub delete_from_indices : RateLimiting → String → Map Index → Map Index
unfolding delete_indices index_functions
delete_from_indices old_one key indices = delete_indices index_functions old_one key indices

unfoldable pub update_indices : Option RateLimiting → RateLimiting → String → Map Index → Map Index
unfolding delete_from_indices insert_indices index_functions
update_indices none new_one key indices = insert_indices index_functions new_one key indices
update_indices (some old_one) new_one key indices =
    insert_indices index_functions new_one key (delete_from_indices old_one key indices)

unfoldable pub bucket_equals : Bucket → Bucket → Bool
bucket_equals old_one new_one =
    old_one.interval == new_one.interval
    && (eqb old_one.limit new_one.limit && eqb old_one.burst new_one.burst)

-- The delaying queue is another library's; `waiting` holds the pointers that it has been given by
-- `AddAfter` and has not delivered yet, with their delays. It holds a pointer at most once.
pub record Lease : Type 0 where
  pub waiting : List (ℕ × ℤ)
  pub state_set : Map ℕ

-- A write through a pointer.
abbrev pub update_at {ℓ} : {A : Type ℓ} → (ℕ → A) → ℕ → A → ℕ → A
update_at heap p a q = if eqb p q then a else heap q

pub record Store (L : Type 0) : Type 0 where
  pub limiters : Map ℕ
  pub rules : Map RateLimiting
  pub states : Map ℕ
  pub indices : Map Index
  pub breaker_lease : Lease
  pub limiter_heap : ℕ → L
  pub state_heap : ℕ → State
  -- The first pointer that has not been given out.
  pub next : ℕ

abbrev blank_state : State
blank_state = record { key = ""; state = opened; last_transition_time = none; recover_at = none }

-- `math.MaxInt64`.
abbrev max_int64 : ℕ
max_int64 = 9223372036854775807

module _ (lib : Platform) where
  open lib use {Limiter, every, new_limiter, allow_n, parse_duration}

  -- `now` is the time at which the limiter is made.
  unfoldable pub rate_limiter : ℕ → Bucket → Limiter
  rate_limiter now bucket =
      let interval = parse_duration bucket.interval in
      let r =
        if eqb bucket.limit 0
        then every (ℤ.pos max_int64)
        else every (div_duration interval bucket.limit) in
      (allow_n now 0 (new_limiter r bucket.burst)).1

  -- Nothing is read at a pointer that has not been given out, so the heaps start arbitrary.
  unfoldable pub new_limiter_store : Store Limiter
  new_limiter_store = record {
    limiters = [];
    rules = [];
    states = [];
    indices = [];
    breaker_lease = record { waiting = []; state_set = [] };
    limiter_heap = λ _. new_limiter (every (ℤ.pos 0)) 0;
    state_heap = λ _. blank_state;
    next = 0;
  }

  unfoldable pub create_or_update_rule :
      ℕ → String → RateLimiting → LimitingSnapshot → Store Limiter → Store Limiter
  unfolding update_indices bucket_equals rate_limiter
  create_or_update_rule now key limiting snapshot s = elim (lookup key s.rules) [
    | none ↦ record s {
      rules = insert key limiting s.rules;
      limiters = insert key s.next s.limiters;
      limiter_heap = update_at s.limiter_heap s.next (rate_limiter now limiting.bucket);
      states = insert key s.next s.states;
      state_heap = update_at s.state_heap s.next (record {
        key = key;
        state = snapshot.state;
        last_transition_time = snapshot.last_transition_time;
        recover_at = none;
      });
      indices = update_indices none limiting key s.indices;
      next = suc s.next;
    }
    | some old_one ↦
        let t = record s {
          rules = insert key limiting s.rules;
          indices = update_indices (some old_one) limiting key s.indices;
        } in
        if not (bucket_equals old_one.bucket limiting.bucket)
        then record t {
          limiters = insert key t.next t.limiters;
          limiter_heap = update_at t.limiter_heap t.next (rate_limiter now limiting.bucket);
          next = suc t.next;
        }
        else t
  ]

module _ {L : Type 0} where
  unfoldable pub delete_rule : String → Store L → Store L
  unfolding delete_from_indices
  delete_rule key s = elim (lookup key s.rules) [
    | none ↦ s
    | some obj ↦ record s {
      indices = delete_from_indices obj key s.indices;
      rules = erase key s.rules;
      limiters = erase key s.limiters;
      states = erase key s.states;
    }
  ]

-- One place of the three slices that `byIndex` and `byKey` return; `none` is a nil pointer.
pub record Row : Type 0 where
  pub limiting : Option RateLimiting
  pub limiter : Option ℕ
  pub state : Option ℕ

module _ {L : Type 0} where
  unfoldable pub by_key : String → Store L → Row
  by_key key s = record {
    limiting = lookup key s.rules;
    limiter = lookup key s.limiters;
    state = lookup key s.states;
  }

  unfoldable pub by_index : String → String → Store L → List Row
  unfolding by_key index_functions
  by_index index_name indexed_value s = elim (lookup index_name index_functions) [
    | none ↦ []
    | some _ ↦
        map (λ key. by_key key s)
          (or_nil (lookup indexed_value (or_nil (lookup index_name s.indices))))
  ]
