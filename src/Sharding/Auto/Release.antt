-- ===== src/Sharding/Auto/Release.antt =====
-- When clearFinalizers reads past the end of the list it shortens
-- (pkg/manager/controllers/shardingconfigserver/auto_sharding.go).
use controller_mesh.Prelude.{
  ℕ, zero, suc, ◌+◌, ◌≤◌, ◌<◌, String, List, [], ◌∷◌, ◌++◌, Bool, true, false, not, Option, none,
  some, length, get_elem?, contains, filter, ◌≡◌, refl, ap, ◌∙◌, if◌then◌else◌, ◌==◌, arith,
  Bool-cases, Option-cases, inl, inr, length-append,
}
use controller_mesh.Sharding.Auto.Sync.{remove_at, clear_from, clear_finalizers}

-- The list without its last entry.
abbrev pub init {ℓ} : {A : Type ℓ} → List A → List A
init [] = []
init (x ∷ []) = []
init (x ∷ y ∷ ys) = x ∷ init (y ∷ ys)

abbrev pub without : String → List String → List String
without key xs = filter (λ x. not (x == key)) xs

get_elem?-none {ℓ} : {A : Type ℓ} (xs : List A) (i : ℕ) → length xs ≤ i → get_elem? xs i ≡ none
get_elem?-none [] i le = refl
get_elem?-none (x ∷ xs) zero le = ground (arith, le)
get_elem?-none (x ∷ xs) (suc i) le = get_elem?-none xs i (omega (arith, le))

get_elem?-some_lt {ℓ} :
    {A : Type ℓ} (xs : List A) (i : ℕ) {x : A} → get_elem? xs i ≡ some x → i < length xs
get_elem?-some_lt [] i h = cc
get_elem?-some_lt (y ∷ xs) zero h = omega arith
get_elem?-some_lt (y ∷ xs) (suc i) h = omega (arith, get_elem?-some_lt xs i h)

length-remove_at {ℓ} :
    {A : Type ℓ} (xs : List A) (i : ℕ) → i < length xs → suc (length (remove_at i xs)) ≡ length xs
length-remove_at [] i lt = ground (arith, lt)
length-remove_at (x ∷ xs) zero lt = refl
length-remove_at (x ∷ xs) (suc i) lt = ap suc (length-remove_at xs i (omega (arith, lt)))

-- Where more rounds are left than entries, one of them reads past the end.
clear_from-overrun :
    (key : String) (rounds i : ℕ) (xs : List String) (res : Bool)
    → 1 ≤ rounds
    → length xs < i + rounds
    → clear_from key rounds i xs res ≡ none
unfolding clear_from
clear_from-overrun key zero i xs res pos lt = ground (arith, pos)
clear_from-overrun key (suc rounds) i xs res pos lt = elim (Option-cases (get_elem? xs i)) [
  | inl e ↦ rw e refl
  | inr (x, e) ↦
      let inside = get_elem?-some_lt xs i e in
      let shorter = length-remove_at xs i inside in
      let more : 1 ≤ rounds = omega (arith, inside, lt) in
      let removed =
        clear_from-overrun key rounds (suc i) (remove_at i xs) true more
          (omega (arith, lt, shorter)) in
      let kept = clear_from-overrun key rounds (suc i) xs res more (omega (arith, lt)) in
      rw (e, removed, kept) (elim (Bool-cases (x == key)) [ inl t ↦ rw t refl | inr f ↦ rw f refl ])
]

get_elem?-append {ℓ} :
    {A : Type ℓ} (done : List A) (x : A) (todo : List A)
    → get_elem? (done ++ x ∷ todo) (length done) ≡ some x
get_elem?-append [] x todo = refl
get_elem?-append (y ∷ done) x todo = get_elem?-append done x todo

remove_at-append {ℓ} :
    {A : Type ℓ} (done : List A) (x : A) (todo : List A)
    → remove_at (length done) (done ++ x ∷ todo) ≡ done ++ todo
remove_at-append [] x todo = refl
remove_at-append (y ∷ done) x todo = ap (λ xs. y ∷ xs) (remove_at-append done x todo)

abbrev shifted {ℓ} : {A : Type ℓ} → List A → A → List A
shifted done x = done ++ x ∷ []

length-shifted {ℓ} :
    {A : Type ℓ} (done : List A) (x : A) → length (shifted done x) ≡ suc (length done)
length-shifted done x = omega (arith, length-append done (x ∷ []))

shifted-append {ℓ} :
    {A : Type ℓ} (done : List A) (x : A) (todo : List A) → shifted done x ++ todo ≡ done ++ x ∷ todo
shifted-append [] x todo = refl
shifted-append (y ∷ done) x todo = ap (λ xs. y ∷ xs) (shifted-append done x todo)

-- What the rest of the list decides, behind entries that stay.
abbrev expected : String → List String → List String → Option (List String × Bool)
expected key done todo =
    if contains key (init todo) then none else some (done ++ without key todo, contains key todo)

clear_from-here :
    (key : String) (rounds : ℕ) (done : List String) (x : String) (todo : List String)
    → x == key ≡ true
    → clear_from key (suc rounds) (length done) (done ++ x ∷ todo) false
      ≡ clear_from key rounds (suc (length done)) (done ++ todo) true
unfolding clear_from
clear_from-here key rounds done x todo e =
    rw (get_elem?-append done x todo, remove_at-append done x todo, e) refl

clear_from-there :
    (key : String) (rounds : ℕ) (done : List String) (x : String) (todo : List String)
    → x == key ≡ false
    → clear_from key (suc rounds) (length done) (done ++ x ∷ todo) false
      ≡ clear_from key rounds (length (shifted done x)) (shifted done x ++ todo) false
unfolding clear_from
clear_from-there key rounds done x todo e =
    rw
      (
        get_elem?-append done x todo,
        remove_at-append done x todo,
        e,
        length-shifted done x,
        shifted-append done x todo,
      )
      refl

expected-there :
    (key : String) (done : List String) (x : String) (todo : List String)
    → x == key ≡ false
    → expected key (shifted done x) todo ≡ expected key done (x ∷ todo)
expected-there key done x [] e = rw (e, shifted-append done x []) refl
expected-there key done x (y ∷ ys) e = rw (e, shifted-append done x (without key (y ∷ ys))) refl

expected-here :
    (key : String) (done : List String) (x : String) (todo : List String)
    → x == key ≡ true
    → clear_from key (length todo) (suc (length done)) (done ++ todo) true
      ≡ expected key done (x ∷ todo)
unfolding clear_from
expected-here key done x [] e = rw e refl
expected-here key done x (y ∷ ys) e =
    rw
      (
        e,
        clear_from-overrun key (length (y ∷ ys)) (suc (length done)) (done ++ y ∷ ys) true
            (omega arith) (omega (arith, length-append done (y ∷ ys))),
      )
      refl

clear_from-expected :
    (key : String) (todo done : List String)
    → clear_from key (length todo) (length done) (done ++ todo) false ≡ expected key done todo
unfolding clear_from
clear_from-expected key [] done = refl
clear_from-expected key (x ∷ todo) done = elim (Bool-cases (x == key)) [
  | inl e ↦ clear_from-here key (length todo) done x todo e ∙ expected-here key done x todo e
  | inr e ↦
      clear_from-there key (length todo) done x todo e
      ∙ (clear_from-expected key todo (shifted done x) ∙ expected-there key done x todo e)
]

-- clearFinalizers panics where the key stands in the list before the last place, wherever that is and
-- however often; otherwise it takes the key off the list, and it returns whether the list had it.
pub clear_finalizers-expected :
    (xs : List String) (key : String)
    → clear_finalizers xs key
      ≡ (if contains key (init xs) then none else some (without key xs, contains key xs))
unfolding clear_finalizers
clear_finalizers-expected xs key = clear_from-expected key xs []
