-- ===== src/Sharding/Auto/Laws.antt =====
-- How the shards divide the hashes, and what their children are
-- (pkg/manager/controllers/shardingconfigserver/auto_sharding.go).
use mathlib.Core.Path.{subst}
use native.Mathlib.Nat.{mod-lt, div-add-mod, mul-le-mul_left, mul_comm, mul-zero, zero-add}
use controller_mesh.Prelude.{
  ℕ, zero, suc, List, [], map, ◌+◌, ◌*◌, ◌/◌, ◌-◌, ◌%◌, ◌≤◌, ◌<◌, ◌≡◌, refl, sym, ◌∙◌, ap, ◌∷◌,
  ◌++◌, flat_map, ltb, if◌then◌else◌, arith, Bool-cases, inl, inr,
}
use controller_mesh.Sharding.Auto.{get_range, itoa, digits, numbers_from, batch_size, batch_numbers}

-- The smaller of two numbers, as `getRange` takes it.
abbrev cut : ℕ → ℕ → ℕ
cut all until = if ltb all until then all else until

pub numbers_from-append :
    (s a t b c : ℕ)
    → s + a ≡ t
    → a + b ≡ c
    → numbers_from s a ++ numbers_from t b ≡ numbers_from s c
unfolding numbers_from
numbers_from-append s zero t b c e f =
    let same : t ≡ s = omega (arith, e) in
    let size : b ≡ c = omega (arith, f) in
    ap (λ x. numbers_from x b) same ∙ ap (numbers_from s) size
numbers_from-append s (suc a) t b c e f =
    let size : suc (a + b) ≡ c = omega (arith, f) in
    let start : suc s + a ≡ t = omega (arith, e) in
    ap (λ xs. s ∷ xs) (numbers_from-append (suc s) a t b (a + b) start refl)
    ∙ ap (numbers_from s) size

numbers_from-none : (s t c d : ℕ) → c ≡ 0 → d ≡ 0 → numbers_from s c ≡ numbers_from t d
unfolding numbers_from
numbers_from-none s t c d e f = ap (numbers_from s) e ∙ ap (numbers_from t) (sym f)

-- A range whose end is cut may as well have its start cut.
cut_start :
    (all x y : ℕ)
    → x ≤ y
    → numbers_from x (cut all y - x) ≡ numbers_from (cut all x) (cut all y - cut all x)
cut_start all x y xy = elim (Bool-cases (ltb all x)) [
  | inl e ↦
      numbers_from-none x (cut all x) (cut all y - x) (cut all y - cut all x) (ground (arith, e))
        (ground (arith, e))
  | inr e ↦ rw e refl
]

cut_ranges :
    (all x y z : ℕ)
    → x ≤ y
    → y ≤ z
    → numbers_from x (cut all y - x) ++ numbers_from (cut all y) (cut all z - cut all y)
      ≡ numbers_from (cut all x) (cut all z - cut all x)
cut_ranges all x y z xy yz =
    ap (λ xs. xs ++ numbers_from (cut all y) (cut all z - cut all y)) (cut_start all x y xy)
    ∙ numbers_from-append (cut all x) (cut all y - cut all x) (cut all y) (cut all z - cut all y)
        (cut all z - cut all x) (ground arith) (ground arith)

self_sub : (n : ℕ) → n - n ≡ 0
self_sub n = omega arith

batch_numbers-suc :
    (i size all : ℕ)
    → let b = batch_size size all in
      batch_numbers (suc i) size all ≡ numbers_from (b * i) (cut all (b * suc i) - b * i)
unfolding batch_numbers
batch_numbers-suc i size all =
    let b = batch_size size all in
    let same : suc i - 1 ≡ i = omega arith in
    ap (λ k. numbers_from (b * k) (cut all (b * suc i) - b * k)) same

mul_grows : (b i j : ℕ) → i ≤ j → b * i ≤ b * j
mul_grows b i j le = mul-le-mul_left b le

-- The batches of `n` shards from the one after `i` on.
batches_from :
    (size all i n : ℕ)
    → let b = batch_size size all in
      flat_map (λ id. batch_numbers id size all) (numbers_from (suc i) n)
      ≡ numbers_from (cut all (b * i)) (cut all (b * (i + n)) - cut all (b * i))
unfolding numbers_from
batches_from size all i zero =
    let b = batch_size size all in
    let same : i + 0 ≡ i = omega arith in
    let none_left : cut all (b * (i + 0)) - cut all (b * i) ≡ 0 =
      ap (λ k. cut all (b * k) - cut all (b * i)) same ∙ self_sub (cut all (b * i)) in
    sym (ap (numbers_from (cut all (b * i))) none_left)
batches_from size all i (suc n) =
    let b = batch_size size all in
    let same : suc i + n ≡ i + suc n = omega arith in
    ap (λ xs. xs ++ flat_map (λ id. batch_numbers id size all) (numbers_from (suc (suc i)) n))
      (batch_numbers-suc i size all)
    ∙ (ap (λ ys. numbers_from (b * i) (cut all (b * suc i) - b * i) ++ ys)
          (batches_from size all (suc i) n)
        ∙ (cut_ranges all (b * i) (b * suc i) (b * (suc i + n))
              (mul_grows b i (suc i) (omega arith)) (mul_grows b (suc i) (suc i + n) (omega arith))
            ∙ ap (λ k. numbers_from (cut all (b * i)) (cut all (b * k) - cut all (b * i))) same))

rounded_up : (p r k all : ℕ) → p + r ≡ all + (k - 1) → r < k → all ≤ p
rounded_up p r k all e lt = omega (arith, e, lt)

whole_range :
    (all x y : ℕ)
    → x ≡ 0
    → all ≤ y
    → numbers_from (cut all x) (cut all y - cut all x) ≡ numbers_from 0 all
whole_range all x y e le =
    let count : cut all y - cut all x ≡ all = ground (arith, e, le) in
    let start : cut all x ≡ 0 = ground (arith, e) in
    ap (numbers_from (cut all x)) count ∙ ap (λ s. numbers_from s all) start

batch_size-covers : (size all : ℕ) → 1 ≤ size → all ≤ batch_size size all * size
batch_size-covers size all pos =
    let whole = div-add-mod (all + (size - 1)) size in
    let part = mod-lt (all + (size - 1)) {m = size} (omega (arith, pos)) in
    rounded_up (batch_size size all * size) ((all + (size - 1)) % size) size all
      (ap (λ p. p + (all + (size - 1)) % size) (mul_comm (batch_size size all) size) ∙ whole) part

-- Where there is at least one shard, the batches of the shards, from the first to the last, are
-- together the numbers below `all`, each once and in order: every hash has exactly one shard.
pub batches-partition :
    (size all : ℕ)
    → 1 ≤ size
    → flat_map (λ id. batch_numbers id size all) (numbers_from 1 size) ≡ numbers_from 0 all
batches-partition size all pos =
    let b = batch_size size all in
    let enough : all ≤ b * (0 + size) =
      subst (λ k. all ≤ b * k) (sym (zero-add size)) (batch_size-covers size all pos) in
    batches_from size all 0 size ∙ whole_range all (b * 0) (b * (0 + size)) (mul-zero b) enough

pub map-append {ℓ κ} :
    {A : Type ℓ} {B : Type κ} (f : A → B) (xs ys : List A) → map f (xs ++ ys) ≡ map f xs ++ map f ys
map-append f [] ys = refl
map-append f (x ∷ xs) ys = ap (λ zs. f x ∷ zs) (map-append f xs ys)

pub ranges-batches :
    (size all : ℕ) (ids : List ℕ)
    → flat_map (λ id. get_range id size all) ids
      ≡ map itoa (flat_map (λ id. batch_numbers id size all) ids)
unfolding get_range
ranges-batches size all [] = refl
ranges-batches size all (id ∷ ids) =
    ap (λ zs. get_range id size all ++ zs) (ranges-batches size all ids)
    ∙ sym
        (map-append itoa (batch_numbers id size all) (flat_map (λ k. batch_numbers k size all) ids))

-- Every fuel above the number prints it alike, so the fuel of `itoa` is enough.
digits_fuel : (f g n : ℕ) → n < f → n < g → digits f n ≡ digits g n
unfolding digits
digits_fuel zero g n nf ng = ground (arith, nf)
digits_fuel (suc f) zero n nf ng = ground (arith, ng)
digits_fuel (suc f) (suc g) n nf ng = elim (Bool-cases (ltb n 10)) [
  | inl e ↦ rw e refl
  | inr e ↦
      let tenth_f : n / 10 < f = ground (arith, e, nf) in
      let tenth_g : n / 10 < g = ground (arith, e, ng) in
      rw (e, digits_fuel f g (n / 10) tenth_f tenth_g) refl
]
