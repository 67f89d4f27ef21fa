-- ===== src/Namespaces/Hash.antt =====
-- The range of the hash, and that its computation does not overflow (pkg/utils/rand/hash.go).
use Prim.Native.Char.{Char, char, code}
use native.Mathlib.Nat.{mod-lt, mod-eq_of_lt, mod-add-mod, mod-mod}
use controller_mesh.Prelude.{
  ℕ, zero, suc, ◌+◌, ◌*◌, ◌%◌, ◌≤◌, ◌<◌, lt→ltb, All, List, [], ◌∷◌, String, refl, ◌≡◌, sym, ap,
  ◌∙◌, arith,
}
use controller_mesh.Namespaces.{signed_mod, hash_step, hash_from, hash}

code-lt : (c : Char) → code c < 1114112
code-lt (char n scalar) = ground (arith, scalar)

-- The number that the text is to the base 33, after a number that is given.
abbrev pub value_from : ℕ → String → ℕ
value_from n String.[] = n
value_from n (String.◌∷◌ c s) = value_from (n * 33 + code c) s

abbrev largest_modulus : ℕ
largest_modulus = 144115188075855872

no_overflow :
    (h c m : ℕ) → h < m → m ≤ largest_modulus → c < 1114112 → h * 33 + c < 9223372036854775808
no_overflow h c m hm ml cl = omega arith

signed_mod-small : (n m : ℕ) → n < 9223372036854775808 → signed_mod n m ≡ n % m
unfolding signed_mod
signed_mod-small n m lt = rw (lt→ltb n 9223372036854775808 lt, signed_mod) refl

hash_step-exact :
    (m h c : ℕ) → h < m → m ≤ largest_modulus → c < 1114112 → hash_step m h c ≡ (h * 33 + c) % m
unfolding hash_step
hash_step-exact m h c hm ml cl =
    let small : h * 33 + c < 9223372036854775808 = no_overflow h c m hm ml cl in
    ap (λ n. signed_mod n m) (mod-eq_of_lt {m = 18446744073709551616} (omega (arith, small)))
    ∙ signed_mod-small (h * 33 + c) m small

scaled-mod : (k a c m : ℕ) → (a % m * k + c) % m ≡ (a * k + c) % m
scaled-mod zero a c m = ap (λ n. n % m) (omega arith)
scaled-mod (suc k) a c m =
    let split : a % m * suc k + c ≡ a % m + (a % m * k + c) = grind arith in
    let moved : a + (a % m * k + c) ≡ a % m * k + (a + c) = omega arith in
    let joined : a * k + (a + c) ≡ a * suc k + c = grind arith in
    ap (λ n. n % m) split
    ∙ mod-add-mod a m (a % m * k + c)
    ∙ ap (λ n. n % m) moved
    ∙ scaled-mod k a (a + c) m
    ∙ ap (λ n. n % m) joined

value_from-mod : (s : String) (a m : ℕ) → value_from (a % m) s % m ≡ value_from a s % m
value_from-mod String.[] a m = mod-mod a m
value_from-mod (String.◌∷◌ c s) a m =
    sym (value_from-mod s (a % m * 33 + code c) m)
    ∙ ap (λ n. value_from n s % m) (scaled-mod 33 a (code c) m)
    ∙ value_from-mod s (a * 33 + code c) m

-- The sums of the rounds, before they are cut to 64 bits.
abbrev pub sums : ℕ → ℕ → String → List ℕ
sums m h String.[] = []
sums m h (String.◌∷◌ c s) = (h * 33 + code c) ∷ sums m (hash_step m h (code c)) s

-- A number that an int of 64 bits holds.
abbrev pub IsInt : ℕ → Type 0
IsInt n = n < 9223372036854775808

hash_from-exact :
    (s : String) (h m : ℕ)
    → h < m
    → m ≤ largest_modulus
    → All IsInt (sums m h s) × ((hash_from m h s < m) × (hash_from m h s ≡ value_from h s % m))
unfolding hash_from
hash_from-exact String.[] h m hm ml = (tt, (hm, sym (mod-eq_of_lt hm)))
hash_from-exact (String.◌∷◌ c s) h m hm ml =
    let exact = hash_step-exact m h (code c) hm ml (code-lt c) in
    let below : (h * 33 + code c) % m < m = mod-lt (h * 33 + code c) (omega (arith, hm)) in
    let (ints, (small, same)) = hash_from-exact s ((h * 33 + code c) % m) m below ml in
    (
      (no_overflow h (code c) m hm ml (code-lt c), rw exact ints),
      (
        rw exact small,
        ap (λ n. hash_from m n s) exact ∙ same ∙ value_from-mod s (h * 33 + code c) m,
      ),
    )

-- For every modulus from 1 to 2 ^ 57: no sum on the way overflows an int of 64 bits, the hash is below
-- the modulus, and it is the remainder of the number that the text is to the base 33.
pub hash-bounds :
    (s : String) (m : ℕ)
    → 1 ≤ m
    → m ≤ 144115188075855872
    → All IsInt (sums m 0 s) × ((hash s m < m) × (hash s m ≡ value_from 0 s % m))
unfolding hash
hash-bounds s m pos ml = hash_from-exact s 0 m (omega (arith, pos)) ml
