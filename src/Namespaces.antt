-- ===== src/Namespaces.antt =====
-- The labels by which namespaces and the resources in them belong to shards
-- (pkg/apis/ctrlmesh/types.go, pkg/utils/rand/hash.go).
pub mod Hash
pub mod Shards
pub mod Webhook
pub mod Runnable
pub mod Agreement
pub mod Patches
mod Tests
use Prim.Native.Char.{code}
use controller_mesh.Prelude.{
  ℕ, ltb, ◌+◌, ◌-◌, ◌*◌, ◌%◌, String, List, [], ◌∷◌, Bool, true, false, not, Option, none, some,
  Map, lookup, insert, is_some, if◌then◌else◌, ◌==◌,
}
use controller_mesh.Sharding.Auto.{itoa}

-- The names of the labels, which are flags of the program.
pub record LabelNames : Type 0 where
  pub shard_hash : String
  pub mesh_control : String
  pub namespace : String

unfoldable pub is_controlled_by_mesh : LabelNames → Map String → Bool
is_controlled_by_mesh names labels = elim (lookup names.mesh_control labels) [
  | none ↦ false
  | some value ↦ value == "true"
]

unfoldable pub should_sync_labels : LabelNames → List String
should_sync_labels names = names.shard_hash ∷ names.mesh_control ∷ names.namespace ∷ []

-- The remainder of an int of 64 bits, given by its bit pattern, by a positive number: that of a
-- negative int is negative or 0.
unfoldable pub signed_mod : ℕ → ℕ → ℕ
signed_mod n modulus =
    if ltb n 9223372036854775808
    then n % modulus
    else (18446744073709551616 - (18446744073709551616 - n) % modulus) % 18446744073709551616

-- One round of the loop of `Hash`, on the bit patterns of ints.
unfoldable pub hash_step : ℕ → ℕ → ℕ → ℕ
unfolding signed_mod
hash_step modulus hash char = signed_mod ((hash * 33 + char) % 18446744073709551616) modulus

unfoldable pub hash_from : ℕ → ℕ → String → ℕ
unfolding hash_step
hash_from modulus hash String.[] = hash
hash_from modulus hash (String.◌∷◌ c s) = hash_from modulus (hash_step modulus hash (code c)) s

unfoldable pub hash : String → ℕ → ℕ
unfolding hash_from
hash s modulus = hash_from modulus 0 s

abbrev pub default_sharding_size : ℕ
default_sharding_size = 32

-- The value of the label that a namespace of this name has.
unfoldable pub hash_label : String → String
unfolding hash
hash_label name = itoa (hash name default_sharding_size)

-- The labels of the list that the map has, put into another map.
unfoldable pub copy_labels : List String → Map String → Map String → Map String
copy_labels [] labels result = result
copy_labels (l ∷ ls) labels result =
    copy_labels ls labels (elim (lookup l labels) [ none ↦ result | some v ↦ insert l v result ])
