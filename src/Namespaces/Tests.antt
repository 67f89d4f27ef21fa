-- ===== src/Namespaces/Tests.antt =====
-- Concrete namespaces.
use controller_mesh.Prelude.{
  All, ◌<◌, ◌%◌, String, [], ◌∷◌, false, flat_map, Map, lookup, insert, lookup-insert, is_some, ◌≡◌,
  refl, if◌then◌else◌, arith,
}
use controller_mesh.Sharding.Auto.{get_range, numbers_from, digits}
use controller_mesh.Namespaces.{hash_step, signed_mod, LabelNames, hash, hash_label}
use controller_mesh.Namespaces.Hash.{sums, IsInt, value_from, hash-bounds}
use controller_mesh.Namespaces.Shards.{count, hash_label-get_range}
use controller_mesh.Namespaces.Webhook.{should_update_ns}
use controller_mesh.Namespaces.Runnable.{update_label}
use controller_mesh.Namespaces.Agreement.{AreDistinct, should_update_ns-update_label}

abbrev names : LabelNames
names = record { shard_hash = "shard-hash"; mesh_control = "control"; namespace = "namespace" }

names-AreDistinct : AreDistinct names
names-AreDistinct = record { hash_control = refl; hash_namespace = refl; namespace_control = refl }

-- w is 119, e 101 and b 98.
hash_of_web : hash "web" 32 ≡ 30
unfolding hash
hash_of_web = refl

label_of_web : hash_label "web" ≡ "30"
unfolding hash_label digits
label_of_web = refl

hash-bounds_example :
    All IsInt (sums 32 0 "web") × ((hash "web" 32 < 32) × (hash "web" 32 ≡ value_from 0 "web" % 32))
hash-bounds_example = hash-bounds "web" 32 (omega arith) (omega arith)

hash_label-get_range_example :
    count (hash_label "web") (flat_map (λ id. get_range id 3 32) (numbers_from 1 3)) ≡ 1
hash_label-get_range_example = hash_label-get_range "web" 3 (omega arith)

abbrev team : Map String
team = ("team", "a") ∷ []

update_label_of_web : (update_label names "web" team).error ≡ false
unfolding update_label lookup
update_label_of_web = refl

should_update_ns-update_label_example :
    should_update_ns names "web" (update_label names "web" team).labels
    ≡ record { labels = (update_label names "web" team).labels; changed = false }
should_update_ns-update_label_example =
    should_update_ns-update_label names "web" names-AreDistinct team update_label_of_web

-- A merge of labels.
merge : Map String → Map String → Map String
merge [] labels = labels
merge ((key, value) ∷ patch) labels = insert key value (merge patch labels)

lookup-merge :
    (patch labels : Map String) (key : String)
    → lookup key (merge patch labels)
      ≡ (if is_some (lookup key patch) then lookup key patch else lookup key labels)
unfolding merge lookup
lookup-merge [] labels key = refl
lookup-merge ((k, v) ∷ patch) labels key =
    ground (arith, lookup-insert k key v (merge patch labels), lookup-merge patch labels key)

abbrev target : Map String
target = ("shard-hash", "23") ∷ ("control", "true") ∷ []

target_absent : is_some {A = String} (lookup "shard-hash" (("control", "true") ∷ [])) ≡ false
unfolding lookup
target_absent = refl

control_absent : is_some (lookup {V = String} "control" []) ≡ false
unfolding lookup
control_absent = refl

-- A modulus so large that a sum overflows gives a negative hash, which the bit pattern shows.
overflowing_round : hash_step 288230376151711744 288230376151711743 122 ≡ 18158513697557839961
unfolding hash_step signed_mod
overflowing_round = refl
