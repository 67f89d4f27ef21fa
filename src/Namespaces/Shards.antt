-- ===== src/Namespaces/Shards.antt =====
-- The shard of a namespace (pkg/utils/rand/hash.go and getRange of
-- pkg/manager/controllers/shardingconfigserver/auto_sharding.go).
use controller_mesh.Prelude.{
  ℕ, zero, suc, ◌≤◌, ◌<◌, ◌+◌, String, List, [], ◌∷◌, map, flat_map, Bool, true, ◌&&◌, ◌≡◌, refl,
  ap, ◌∙◌, eqb, eqb_iff, if◌then◌else◌, ◌==◌, arith,
}
use controller_mesh.Sharding.Auto.{digits, itoa, numbers_from, get_range}
use controller_mesh.Sharding.Auto.Laws.{ranges-batches, batches-partition}
use controller_mesh.Namespaces.{hash, hash_label}
use controller_mesh.Namespaces.Hash.{hash-bounds}

-- How often a text stands in a list.
abbrev pub count : String → List String → ℕ
count k [] = 0
count k (x ∷ xs) = if x == k then suc (count k xs) else count k xs

labels : List String
labels = map itoa (numbers_from 0 32)

single_from : ℕ → ℕ → Bool
single_from s zero = true
single_from s (suc k) = eqb (count (itoa s) labels) 1 && single_from (suc s) k

single_from-count :
    (s k x : ℕ) → single_from s k ≡ true → s ≤ x → x < s + k → eqb (count (itoa x) labels) 1 ≡ true
unfolding single_from
single_from-count s zero x h le lt = ground (arith, le, lt)
single_from-count s (suc k) x h le lt = ground (arith, h, le, lt, single_from-count (suc s) k x)

labels_once : single_from 0 32 ≡ true
unfolding single_from labels numbers_from digits
labels_once = refl

-- Where there is at least one shard, the label of a namespace, whatever its name, stands in the
-- ranges of all shards together exactly once: it belongs to one shard.
pub hash_label-get_range :
    (name : String) (size : ℕ)
    → 1 ≤ size
    → count (hash_label name) (flat_map (λ id. get_range id size 32) (numbers_from 1 size)) ≡ 1
unfolding hash_label labels
hash_label-get_range name size pos =
    let (_, (below, _)) = hash-bounds name 32 (omega arith) (omega arith) in
    ap (count (hash_label name))
      (ranges-batches size 32 (numbers_from 1 size) ∙ ap (map itoa) (batches-partition size 32 pos))
    ∙ (eqb_iff (count (hash_label name) labels) 1).0
        (single_from-count 0 32 (hash name 32) labels_once (omega arith) below)
