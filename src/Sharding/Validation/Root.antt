-- ===== src/Sharding/Validation/Root.antt =====
-- What an accepted root configuration gives rise to
-- (pkg/webhook/shardingconfig/shardingconfig_validating_handler.go and
-- pkg/manager/controllers/shardingconfigserver/auto_sharding.go).
use controller_mesh.Prelude.{String, flat_map, ℕ, ◌≡◌, List, ◌∷◌, map}
use controller_mesh.Sharding.Config.{RootConfig, Child, Environment}
use controller_mesh.Sharding.Auto.{text, itoa, numbers_from}
use controller_mesh.Sharding.Auto.Children.{pods_of, hashes_of, pod_name}

-- The names of the canary and of the shards.
abbrev pub child_names : String → ℕ → List String
child_names prefix n =
    text prefix "-0-canary"
    ∷ map (λ id. text prefix (text "-" (text (itoa id) "-normal"))) (numbers_from 1 n)

-- What an accepted root is to give rise to.
pub record AreChildren (env : Environment) (c : RootConfig) (n total i : ℕ) (first : Child)
    (normals : List Child) : Type 0 where
  pub names : map (λ d. d.name) (first ∷ normals) ≡ child_names c.root.prefix n
  pub pods :
      flat_map pods_of (first ∷ normals)
      ≡ map (pod_name (c.root.target_stateful_set)) (numbers_from 0 total)
  pub shards : flat_map (hashes_of env i) normals ≡ map itoa (numbers_from 0 32)
