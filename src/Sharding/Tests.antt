-- ===== src/Sharding/Tests.antt =====
-- Shards of concrete sizes (pkg/manager/controllers/shardingconfigserver).
use controller_mesh.Prelude.{
  ◌≡◌, refl, String, true, false, List, [], ◌∷◌, ◌++◌, flat_map, Option, none, some, ◌>>=◌, map,
  contains, lookup, if◌then◌else◌, arith,
}
use controller_mesh.CircuitBreaker.Config.{pos}
use controller_mesh.Sharding.Config.{Child, RootConfig, Environment}
use controller_mesh.Sharding.Auto.{numbers_from, batch_numbers, digits, get_range, get_child}
use controller_mesh.Sharding.Auto.Laws.{batches-partition}
use controller_mesh.Sharding.Auto.Sync.{
  RootObject, Call, create_config, delete_call, Answer, answer_ok, Run, ran, protect_finalizer,
  clear_finalizers, clear_from, delete_outdated, create_missing, sync_status, generate,
  add_finalizers, auto_sharding,
}
use controller_mesh.Sharding.Auto.Release.{init, without, clear_finalizers-expected}
use controller_mesh.Sharding.Auto.Runs.{
  current, outdated, missing, hold_calls, status_calls, auto_sharding-calls,
}

last_of_three :
    get_range 3 3 32 ≡ "22" ∷ "23" ∷ "24" ∷ "25" ∷ "26" ∷ "27" ∷ "28" ∷ "29" ∷ "30" ∷ "31" ∷ []
unfolding get_range batch_numbers numbers_from digits
last_of_three = refl

batches-partition_example :
    flat_map (λ id. batch_numbers id 3 32) (numbers_from 1 3) ≡ numbers_from 0 32
batches-partition_example = batches-partition 3 32 (omega arith)

abbrev sample_root : RootConfig
sample_root = record {
  name = "root";
  namespace = "default";
  spec = record { selector = none; controller = none; webhook = none; limits = [] };
  root = record {
    disable = none;
    prefix = "shard";
    target_stateful_set = "operator";
    canary =
        some (record { replicas = some (pos 1); in_namespaces = "test" ∷ []; in_shard_hash = [] });
    auto = some (record { sharding_size = pos 2; every_shard_replicas = pos 2 });
    resource_selector = [];
  };
}

abbrev sample_environment : Environment
sample_environment = record {
  root_hash = λ r. r.prefix;
  namespace_shard_label = "ctrlmesh.kusionstack.io/namespace";
  shard_hash_label = "ctrlmesh.kusionstack.io/shard-hash";
}

names_of_children :
    (do children ← get_child sample_environment sample_root; some (map (λ c. c.name) children))
    ≡ some ("shard-0-canary" ∷ "shard-1-normal" ∷ "shard-2-normal" ∷ [])
unfolding get_child numbers_from digits
names_of_children = refl

-- A second finalizer behind the one of the controller.
abbrev two_finalizers : List String
two_finalizers = protect_finalizer ∷ "kubernetes" ∷ []

two_finalizers_panic : clear_finalizers two_finalizers protect_finalizer ≡ none
unfolding clear_finalizers clear_from
two_finalizers_panic = refl

clear_finalizers-expected_example : clear_finalizers two_finalizers protect_finalizer ≡ (
    if contains protect_finalizer (init two_finalizers)
    then none
    else some (without protect_finalizer two_finalizers, contains protect_finalizer two_finalizers))
clear_finalizers-expected_example = clear_finalizers-expected two_finalizers protect_finalizer

abbrev new_root : RootObject
new_root = record { config = sample_root; deleted = false; finalizers = []; child_configs = [] }

abbrev always_ok : Call → Answer
always_ok c = answer_ok

abbrev first_name : List String → String
first_name [] = ""
first_name (x ∷ xs) = x

abbrev old_child : Child
old_child = record {
  name = "shard-1-normal";
  namespace = "default";
  annotations = [];
  labels = [];
  spec = sample_root.spec;
}

abbrev old_children : List Child
old_children = old_child ∷ []

abbrev result_of : Option Run → Run
result_of none = ran [] true new_root
result_of (some run) = run

abbrev children_of : Option (List Child) → List Child
children_of none = []
children_of (some cs) = cs

abbrev sample_children : List Child
sample_children = children_of (get_child sample_environment sample_root)

abbrev sample_run : Run
sample_run =
    result_of
      (auto_sharding sample_environment first_name always_ok answer_ok old_children new_root)

auto_sharding-calls_example :
    sample_run.calls
    ≡ hold_calls new_root
      ++ map delete_call (outdated "shard" old_children)
      ++ map create_config (missing (current "shard" old_children) sample_children)
      ++ status_calls first_name new_root sample_children
unfolding auto_sharding generate delete_outdated create_missing sync_status add_finalizers get_child
    lookup
auto_sharding-calls_example =
    auto_sharding-calls sample_environment first_name always_ok answer_ok old_children new_root
      sample_children sample_run refl refl refl refl
