-- ===== src/Rollout/Tests.antt =====
-- Rolling upgrades of concrete pods (pkg/manager/controllers/rollout), and the theorems applied to
-- them.
use controller_mesh.Prelude.{
  String, ◌≡◌, refl, List, [], ◌∷◌, Bool, true, false, not, ◌||◌, Option, some, any, all, filter,
  lookup, insert, is_some, if◌then◌else◌,
}
use controller_mesh.Pods.{Pod}
use controller_mesh.Expectations.{get_expectation}
use controller_mesh.Rollout.{
  StatefulSet, Config, get_holder_identity, upgrade, roll, is_terminating,
}
use controller_mesh.Rollout.Scan.{is_outdated, is_unready, is_done, AreDistinct}
use controller_mesh.Rollout.Deletions.{followers_first}
use controller_mesh.Rollout.Upgrade.{upgrade_deletes, upgrade_finishes}
use controller_mesh.Rollout.Order.{first_unfinished, deletions_of, roll_one_shard}

abbrev pod : String → String → Pod
pod name revision = record {
  uid = name;
  namespace = "default";
  name = name;
  labels = ("controller-revision-hash", revision) ∷ [];
  deleted = false;
  phase = "Running";
  conditions = record { condition_type = "Ready"; status = "True" } ∷ [];
  containers = [];
  owner = some "operator";
  first_owner = some "operator";
  age = 0;
}

abbrev operator : StatefulSet
operator = record {
  name = "operator";
  labels = ("ctrlmesh.kusionstack.io/rolling", "all") ∷ [];
  annotations = some [];
  deleted = false;
  replicas = some 3;
  status_replicas = 3;
  on_delete = true;
  update_revision = "new";
  current_revision = "old";
}

abbrev shard : Config
shard = record { name = "shard"; namespace = "default"; leader_election_name = some "leader" }

abbrev three_pods : List Pod
three_pods = pod "operator-0" "old" ∷ pod "operator-1" "old" ∷ pod "operator-2" "new" ∷ []

abbrev accepts : Pod → Bool
accepts p = false

-- The first pod holds every lease.
abbrev holder : String → String → Option String
holder name namespace = some "operator-0_1"

three_pods-AreDistinct : AreDistinct three_pods
three_pods-AreDistinct = (refl, (refl, (refl, tt)))

holder_of_shard : get_holder_identity accepts 7 holder shard ≡ some "operator-0_1"
unfolding get_holder_identity
holder_of_shard = refl

upgrade_deletes_example : (upgrade accepts 7 holder operator shard three_pods []).deletions ≡ (
    if any (is_unready operator []) three_pods || any (is_terminating []) three_pods
    then []
    else followers_first accepts 7 "operator-0_1" (filter (is_outdated operator []) three_pods))
upgrade_deletes_example =
    upgrade_deletes accepts 7 holder operator shard three_pods [] "operator-0_1"
      three_pods-AreDistinct holder_of_shard

upgrade_finishes_example :
    (upgrade accepts 7 holder operator shard three_pods []).finish
    ≡ all (is_done operator []) three_pods
upgrade_finishes_example = upgrade_finishes accepts 7 holder operator shard three_pods []

roll_one_shard_example :
    let r = roll accepts 7 holder "all" operator ((shard, three_pods) ∷ []) [] in
    (r.asked
      ≡ deletions_of accepts 7 holder "all" operator []
          (first_unfinished accepts 7 holder "all" operator [] ((shard, three_pods) ∷ [])))
    × (r.finished
        ≡ not (
            is_some
              (first_unfinished accepts 7 holder "all" operator [] ((shard, three_pods) ∷ []))))
roll_one_shard_example =
    roll_one_shard accepts 7 holder "all" operator [] ((shard, three_pods) ∷ [])

deletes_the_follower :
    (upgrade accepts 7 holder operator shard three_pods []).deletions ≡ pod "operator-1" "old" ∷ []
unfolding upgrade lookup get_expectation insert
deletes_the_follower = refl
