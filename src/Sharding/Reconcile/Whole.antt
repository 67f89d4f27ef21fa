-- ===== src/Sharding/Reconcile/Whole.antt =====
-- The reconciliation of a configuration by its name: all of Reconcile of
-- pkg/manager/controllers/shardingconfigserver/shardingconfig_controller.go, with what it calls. The
-- answers of the API server and of the streams are a record of functions; `none` is a panic.
use text.Mathlib.Text.{is_lt}
use Prim.Native.String.{compare}
use controller_mesh.Prelude.{
  String, List, [], ◌∷◌, Bool, true, false, not, Option, none, some, Map, if◌then◌else◌, ◌>>=◌,
}
use controller_mesh.Pods.{Pod}
use controller_mesh.Selectors.{LabelSelector}
use controller_mesh.Proxy.{Limit}
use controller_mesh.Sharding.Config.{Child, ObjectLimiter, Environment}
use controller_mesh.Sharding.Auto.Sync.{RootObject, Call, Answer, is_ok, Run, auto_sharding}
use controller_mesh.Sharding.Reconcile.{Server, Outcome, reconcile}
use controller_mesh.Sharding.Reconcile.Clearing.{ShardAnswer, clear_old_pods}
use controller_mesh.Sharding.Reconcile.Specs.{generate_limits}

-- What `r.Get` gives: a configuration with a root, or one without, by its name and its limits.
pub data ConfigAnswer : Type 0 where
  config_missing : ConfigAnswer
  config_error : ConfigAnswer
  config_root : RootObject → ConfigAnswer
  config_shard : String → List ObjectLimiter → ConfigAnswer

-- The answers, where `none` for a list of pods is an error. `listed` and `children` are the answer to
-- the list of the children of a root.
pub record Answers : Type 0 where
  pub listed : Answer
  pub children : List Child
  pub answer : Call → Answer
  pub labelled_pods : Option (List Pod)
  pub shard_pods : String → Option (List Pod)
  pub get_shard : String → ShardAnswer
  pub delete_answer : Pod → Answer
  pub send_fails : Pod → Bool

-- The functions of other libraries.
pub record Library : Type 0 where
  pub env : Environment
  pub names_hash : List String → String
  pub as_selector : Option LabelSelector → Option (Map String → Bool)
  pub dump : Option LabelSelector → String
  pub limits_hash : List Limit → String

-- `sort.SliceStable` by the names.
unfoldable pub insert_by_name : Pod → List Pod → List Pod
insert_by_name p [] = p ∷ []
insert_by_name p (q ∷ qs) =
    let rest = insert_by_name p qs in if is_lt (compare q.name p.name) then q ∷ rest else p ∷ q ∷ qs

unfoldable pub sort_by_name : List Pod → List Pod
unfolding insert_by_name
sort_by_name [] = []
sort_by_name (p ∷ ps) = insert_by_name p (sort_by_name ps)

-- The end of a reconciliation: that of a root, or that of a shard, with the old pods that were to be
-- deleted.
pub data Reconciled : Type 0 where
  reconciled_nothing : Bool → Reconciled
  reconciled_root : Run → Reconciled
  reconciled_shard : List Pod → Outcome → Reconciled

abbrev pub stopped : Bool → Server → Outcome
stopped failed s = record { actions = []; requeue_after = 0; failed = failed; server = s }

module _ (lib : Library) (a : Answers) where
  unfoldable pub get_pods_for_sharding_config : String → Option (List Pod)
  unfolding sort_by_name
  get_pods_for_sharding_config name = do ps ← a.shard_pods name; some (sort_by_name ps)

  abbrev pub synced_pods : String → List ObjectLimiter → Server → Option (List Pod) → Outcome
  synced_pods name limits s none = stopped true s
  synced_pods name limits s (some ps) =
      reconcile (λ p. not (is_ok (a.delete_answer p))) a.send_fails
        (lib.limits_hash (generate_limits lib.dump lib.limits_hash limits)) ps s

  abbrev pub after_clearing : String → List ObjectLimiter → Server → List Pod × Bool → Reconciled
  after_clearing name limits s (asked, true) = reconciled_shard asked (stopped true s)
  after_clearing name limits s (asked, false) =
      reconciled_shard asked (synced_pods name limits s (get_pods_for_sharding_config name))

  abbrev pub cleared_pods : Option (List Pod) → Option (List Pod × Bool)
  cleared_pods none = some ([], true)
  cleared_pods (some ps) = clear_old_pods a.get_shard a.delete_answer lib.as_selector ps

  unfoldable pub reconcile_config : ConfigAnswer → Server → Option Reconciled
  unfolding get_pods_for_sharding_config clear_old_pods reconcile generate_limits auto_sharding
  reconcile_config config_missing s = some (reconciled_nothing false)
  reconcile_config config_error s = some (reconciled_nothing true)
  reconcile_config (config_root root) s = do
    run ← auto_sharding lib.env lib.names_hash a.answer a.listed a.children root
    some (reconciled_root run)
  reconcile_config (config_shard name limits) s = do
    cleared ← cleared_pods a.labelled_pods
    some (after_clearing name limits s cleared)
