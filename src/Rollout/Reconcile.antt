-- ===== src/Rollout/Reconcile.antt =====
-- The reconciliation of a stateful set: Reconcile of
-- pkg/manager/controllers/rollout/rollout_controller.go around its last loop, and expectation.go. The
-- configurations and the pods are those that the API server lists, where a list of no pods is nil;
-- `none` is the panic of a write to a nil map.
use text.Mathlib.Text.{is_lt}
use Prim.Native.String.{compare}
use controller_mesh.Prelude.{
  ℕ, ◌+◌, String, List, [], ◌∷◌, ◌++◌, Bool, true, false, not, ◌&&◌, ◌||◌, Option, none, some, Map,
  lookup, insert, erase, eqb, length, is_empty, is_some, if◌then◌else◌, ◌==◌, ◌>>=◌,
}
use controller_mesh.Pods.{Pod}
use controller_mesh.Expectations.{Expectations}
use controller_mesh.Rollout.{
  StatefulSet, Config, recent_revision, label, revision_label, is_updated_revision, is_selected,
  roll,
}

abbrev rolling_label : String
rolling_label = "ctrlmesh.kusionstack.io/rolling"

abbrev injected_label : String
injected_label = "ctrlmesh.kusionstack.io/sharding-config-injected"

abbrev status_annotation : String
status_annotation = "ctrlmesh.kusionstack.io/roll-status"

abbrev expected_annotation : String
expected_annotation = "ctrlmesh.kusionstack.io/roll-expected"

-- `sort.Sort` by the names, which are distinct within a namespace.
unfoldable pub insert_sorted : Config → List Config → List Config
insert_sorted c [] = c ∷ []
insert_sorted c (d ∷ ds) =
    let rest = insert_sorted c ds in if is_lt (compare d.name c.name) then d ∷ rest else c ∷ d ∷ ds

unfoldable pub sort_configs : List Config → List Config
unfolding insert_sorted
sort_configs [] = []
sort_configs (c ∷ cs) = insert_sorted c (sort_configs cs)

abbrev add_pod : String → Pod → Map (List Pod) → Map (List Pod)
add_pod config p m = elim (lookup config m) [
  | none ↦ insert config (p ∷ []) m
  | some ps ↦ insert config (ps ++ p ∷ []) m
]

-- The loop that puts the pods of the stateful set under the names of their configurations.
unfoldable pub group_pods : StatefulSet → List Pod → Map (List Pod) → Map (List Pod)
group_pods sts [] m = m
group_pods sts (p ∷ ps) m =
    let owned : Bool = elim (p.first_owner) [ none ↦ false | some owner ↦ owner == sts.name ] in
    group_pods sts ps (elim (lookup injected_label p.labels) [
      | none ↦ m
      | some config ↦ if owned then add_pod config p m else m
    ])

abbrev pods_of : Map (List Pod) → String → List Pod
pods_of m name = elim (lookup name m) [ none ↦ [] | some ps ↦ ps ]

-- The configurations that have pods, each with its pods.
unfoldable pub with_pods : Map (List Pod) → List Config → List Config
with_pods m [] = []
with_pods m (c ∷ cs) =
    let rest = with_pods m cs in if is_some (lookup c.name m) then c ∷ rest else rest

unfoldable pub pair_pods : Map (List Pod) → List Config → List (Config × List Pod)
pair_pods m [] = []
pair_pods m (c ∷ cs) = (c, pods_of m c.name) ∷ pair_pods m cs

unfoldable pub upgraded_names : StatefulSet → List Pod → List String
unfolding is_updated_revision
upgraded_names sts [] = []
upgraded_names sts (p ∷ ps) =
    let rest = upgraded_names sts ps in if is_updated_revision sts p then p.name ∷ rest else rest

unfoldable pub all_upgraded : StatefulSet → List (Config × List Pod) → List String
unfolding upgraded_names
all_upgraded sts [] = []
all_upgraded sts ((c, ps) ∷ cs) = upgraded_names sts ps ++ all_upgraded sts cs

-- The revisions of the pods of one configuration.
unfoldable pub expect_pods : (Pod → String) → List Pod → Map String → Map String
expect_pods revision [] m = m
expect_pods revision (p ∷ ps) m = expect_pods revision ps (insert p.name (revision p) m)

unfoldable pub expect_revisions :
    String → StatefulSet → List (Config × List Pod) → Map String → Map String
unfolding expect_pods recent_revision
expect_revisions roll_type sts [] m = m
expect_revisions roll_type sts ((c, ps) ∷ cs) m = expect_revisions roll_type sts cs (
    if is_selected roll_type c
    then expect_pods (λ p. recent_revision sts) ps m
    else expect_pods (λ p. label revision_label p.labels) ps m)

-- What the standard library prints as JSON, and whether an update of the stateful set fails.
pub record Environment : Type 0 where
  pub json_names : List String → String
  pub json_revision : String → Map String → String
  pub update_fails : StatefulSet → Bool

module _ (env : Environment) where
  -- With whether the annotation has changed.
  unfoldable pub set_expected_revision : StatefulSet → Map String → Option (Bool × StatefulSet)
  unfolding recent_revision
  set_expected_revision sts pod_revision =
      let value = env.json_revision (recent_revision sts) pod_revision in
      elim (sts.annotations) [
        | none ↦ if value == "" then some (false, sts) else none
        | some annotations ↦
            if value == label expected_annotation annotations
            then some (false, sts)
            else some (
              true,
              record sts { annotations = some (insert expected_annotation value annotations) },
            )
      ]

  unfoldable pub update_rollout_anno : List String → StatefulSet → Bool × StatefulSet
  update_rollout_anno upgraded sts =
      let value = if is_empty upgraded then "" else env.json_names upgraded in
      elim (sts.annotations) [
        | none ↦ (true, record sts { annotations = some (insert status_annotation value []) })
        | some annotations ↦
            if not (label status_annotation annotations == value)
            then (
              true,
              record sts { annotations = some (insert status_annotation value annotations) },
            )
            else (false, sts)
      ]

  unfoldable pub delete_label : StatefulSet → Bool × StatefulSet
  delete_label sts = elim (lookup rolling_label sts.labels) [
    | none ↦ (false, sts)
    | some _ ↦ (true, record sts { labels = erase rolling_label sts.labels })
  ]

  -- What a reconciliation leaves: the error, the time in seconds after which to repeat it, the pods
  -- that it asks to delete, the expectations, and the stateful set with how often it is written.
  pub record Reconciled : Type 0 where
    pub failed : Bool
    pub requeue_after : ℕ
    pub deletions : List Pod
    pub expectations : Expectations
    pub stateful_set : StatefulSet
    pub updates : ℕ

  abbrev quiet : StatefulSet → Expectations → Bool → ℕ → Reconciled
  quiet sts expected failed requeue_after = record {
    failed = failed;
    requeue_after = requeue_after;
    deletions = [];
    expectations = expected;
    stateful_set = sts;
    updates = 0;
  }

  -- The deferred function, with whether the rollout has finished.
  unfoldable pub finish_reconcile : List String → Bool → Reconciled → Reconciled
  unfolding update_rollout_anno delete_label
  finish_reconcile upgraded finished r =
      let (changed, sts₁) = update_rollout_anno upgraded r.stateful_set in
      let (deleted, sts₂) = if finished then delete_label sts₁ else (false, sts₁) in
      if changed || deleted
      then record r {
        stateful_set = sts₂;
        updates = r.updates + 1;
        failed = r.failed || env.update_fails sts₂;
      }
      else record r { stateful_set = sts₂ }

  module _ (delete_fails : Pod → Bool) (now : ℕ)
      (lease_holder : String → String → Option String) where
    -- `Reconcile` from the loops over the configurations on.
    unfoldable pub reconcile_shards :
        String → StatefulSet → List (Config × List Pod) → Expectations → Option Reconciled
    unfolding all_upgraded expect_revisions set_expected_revision finish_reconcile roll
    reconcile_shards roll_type sts shards expected = do
      let upgraded = all_upgraded sts shards
      (changed, sts') ← set_expected_revision sts (expect_revisions roll_type sts shards [])
      let written = if changed then 1 else 0
      let start = record (quiet sts' expected false 0) { updates = written }
      let r = roll delete_fails now lease_holder roll_type sts' shards expected
      some (
          if changed && env.update_fails sts'
          then finish_reconcile upgraded false (record start { failed = true })
          else finish_reconcile upgraded r.finished (record start {
            failed = r.error;
            requeue_after = if r.requeues then 3 else 0;
            deletions = r.asked;
            expectations = r.expecting;
          }))

    unfoldable pub owned_pods : StatefulSet → List Pod → List Pod
    owned_pods sts [] = []
    owned_pods sts (p ∷ ps) =
        let rest = owned_pods sts ps in
        elim (p.owner) [ none ↦ rest | some owner ↦ if owner == sts.name then p ∷ rest else rest ]

    unfoldable pub reconcile :
        StatefulSet → List Config → List Pod → Expectations → Option Reconciled
    unfolding group_pods with_pods pair_pods sort_configs owned_pods delete_label reconcile_shards
    reconcile sts configs pods expected = elim (sts.replicas) [
      | none ↦ some (quiet sts expected false 0)
      | some replicas ↦
          if sts.deleted
          then some (quiet sts expected false 0)
          else if not (eqb sts.status_replicas replicas)
          then some (quiet sts expected true 3)
          else (elim (lookup rolling_label sts.labels) [
            | none ↦ some (quiet sts expected false 0)
            | some roll_type ↦
                let own = owned_pods sts pods in
                let grouped = group_pods sts own [] in
                let sts' = delete_label sts in
                if not sts.on_delete
                then some
                    (record (quiet (sts'.1) expected (env.update_fails sts'.1) 0) { updates = 1 })
                else if is_empty pods
                then some (quiet sts expected false 0)
                else if not (eqb (length own) replicas)
                then some (quiet sts expected true 0)
                else reconcile_shards roll_type sts
                    (pair_pods grouped (sort_configs (with_pods grouped configs))) expected
          ])
    ]
