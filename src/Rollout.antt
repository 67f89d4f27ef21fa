-- ===== src/Rollout.antt =====
-- The rolling upgrade of the pods of a stateful set: pkg/manager/controllers/rollout. Whether a call
-- of the API server fails is a function of what it is about.
pub mod Scan
pub mod Deletions
pub mod Upgrade
pub mod Order
pub mod Reconcile
mod Tests
use Prim.Native.String
use text.Mathlib.Text.{starts_with, find?}
use controller_mesh.Prelude.{
  ℕ, suc, ◌/◌, String, List, [], ◌∷◌, ◌++◌, Bool, true, false, not, ◌&&◌, ◌||◌, Option, none, some,
  Map, lookup, insert, erase, ltb, is_empty, if◌then◌else◌, ◌==◌, is_some,
}
use controller_mesh.Pods.{Pod, is_pod_ready}
use controller_mesh.Expectations.{Expectations, get_expectation, record_expectation}

-- The part of a stateful set that is read. A map that is `none` is nil.
pub record StatefulSet : Type 0 where
  pub name : String
  pub labels : Map String
  pub annotations : Option (Map String)
  pub deleted : Bool
  pub replicas : Option ℕ
  pub status_replicas : ℕ
  pub on_delete : Bool
  pub update_revision : String
  pub current_revision : String

pub record Config : Type 0 where
  pub name : String
  pub namespace : String
  pub leader_election_name : Option String

unfoldable pub recent_revision : StatefulSet → String
recent_revision sts =
    if not (sts.update_revision == "") then sts.update_revision else sts.current_revision

-- A label that is not there reads as the empty text.
abbrev pub label : String → Map String → String
label key labels = elim (lookup key labels) [ none ↦ "" | some v ↦ v ]

abbrev pub revision_label : String
revision_label = "controller-revision-hash"

unfoldable pub is_updated_revision : StatefulSet → Pod → Bool
unfolding recent_revision
is_updated_revision sts p = label revision_label p.labels == recent_revision sts

unfoldable pub is_leader : Pod → String → Bool
is_leader p identity =
    if starts_with identity p.name
    then true
    else (elim (lookup "meta.k8s.alipay.com/hostname" p.labels) [
      | none ↦ false
      | some host ↦ starts_with identity host
    ])

abbrev pub key_of : Pod → String
key_of p = String.◌++◌ p.namespace (String.◌++◌ "/" p.name)

abbrev pub is_terminating : Expectations → Pod → Bool
is_terminating expected p = p.deleted || is_some (get_expectation (key_of p) expected)

-- The first loop of `upgrade`: `none` where an upgraded pod is not ready, and otherwise whether a pod
-- is terminating, and the pods to delete by their names.
unfoldable pub scan :
    StatefulSet → Expectations → List Pod → Bool → Map Pod → Option (Bool × Map Pod)
unfolding is_updated_revision is_pod_ready
scan sts expected [] terminating to_delete = some (terminating, to_delete)
scan sts expected (p ∷ ps) terminating to_delete =
    let terminating' = terminating || is_terminating expected p in
    let kept = scan sts expected ps terminating' to_delete in
    let extended = scan sts expected ps terminating' (insert p.name p to_delete) in
    if is_updated_revision sts p then (if not (is_pod_ready p) then none else kept) else extended

-- What `upgrade` returns, the pods it asks to delete in their order, and the expectations.
pub record Upgraded : Type 0 where
  pub finish : Bool
  pub requeue : Bool
  pub failed : Bool
  pub deletions : List Pod
  pub expectations : Expectations

-- The loop over the pods to delete.
pub record Deleting : Type 0 where
  pub size : ℕ
  pub leader : Option Pod
  pub error : Bool
  pub asked : List Pod
  pub expecting : Expectations

-- A configuration takes part if the label asks for all, or if its name holds the label.
abbrev pub is_selected : String → Config → Bool
is_selected roll_type cfg = not (
    not (roll_type == "all") && (not (roll_type == "") && not (is_some (find? cfg.name roll_type))))

-- How the last loop of `Reconcile` ends: `finished` is whether it reaches its end.
pub record Rolled : Type 0 where
  pub finished : Bool
  pub requeues : Bool
  pub error : Bool
  pub asked : List Pod
  pub expecting : Expectations

abbrev pub prepend_finished : Upgraded → (Expectations → Rolled) → Rolled
prepend_finished u rest =
    let r = rest u.expectations in
    elim (u.finish) [
      | true ↦ record r { asked = u.deletions ++ r.asked }
      | false ↦ record {
        finished = false;
        requeues = u.requeue;
        error = u.failed;
        asked = u.deletions;
        expecting = u.expectations;
      }
    ]

module _ (delete_fails : Pod → Bool) (now : ℕ) where
  -- One round of it, for a pod that does not lead.
  abbrev pub delete_pod : Pod → Deleting → Deleting
  delete_pod p d =
      if delete_fails p then record d { error = true; asked = d.asked ++ p ∷ [] } else record d {
        size = suc d.size;
        asked = d.asked ++ p ∷ [];
        expecting = record_expectation now (key_of p) (now / 1000000000) d.expecting;
      }

  unfoldable pub delete_pods : String → Map Pod → Deleting → Deleting
  unfolding is_leader record_expectation
  delete_pods identity [] d = d
  delete_pods identity ((name, p) ∷ ps) d =
      delete_pods identity ps
        (if is_leader p identity then record d { leader = some p } else delete_pod p d)

  abbrev pub no_deletion : Expectations → Bool → Bool → Upgraded
  no_deletion expected finish requeue = record {
    finish = finish;
    requeue = requeue;
    failed = false;
    deletions = [];
    expectations = expected;
  }

  -- The part of `upgrade` behind the loop over the pods to delete.
  abbrev pub delete_leader : Deleting → Upgraded
  delete_leader d =
      if ltb 0 d.size || d.error
      then record {
        finish = false;
        requeue = d.error;
        failed = d.error;
        deletions = d.asked;
        expectations = d.expecting;
      }
      else (elim (d.leader) [
        | some p ↦ record {
          finish = false;
          requeue = true;
          failed = delete_fails p;
          deletions = d.asked ++ p ∷ [];
          expectations = d.expecting;
        }
        | none ↦ record (no_deletion d.expecting true false) { deletions = d.asked }
      ])

  -- `lease_holder` is what the API server has as the holder of the lease of a name and namespace.
  module _ (lease_holder : String → String → Option String) where
    unfoldable pub get_holder_identity : Config → Option String
    get_holder_identity cfg = elim (cfg.leader_election_name) [
      | none ↦ none
      | some leader_name ↦
          lease_holder (String.◌++◌ leader_name (String.◌++◌ "---default-" cfg.name)) cfg.namespace
    ]

    -- The part of `upgrade` behind its first loop.
    abbrev pub upgrade_scanned : Config → Expectations → Bool × Map Pod → Upgraded
    upgrade_scanned cfg expected (terminating, to_delete) =
        if terminating
        then no_deletion expected false false
        else if is_empty to_delete
        then no_deletion expected true false
        else (elim (get_holder_identity cfg) [
          | none ↦ no_deletion expected false true
          | some identity ↦ delete_leader (
              delete_pods identity to_delete (record {
                size = 0;
                leader = none;
                error = false;
                asked = [];
                expecting = expected;
              }))
        ])

    unfoldable pub upgrade : StatefulSet → Config → List Pod → Expectations → Upgraded
    unfolding scan delete_pods get_holder_identity
    upgrade sts cfg pods expected = elim (scan sts expected pods false []) [
      | none ↦ no_deletion expected false false
      | some scanned ↦ upgrade_scanned cfg expected scanned
    ]

    -- The last loop of `Reconcile`, over the configurations in their order, each with its pods.
    unfoldable pub roll : String → StatefulSet → List (Config × List Pod) → Expectations → Rolled
    unfolding upgrade
    roll roll_type sts [] expected = record {
      finished = true;
      requeues = false;
      error = false;
      asked = [];
      expecting = expected;
    }
    roll roll_type sts ((cfg, pods) ∷ cfgs) expected =
        let rest = roll roll_type sts cfgs expected in
        if not (is_selected roll_type cfg)
        then rest
        else prepend_finished (upgrade sts cfg pods expected) (λ e. roll roll_type sts cfgs e)
