-- ===== src/Namespaces/Webhook.antt =====
-- The webhooks that label namespaces and the resources in them
-- (pkg/webhook/ns/namespace_mutating_handler.go, pkg/webhook/resources/resource_mutating_handler.go).
use controller_mesh.Prelude.{
  ℕ, zero, suc, String, List, [], ◌∷◌, Bool, true, false, not, ◌&&◌, ◌||◌, Option, none, some, Map,
  lookup, insert, is_some, is_empty, if◌then◌else◌, ◌==◌,
}
use controller_mesh.Namespaces.{
  LabelNames, is_controlled_by_mesh, should_sync_labels, hash_label, copy_labels,
}

-- A namespace that is to be labelled, and whether it has been changed.
pub record Labelled : Type 0 where
  pub labels : Map String
  pub changed : Bool

-- The label has the value.
unfoldable pub has_value : String → String → Map String → Bool
has_value label value labels = elim (lookup label labels) [ none ↦ false | some v ↦ v == value ]

-- One `if` of `shouldUpdateNs`.
unfoldable pub ensure : Bool → String → String → Labelled → Labelled
ensure holds label value l =
    if holds then l else record { labels = insert label value l.labels; changed = true }

unfoldable pub should_update_ns : LabelNames → String → Map String → Labelled
unfolding ensure has_value hash_label
should_update_ns names name labels =
    let start : Labelled = record { labels = labels; changed = false } in
    let control =
      ensure (is_some (lookup names.mesh_control labels)) names.mesh_control "true" start in
    let shard =
      ensure (has_value names.namespace name control.labels) names.namespace name control in
    ensure (has_value names.shard_hash (hash_label name) shard.labels) names.shard_hash
      (hash_label name) shard

-- What a webhook answers: it lets the object pass, refuses it, or patches it with labels.
pub data Answer : Type 0 where
  allowed : Answer
  errored : ℕ → Answer
  patched : Map String → Answer

pub data Operation : Type 0 where
  create update other : Operation

unfoldable pub label_object : LabelNames → Option (String × Map String) → Answer
unfolding should_update_ns
label_object names none = errored 400
label_object names (some (name, labels)) =
    let l = should_update_ns names name labels in if l.changed then patched l.labels else allowed

-- `Handle` of the webhook of namespaces; an object that is `none` cannot be decoded.
unfoldable pub handle_namespace : LabelNames → Operation → Option (String × Map String) → Answer
unfolding label_object
handle_namespace names other object = allowed
handle_namespace names create object = label_object names object
handle_namespace names update object = label_object names object

-- `getSyncLabels`.
unfoldable pub get_sync_labels : LabelNames → Map String → Map String
unfolding is_controlled_by_mesh should_sync_labels copy_labels
get_sync_labels names labels =
    if not (is_controlled_by_mesh names labels)
    then []
    else copy_labels (should_sync_labels names) labels []

-- What a request for a namespace ends with.
pub data Got : Type 0 where
  got : Map String → Got
  not_found get_failed : Got

-- `getNamespaceWithRetry`, with the rounds left after the first and the answers to come.
unfoldable pub get_with_retry : ℕ → (ℕ → Got) → Got
get_with_retry zero answers = answers 0
get_with_retry (suc more) answers =
    let next = get_with_retry more (λ i. answers (suc i)) in
    elim (answers 0) [ got labels ↦ got labels | not_found ↦ next | get_failed ↦ next ]

-- The client that asks the API server directly, where there is one, is asked for a namespace that
-- the cache does not have.
unfoldable pub get_namespace : (ℕ → Got) → Option Got → Got
unfolding get_with_retry
get_namespace cached direct = elim (get_with_retry 4 cached) [
  | got labels ↦ got labels
  | get_failed ↦ get_failed
  | not_found ↦ elim direct [ none ↦ not_found | some answer ↦ answer ]
]

-- An operation of a JSON patch, as far as it is read.
pub record PatchOperation : Type 0 where
  pub operation : String
  pub has_value : Bool

unfoldable pub filter_operation : List PatchOperation → List PatchOperation
filter_operation [] = []
filter_operation (o ∷ os) =
    let rest = filter_operation os in
    if (o.operation == "add" || o.operation == "replace") && o.has_value then o ∷ rest else rest

-- What the webhook of resources answers.
pub data ResourceAnswer : Type 0 where
  pass : ResourceAnswer
  refused : ℕ → ResourceAnswer
  patch : List PatchOperation → ResourceAnswer

-- `create_patch` makes the patch of the object that adds the labels; it may fail.
unfoldable pub patch_resource :
    LabelNames → (Map String → Option (List PatchOperation)) → Got → ResourceAnswer
unfolding get_sync_labels filter_operation
patch_resource names create_patch not_found = refused 400
patch_resource names create_patch get_failed = refused 400
patch_resource names create_patch (got labels) =
    if is_empty (get_sync_labels names labels)
    then pass
    else (elim (create_patch (get_sync_labels names labels)) [
      | none ↦ refused 500
      | some operations ↦
          if is_empty (filter_operation operations)
          then pass
          else patch (filter_operation operations)
    ])

unfoldable pub handle_resource :
    LabelNames
    → (Map String → Option (List PatchOperation))
    → Operation
    → String
    → String
    → (ℕ → Got)
    → Option Got
    → ResourceAnswer
unfolding get_namespace patch_resource
handle_resource names create_patch other namespace kind cached direct = pass
handle_resource names create_patch create namespace kind cached direct =
    if namespace == "" || kind == "ShardingConfig"
    then pass
    else patch_resource names create_patch (get_namespace cached direct)
handle_resource names create_patch update namespace kind cached direct =
    if namespace == "" || kind == "ShardingConfig"
    then pass
    else patch_resource names create_patch (get_namespace cached direct)
