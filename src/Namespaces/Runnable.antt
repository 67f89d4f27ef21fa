-- ===== src/Namespaces/Runnable.antt =====
-- The labelling of all namespaces and resources when the manager starts
-- (pkg/manager/controllers/patchrunnable).
use Prim.Native.String
use controller_mesh.Prelude.Sets
use controller_mesh.Prelude.{
  String, List, [], ◌∷◌, ◌++◌, Bool, true, false, not, ◌||◌, Option, none, some, Map, lookup,
  insert, is_some, is_empty, contains, if◌then◌else◌, ◌==◌,
}
use controller_mesh.Namespaces.{
  LabelNames, is_controlled_by_mesh, should_sync_labels, hash_label, copy_labels,
}
use controller_mesh.Namespaces.Webhook.{has_value}

-- What `updateLabel` leaves and returns. The text of an error is only printed.
pub record Updated : Type 0 where
  pub labels : Map String
  pub changed : Bool
  pub error : Bool

abbrev pub kept : Map String → Updated
kept labels = record { labels = labels; changed = false; error = false }

abbrev pub changed_to : Map String → Updated
changed_to labels = record { labels = labels; changed = true; error = false }

unfoldable pub update_uncontrolled : LabelNames → String → Map String → Updated
update_uncontrolled names name labels =
    if is_some (lookup names.shard_hash labels) || is_some (lookup names.namespace labels)
    then record (kept labels) { error = true }
    else changed_to (
        insert names.shard_hash (hash_label name)
          (insert names.namespace name (insert names.mesh_control "true" labels)))

unfoldable pub update_controlled : LabelNames → String → Map String → Updated
unfolding has_value
update_controlled names name labels =
    if not (has_value names.shard_hash (hash_label name) labels)
    then changed_to (insert names.shard_hash (hash_label name) (insert names.namespace name labels))
    else if not (has_value names.namespace name labels)
    then changed_to (insert names.namespace name labels)
    else kept labels

unfoldable pub update_label : LabelNames → String → Map String → Updated
unfolding update_uncontrolled update_controlled
update_label names name labels =
    if is_some (lookup names.mesh_control labels)
    then update_controlled names name labels
    else update_uncontrolled names name labels

-- `getShardingLabel`, of a namespace that is there.
unfoldable pub get_sharding_label : LabelNames → Map String → Map String
unfolding is_controlled_by_mesh should_sync_labels copy_labels
get_sharding_label names labels =
    if not (is_controlled_by_mesh names labels)
    then []
    else copy_labels (should_sync_labels names) labels []

-- The loop of `shouldPatchLabel` over the labels that there should be.
unfoldable pub patch_from : Map String → Map String → Map String → Map String
patch_from old [] patch = patch
patch_from old ((key, value) ∷ target) patch =
    patch_from old target (if has_value key value old then patch else insert key value patch)

unfoldable pub should_patch_label : Map String → Map String → Map String
unfolding patch_from has_value
should_patch_label old target = patch_from old target []

-- A kind of objects: its group and version, and its name.
abbrev pub Kind : Type 0
Kind = String × String

abbrev pub kind_key : Kind → String
kind_key (version, kind) = String.◌++◌ version (String.◌++◌ "/" kind)

unfoldable pub add_discovered : String → List String → Map Kind → Map Kind
add_discovered version [] kinds = kinds
add_discovered version (kind ∷ found) kinds =
    add_discovered version found (insert (kind_key (version, kind)) (version, kind) kinds)

-- The kinds of one group and version of the configuration: `*` stands for those that the discovery
-- finds, and ends the loop, as its error does.
unfoldable pub add_kinds : String → Option (List String) → List String → Map Kind → Map Kind
unfolding add_discovered
add_kinds version discovered [] kinds = kinds
add_kinds version discovered (kind ∷ rest) kinds =
    let next =
      add_kinds version discovered rest (insert (kind_key (version, kind)) (version, kind) kinds) in
    if kind == "*"
    then (elim discovered [ none ↦ kinds | some found ↦ add_discovered version found kinds ])
    else next

-- The loop of `LoadGroupVersionKind` over the configuration.
unfoldable pub load_kinds :
    (String → Option String)
    → (String → Option (List String))
    → List (String × List String)
    → Map Kind
    → Map Kind
unfolding add_kinds
load_kinds parse discover [] kinds = kinds
load_kinds parse discover ((version, names) ∷ config) kinds =
    load_kinds parse discover config (elim (parse version) [
      | none ↦ kinds
      | some parsed ↦ add_kinds parsed (discover version) names kinds
    ])

-- What is listed of one kind in a namespace: an error, which may say that there is no such kind, or
-- the labels of the objects and whether the kind is namespaced.
pub data Listed : Type 0 where
  list_failed : Bool → Listed
  listed : Bool → List (String × Map String) → Listed

-- The patches of the objects of one kind, by their names.
unfoldable pub patches_of : Map String → List (String × Map String) → List (String × Map String)
unfolding should_patch_label
patches_of target [] = []
patches_of target ((name, labels) ∷ objects) =
    let rest = patches_of target objects in
    let patch = should_patch_label labels target in
    if is_empty patch then rest else (name, patch) ∷ rest

-- The kinds that cannot be listed, and the patches that are sent.
pub record Collected : Type 0 where
  pub invalid : List String
  pub patches : List (String × Map String)

unfoldable pub collect_kind : Map String → (Kind → Listed) → Kind → Collected → Collected
unfolding patches_of
collect_kind target list kind c =
    if contains (kind_key kind) c.invalid then c else (elim (list kind) [
      | list_failed true ↦ record c { invalid = Sets.insert (kind_key kind) c.invalid }
      | list_failed false ↦ c
      | listed namespaced objects ↦
          if namespaced then record c { patches = c.patches ++ patches_of target objects } else c
    ])

-- `getResourceInNamespace`: its goroutines, one after the other.
unfoldable pub get_resource_in_namespace :
    LabelNames → Map String → (Kind → Listed) → List Kind → Collected → Collected
unfolding get_sharding_label collect_kind
get_resource_in_namespace names labels list [] c = c
get_resource_in_namespace names labels list (kind ∷ kinds) c =
    get_resource_in_namespace names labels list kinds
      (collect_kind (get_sharding_label names labels) list kind c)
