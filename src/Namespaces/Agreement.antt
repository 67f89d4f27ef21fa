-- ===== src/Namespaces/Agreement.antt =====
-- The labelling at the start and the webhooks agree (pkg/webhook/ns/namespace_mutating_handler.go,
-- pkg/manager/controllers/patchrunnable/labelpatch_runnable.go).
use controller_mesh.Prelude.{
  String, true, false, ◌||◌, Map, lookup, insert, lookup-insert, is_some, ◌≡◌, refl, ap, ◌∙◌,
  if◌then◌else◌, ◌==◌, eq_iff, eq_refl, arith, Bool-cases, inl, inr,
}
use controller_mesh.Namespaces.{LabelNames, hash_label}
use controller_mesh.Namespaces.Webhook.{has_value, ensure, should_update_ns}
use controller_mesh.Namespaces.Runnable.{update_uncontrolled, update_controlled, update_label}

-- The three names are different.
pub record AreDistinct (names : LabelNames) : Type 0 where
  pub hash_control : (names.shard_hash == names.mesh_control) ≡ false
  pub hash_namespace : (names.shard_hash == names.namespace) ≡ false
  pub namespace_control : (names.namespace == names.mesh_control) ≡ false

-- A namespace has the three labels that the webhook asks for.
pub record IsLabelled (names : LabelNames) (name : String) (labels : Map String) : Type 0 where
  pub control : is_some (lookup names.mesh_control labels) ≡ true
  pub shard : has_value names.namespace name labels ≡ true
  pub hash : has_value names.shard_hash (hash_label name) labels ≡ true

has_value-insert :
    (key other value v : String) (labels : Map String)
    → has_value other v (insert key value labels)
      ≡ (if key == other then value == v else has_value other v labels)
unfolding has_value
has_value-insert key other value v labels = ground (arith, lookup-insert key other value labels)

is_some-insert :
    (key other value : String) (labels : Map String)
    → is_some (lookup other (insert key value labels))
      ≡ (key == other || is_some (lookup other labels))
is_some-insert key other value labels = ground (arith, lookup-insert key other value labels)

should_update_ns-IsLabelled :
    (names : LabelNames) (name : String) (labels : Map String)
    → IsLabelled names name labels
    → should_update_ns names name labels ≡ record { labels = labels; changed = false }
unfolding should_update_ns ensure
should_update_ns-IsLabelled names name labels l = rw (l.control, l.shard, l.hash) refl

module _ (names : LabelNames) (name : String) (distinct : AreDistinct names) where
  both-IsLabelled :
      (labels : Map String)
      → is_some (lookup names.mesh_control labels) ≡ true
      → IsLabelled names name
          (insert names.shard_hash (hash_label name) (insert names.namespace name labels))
  both-IsLabelled labels control = record {
    control =
        is_some-insert names.shard_hash names.mesh_control (hash_label name)
          (insert names.namespace name labels)
        ∙ ground (
          arith,
          distinct.hash_control,
          distinct.namespace_control,
          control,
          is_some-insert names.namespace names.mesh_control name labels,
        );
    shard = ground (
      arith,
      distinct.hash_namespace,
      eq_refl name,
      eq_refl names.namespace,
      has_value-insert names.shard_hash names.namespace (hash_label name) name
          (insert names.namespace name labels),
      has_value-insert names.namespace names.namespace name name labels,
    );
    hash = ground (
      arith,
      eq_refl (hash_label name),
      eq_refl names.shard_hash,
      has_value-insert names.shard_hash names.shard_hash (hash_label name) (hash_label name)
          (insert names.namespace name labels),
    );
  }

  namespace-IsLabelled :
      (labels : Map String)
      → is_some (lookup names.mesh_control labels) ≡ true
      → has_value names.shard_hash (hash_label name) labels ≡ true
      → IsLabelled names name (insert names.namespace name labels)
  namespace-IsLabelled labels control hash = record {
    control = ground (
      arith,
      distinct.namespace_control,
      control,
      is_some-insert names.namespace names.mesh_control name labels,
    );
    shard = ground (
      arith,
      eq_refl name,
      eq_refl names.namespace,
      has_value-insert names.namespace names.namespace name name labels,
    );
    hash = ground (
      arith,
      distinct.hash_namespace,
      hash,
      eq_iff names.shard_hash names.namespace,
      eq_iff names.namespace names.shard_hash,
      has_value-insert names.namespace names.shard_hash name (hash_label name) labels,
    );
  }

  update_controlled-IsLabelled :
      (labels : Map String)
      → is_some (lookup names.mesh_control labels) ≡ true
      → IsLabelled names name (update_controlled names name labels).labels
  unfolding update_controlled
  update_controlled-IsLabelled labels control =
      elim (Bool-cases (has_value names.shard_hash (hash_label name) labels)) [
        | inr missing ↦ rw (missing, update_controlled) (both-IsLabelled labels control)
        | inl hash ↦ elim (Bool-cases (has_value names.namespace name labels)) [
          | inr missing ↦
              rw (hash, missing, update_controlled) (namespace-IsLabelled labels control hash)
          | inl shard ↦
              rw (hash, shard, update_controlled)
                (record { control = control; shard = shard; hash = hash })
        ]
      ]

  update_uncontrolled-IsLabelled :
      (labels : Map String)
      → (update_uncontrolled names name labels).error ≡ false
      → IsLabelled names name (update_uncontrolled names name labels).labels
  unfolding update_uncontrolled
  update_uncontrolled-IsLabelled labels h =
      elim (Bool-cases
        (is_some (lookup names.shard_hash labels) || is_some (lookup names.namespace labels))) [
          | inl conflict ↦ cc (rw conflict at h)
          | inr free ↦ rw free (
              both-IsLabelled (insert names.mesh_control "true" labels) (
                is_some-insert names.mesh_control names.mesh_control "true" labels
                ∙ ap (λ b. b || is_some (lookup names.mesh_control labels))
                    (eq_refl names.mesh_control)))
        ]

  update_label-IsLabelled :
      (labels : Map String)
      → (update_label names name labels).error ≡ false
      → IsLabelled names name (update_label names name labels).labels
  unfolding update_label
  update_label-IsLabelled labels h =
      elim (Bool-cases (is_some (lookup names.mesh_control labels))) [
        | inl control ↦ rw control (update_controlled-IsLabelled labels control)
        | inr control ↦ rw control (update_uncontrolled-IsLabelled labels (rw control at h))
      ]

  -- Where the names of the labels are different: a namespace that the labelling at the start has
  -- dealt with, without an error, has all that the webhook asks for, which changes nothing in it.
  pub should_update_ns-update_label :
      (labels : Map String)
      → (update_label names name labels).error ≡ false
      → should_update_ns names name (update_label names name labels).labels
        ≡ record { labels = (update_label names name labels).labels; changed = false }
  should_update_ns-update_label labels h =
      should_update_ns-IsLabelled names name (update_label names name labels).labels
        (update_label-IsLabelled labels h)
