-- ===== src/Namespaces/Patches.antt =====
-- What the patch of a resource's labels does (pkg/manager/controllers/patchrunnable/labelpatch_runnable.go).
use controller_mesh.Prelude.{
  String, [], ◌∷◌, true, Option, none, some, Option-cases, Map, lookup, insert, lookup-insert,
  is_some, ◌≡◌, refl, ap, ◌∙◌, if◌then◌else◌, eq_iff, arith, Bool-cases, inl, inr,
}
use controller_mesh.Proxy.Limits.{IsMap}
use controller_mesh.Namespaces.Webhook.{has_value}
use controller_mesh.Namespaces.Runnable.{patch_from, should_patch_label}

-- The value of the target, or else another one.
abbrev pub or_else : Option String → Option String → Option String
or_else none other = other
or_else (some v) other = some v

-- What the patch has for a key: the value of the target, unless the object has it.
abbrev wanted : Map String → String → Option String → Option String → Option String
wanted old key none other = other
wanted old key (some v) other = if has_value key v old then other else some v

lookup-patch_from :
    (old target patch : Map String) (key : String)
    → IsMap target
    → lookup key (patch_from old target patch)
      ≡ wanted old key (lookup key target) (lookup key patch)
unfolding patch_from lookup
lookup-patch_from old [] patch key m = refl
lookup-patch_from old ((k, v) ∷ target) patch key (absent, m) = ground (
  arith,
  absent,
  eq_iff k key,
  lookup-insert k key v patch,
  lookup-patch_from old target (if has_value k v old then patch else insert k v patch) key m,
)

has_value-lookup :
    (key v : String) (labels : Map String)
    → has_value key v labels ≡ true
    → lookup key labels ≡ some v
unfolding has_value
has_value-lookup key v labels h = elim (Option-cases (lookup key labels)) [
  | inl missing ↦ ground (arith, h, missing)
  | inr (w, there) ↦ ground (arith, h, there, eq_iff w v)
]

wanted-applied :
    (old : Map String) (key : String) (target : Option String)
    → (if is_some (wanted old key target none) then wanted old key target none else lookup key old)
      ≡ or_else target (lookup key old)
wanted-applied old key none = refl
wanted-applied old key (some v) = elim (Bool-cases (has_value key v old)) [
  | inl has ↦ rw has (has_value-lookup key v old has)
  | inr lacks ↦ rw lacks refl
]

-- Where the API server applies a patch as a merge, a patched object has the labels that the target
-- wants, with their values, and beside them its own labels, as they were.
pub should_patch_label_applied :
    (apply : Map String → Map String → Map String)
    → ((patch labels : Map String) (key : String)
        → lookup key (apply patch labels)
          ≡ (if is_some (lookup key patch) then lookup key patch else lookup key labels))
    → (old target : Map String) (key : String) → IsMap target
    → lookup key (apply (should_patch_label old target) old)
      ≡ or_else (lookup key target) (lookup key old)
unfolding should_patch_label lookup
should_patch_label_applied apply merges old target key m =
    merges (should_patch_label old target) old key
    ∙ ap (λ p. if is_some p then p else lookup key old) (lookup-patch_from old target [] key m)
    ∙ wanted-applied old key (lookup key target)
