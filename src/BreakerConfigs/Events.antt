-- ===== src/BreakerConfigs/Events.antt =====
-- What puts circuit breakers and faults into the queue of their controller: the handlers of pods
-- (event_handler.go), the filter of changes (filter.go) and the deletions that are repeated (cache.go),
-- in pkg/manager/controllers/circuitbreaker and, alike, in pkg/manager/controllers/faultinjection.
use controller_mesh.Prelude.{
  String, List, [], ◌∷◌, map, Bool, true, false, not, ◌&&◌, ◌||◌, Option, none, some, Map, lookup,
  length, contains, if◌then◌else◌, ◌==◌, ◌>>=◌, eqb,
}
use controller_mesh.Selectors.{LabelSelector}
use controller_mesh.BreakerConfigs.{
  PodCache, delete_pod, ProxyPod, is_proxy_available, Answer, disable_config,
}
use controller_mesh.BreakerConfigs.Clearing.{Got, got, not_found, get_failed}
use controller_mesh.BreakerConfigs.Reconcile.{Breaker}

-- A resource of the list that the cache gives.
pub record Selecting : Type 0 where
  pub namespace : String
  pub name : String
  pub selector : Option LabelSelector

pub record LabelledPod : Type 0 where
  pub pod : ProxyPod
  pub labels : Map String

unfoldable pub sidecar_injected : ProxyPod → Bool
sidecar_injected po = contains "ctrlmesh-proxy" po.containers

-- The requests that are added to the queue, by namespace and name.
abbrev pub requests_of : List Selecting → List (String × String)
requests_of items = map (λ i. (i.namespace, i.name)) items

-- An error is printed, and nothing is added.
abbrev pub requests : Option (List Selecting) → List (String × String)
requests none = []
requests (some items) = requests_of items

abbrev pub differ : Bool → Bool → Bool
differ a b = if a then not b else b

-- `as_selector` is `LabelSelectorAsSelector`, with `none` for an error, and `listed` the list of all
-- resources, `none` where it cannot be had.
module _ (as_selector : Option LabelSelector → Option (Map String → Bool))
    (listed : Option (List Selecting)) where
  abbrev pub kept_by : ((Map String → Bool) → Bool) → List Selecting → Option (List Selecting)
  kept_by keep [] = some []
  kept_by keep (b ∷ bs) =
      let kept = kept_by keep bs in
      (do
        matches ← as_selector b.selector
        rest ← kept
        some (if keep matches then b ∷ rest else rest))

  unfoldable pub effective_breakers : LabelledPod → Option (List Selecting)
  effective_breakers po = do bs ← listed; kept_by (λ matches. matches po.labels) bs

  unfoldable pub match_changed_breakers : LabelledPod → LabelledPod → Option (List Selecting)
  match_changed_breakers old new = do
    bs ← listed
    kept_by (λ matches. differ (matches old.labels) (matches new.labels)) bs

  unfoldable pub on_create : LabelledPod → List (String × String)
  unfolding effective_breakers sidecar_injected is_proxy_available
  on_create po =
      if sidecar_injected po.pod && is_proxy_available po.pod
      then requests (effective_breakers po)
      else []

  unfoldable pub on_update : LabelledPod → LabelledPod → List (String × String)
  unfolding effective_breakers match_changed_breakers sidecar_injected is_proxy_available
  on_update old new =
      if not (sidecar_injected old.pod) || not (is_proxy_available new.pod)
      then []
      else if not (is_proxy_available old.pod)
      then requests (effective_breakers new)
      else requests (match_changed_breakers old new)

abbrev pub on_delete : String → String → PodCache → PodCache
on_delete namespace name cache = delete_pod namespace name cache

-- The label behind `disable_key` exists or has a value in one of the two only, or another value.
abbrev pub label_changed : Option String → Option String → Bool
label_changed none none = false
label_changed none (some b) = true
label_changed (some a) none = true
label_changed (some a) (some b) = not (a == b)

-- `Update` of the predicate: whether a change of the resource is to be reconciled.
unfoldable pub is_relevant : String → Breaker → Breaker → Bool
is_relevant disable_key old new =
    if new.deleted || not (eqb (length old.finalizers) (length new.finalizers))
    then true
    else if label_changed (lookup disable_key old.labels) (lookup disable_key new.labels)
    then true
    else not (old.hash == new.hash)

-- What is done with an item of the queue of deletions: whether it is to be repeated.
unfoldable pub process_deletion : Got → (ProxyPod → Answer) → Bool
unfolding disable_config
process_deletion not_found disable = false
process_deletion get_failed disable = true
process_deletion (got po) disable = if po.deleted then false else disable_config (disable po)
