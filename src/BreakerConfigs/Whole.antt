-- ===== src/BreakerConfigs/Whole.antt =====
-- All of Reconcile of pkg/manager/controllers/circuitbreaker/circuitbreaker_controller.go.
use controller_mesh.Prelude.{
  String, List, is_empty, Bool, true, false, not, ◌&&◌, ◌||◌, Option, none, some, if◌then◌else◌,
  ◌==◌,
}
use controller_mesh.BreakerConfigs.{PodCache, ProxyPod, Answer}
use controller_mesh.BreakerConfigs.Clearing.{TargetStatus, World}
use controller_mesh.BreakerConfigs.Reconcile.{
  Breaker, Sent, reconcile, Updates, Finalized, try_clear_or_add_finalizer,
}

-- What `r.Get` gives: the resource, with the field `CurrentSpecHash` of its status.
pub data Read : Type 0 where
  read_missing : Read
  read_error : Read
  read_found : Breaker → String → Read

-- Whether an error is returned, whether the resource is to be reconciled again after the default
-- time, what the API server then has of it, and the cache.
pub record Ended : Type 0 where
  pub error : Bool
  pub requeue : Bool
  pub finalizers : List String
  pub spec_hash : String
  pub target_status : List TargetStatus
  pub cache : PodCache

abbrev pub left_alone : Bool → Breaker → String → PodCache → Ended
left_alone error cb spec_hash cache = record {
  error = error;
  requeue = not error;
  finalizers = cb.finalizers;
  spec_hash = spec_hash;
  target_status = cb.target_status;
  cache = cache;
}

-- `same_status` is the semantic equality of lists of target states, and `pods` the selected pods, if
-- they can be listed.
module _ (same_status : List TargetStatus → List TargetStatus → Bool) (world : World)
    (send : String → Answer) (updates : Updates) (pods : Option (List ProxyPod)) where
  -- The end, which writes the status where it has changed.
  abbrev pub write_status : Breaker → String → Sent → Ended
  write_status cb spec_hash sent =
      if cb.hash == spec_hash && same_status sent.target_status cb.target_status
      then left_alone sent.error cb spec_hash sent.cache
      else if updates.status_update_fails
      then left_alone true cb spec_hash sent.cache
      else record (left_alone sent.error cb cb.hash sent.cache) {
        target_status = sent.target_status;
      }

  abbrev pub reconcile_pods : Breaker → String → PodCache → Ended
  reconcile_pods cb spec_hash cache = elim pods [
    | none ↦ left_alone true cb spec_hash cache
    | some pos ↦ write_status cb spec_hash (reconcile world send cb pos cache)
  ]

  -- A status that was written to clear the pods of it has no hash.
  abbrev pub cleared_end : Breaker → String → Finalized → Ended
  cleared_end cb spec_hash f = record {
    error = f.error;
    requeue = false;
    finalizers = f.finalizers;
    spec_hash =
        if is_empty f.target_status && not (is_empty cb.target_status) then "" else spec_hash;
    target_status = f.target_status;
    cache = f.cache;
  }

  abbrev pub reconcile_found : Breaker → String → Finalized → Ended
  reconcile_found cb spec_hash f =
      if f.error || f.should_clear
      then cleared_end cb spec_hash f
      else reconcile_pods (record cb { finalizers = f.finalizers }) spec_hash f.cache

  -- `none` where there is no resource to say anything of.
  unfoldable pub reconcile_breaker : Read → PodCache → Option Ended
  unfolding reconcile try_clear_or_add_finalizer
  reconcile_breaker read_missing cache = none
  reconcile_breaker read_error cache = none
  reconcile_breaker (read_found cb spec_hash) cache =
      some (reconcile_found cb spec_hash (try_clear_or_add_finalizer world updates cb cache))
