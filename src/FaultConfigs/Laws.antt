-- ===== src/FaultConfigs/Laws.antt =====
-- What is left in the cache when a fault has been taken out of the proxies
-- (pkg/manager/controllers/faultinjection/faultinject_controller.go).
use Prim.Native.String
use text.Mathlib.TextLemmas.{append_cancel_left}
use controller_mesh.Prelude.{
  String, List, [], ◌∷◌, Bool, true, false, not, ◌&&◌, any, lookup, lookup-insert, ◌≡◌, sym, ap,
  ◌∙◌, ◌==◌, eq_iff, eq_refl, arith, Option-cases, inl, inr, Bool-cases,
}
use controller_mesh.Prelude.Sets
use controller_mesh.BreakerConfigs.Clearing.{got, not_found, get_failed, Cleared}
use controller_mesh.FaultConfigs.Cache.{
  FaultCache, fault_cache_key, has_fault, delete_fault_config, is_fault_proxy_available,
}
use controller_mesh.FaultConfigs.{
  FaultTarget, FaultWorld, disable_fault, clear_fault_available, clear_fault_pod, clear_faults,
}

fault_cache_key_inj :
    (namespace a b : String) → fault_cache_key namespace a ≡ fault_cache_key namespace b → a ≡ b
unfolding fault_cache_key
fault_cache_key_inj namespace a b e =
    append_cancel_left "/" a b
      (append_cancel_left namespace (String.◌++◌ "/" a) (String.◌++◌ "/" b) e)

-- Two pods of a namespace have one key exactly if they have one name.
key_same :
    (namespace a b : String)
    → (fault_cache_key namespace a == fault_cache_key namespace b) ≡ (a == b)
key_same namespace a b = elim (Bool-cases (a == b)) [
  | inl e ↦
      ap (λ n. fault_cache_key namespace n == fault_cache_key namespace b) ((eq_iff a b).0 e)
      ∙ eq_refl (fault_cache_key namespace b)
      ∙ sym e
  | inr e ↦ elim (Bool-cases (fault_cache_key namespace a == fault_cache_key namespace b)) [
    | inl same ↦ absurd (
        ground (
          arith,
          e,
          (eq_iff a b).1 (
              fault_cache_key_inj namespace a b
                ((eq_iff (fault_cache_key namespace a) (fault_cache_key namespace b)).0 same)),
        ))
    | inr other ↦ other ∙ sym e
  ]
]

module _ (w : FaultWorld) (namespace name : String) where
  open w use {get, disable}

  has_fault-delete_fault_config :
      (a b : String) (cache : FaultCache)
      → has_fault namespace b name (delete_fault_config namespace a name cache)
        ≡ (has_fault namespace b name cache && not (a == b))
  unfolding has_fault delete_fault_config
  has_fault-delete_fault_config a b cache =
      let ka = fault_cache_key namespace a in
      let kb = fault_cache_key namespace b in
      let keys = key_same namespace a b in
      let same = λ (e : (ka == kb) ≡ true). ap (λ k. lookup k cache) ((eq_iff ka kb).0 e) in
      elim (Option-cases (lookup ka cache)) [
        | inl missing ↦ ground (arith, missing, keys, same)
        | inr (faults, there) ↦ ground (
          arith,
          there,
          keys,
          same,
          lookup-insert ka kb (Sets.delete name faults) cache,
          Sets.contains-delete name name faults,
          eq_refl name,
        )
      ]

  -- The pod of the entry is gone, or its proxy is available and has deleted the fault.
  abbrev pub is_settled : FaultTarget → Bool
  is_settled st = elim (get st.pod_name) [
    | not_found ↦ true
    | get_failed ↦ false
    | got po ↦ is_fault_proxy_available po && not (disable_fault (disable st.pod_ip))
  ]

  has_fault-clear_fault_pod :
      (st : FaultTarget) (b : String) (c : Cleared)
      → has_fault namespace b name (clear_fault_pod w namespace name st c).cache
        ≡ (has_fault namespace b name c.cache && not (st.pod_name == b && is_settled st))
  unfolding clear_fault_pod clear_fault_available
  has_fault-clear_fault_pod st b c =
      ground (arith, has_fault-delete_fault_config st.pod_name b c.cache, eq_iff st.pod_name b)

  -- After the clearing of a fault the cache has it for a pod exactly if it had it before and no entry
  -- of the status for this pod is settled: the pod is gone, or its proxy is available and has deleted
  -- the fault.
  pub has_fault-clear_faults :
      (sts : List FaultTarget) (b : String) (c : Cleared)
      → has_fault namespace b name (clear_faults w namespace name sts c).cache ≡ (
          has_fault namespace b name c.cache
          && not (any (λ st. st.pod_name == b && is_settled st) sts))
  unfolding clear_faults
  has_fault-clear_faults [] b c = ground arith
  has_fault-clear_faults (st ∷ sts) b c = ground (
    arith,
    has_fault-clear_fault_pod st b c,
    has_fault-clear_faults sts b (clear_fault_pod w namespace name st c),
  )
