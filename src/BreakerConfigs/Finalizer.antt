-- ===== src/BreakerConfigs/Finalizer.antt =====
-- When the finalizer of a circuit breaker goes
-- (pkg/manager/controllers/circuitbreaker/circuitbreaker_controller.go).
use controller_mesh.Prelude.{
  String, ◌≡◌, ◌≢◌, ◌∙◌, List, [], ◌∷◌, true, false, Option-cases, contains, lookup, lookup-insert,
  ◌==◌, arith, inl, inr,
}
use controller_mesh.Prelude.Sets
use controller_mesh.BreakerConfigs.{
  PodCache, cache_key, has, delete_config, ProxyPod, is_proxy_available, disable_config,
}
use controller_mesh.BreakerConfigs.Clearing.{
  TargetStatus, got, get_failed, World, Cleared, clear_available, clear_pod, clear,
}
use controller_mesh.BreakerConfigs.Reconcile.{
  Breaker, Updates, protect_finalizer, remove_finalizer, clear_finalized, add_finalizer,
  try_clear_or_add_finalizer,
}

module _ (world : World) (namespace : String) (name : String) where
  open world use {get, disable}

  -- If the cache has the configuration for the pod and the pod can be read and has a proxy, the proxy
  -- has deleted it.
  abbrev pub IsSettled : PodCache → TargetStatus → Type 0
  IsSettled cache st =
      has namespace st.pod_name name cache ≡ true
      → (get st.pod_name ≢ get_failed)
        × ((po : ProxyPod)
            → get st.pod_name ≡ got po
            → is_proxy_available po ≡ true
            → disable_config (disable st.pod_ip) ≡ false)

  abbrev pub AreSettled : PodCache → List TargetStatus → Type 0
  AreSettled cache [] = Unit
  AreSettled cache (st ∷ sts) = IsSettled cache st × AreSettled cache sts

  -- The pod of no later entry has the same key.
  abbrev pub Differs : String → List TargetStatus → Type 0
  Differs key [] = Unit
  Differs key (st ∷ sts) = ((key == cache_key namespace st.pod_name) ≡ false) × Differs key sts

  abbrev pub AreDistinct : List TargetStatus → Type 0
  AreDistinct [] = Unit
  AreDistinct (st ∷ sts) = Differs (cache_key namespace st.pod_name) sts × AreDistinct sts

  has-delete_config-other :
      (a b : String) (cache : PodCache)
      → (cache_key namespace a == cache_key namespace b) ≡ false
      → has namespace b name (delete_config namespace a name cache) ≡ has namespace b name cache
  unfolding has delete_config
  has-delete_config-other a b cache h = elim (Option-cases (lookup (cache_key namespace a) cache)) [
    | inl missing ↦ ground (arith, missing)
    | inr (configs, there) ↦ ground (
      arith,
      there,
      h,
      lookup-insert (cache_key namespace a) (cache_key namespace b) (Sets.delete name configs)
          cache,
    )
  ]

  has-clear_pod-other :
      (st : TargetStatus) (b : String) (c : Cleared)
      → (cache_key namespace st.pod_name == cache_key namespace b) ≡ false
      → has namespace b name (clear_pod world namespace name st c).cache
        ≡ has namespace b name c.cache
  unfolding clear_pod clear_available
  has-clear_pod-other st b c h = ground (arith, has-delete_config-other st.pod_name b c.cache h)

  clear_pod-IsSettled :
      (st : TargetStatus) (c : Cleared)
      → (clear_pod world namespace name st c).error ≡ false
      → (c.error ≡ false) × IsSettled c.cache st
  unfolding clear_pod clear_available
  clear_pod-IsSettled st c h = (
    ground (arith, h),
    λ cached. (
      (λ failed. ground (arith, h, cached, failed)),
      (λ po is_po available. ground (arith, h, cached, is_po, available)),
    ),
  )

  AreSettled-before :
      (st : TargetStatus) (sts : List TargetStatus) (c : Cleared)
      → Differs (cache_key namespace st.pod_name) sts
      → AreSettled (clear_pod world namespace name st c).cache sts
      → AreSettled c.cache sts
  AreSettled-before st [] c d s = s
  AreSettled-before st (t ∷ ts) c (d, ds) (s, ss) = (
    (λ cached. s (has-clear_pod-other st t.pod_name c d ∙ cached)),
    AreSettled-before st ts c ds ss,
  )

  clear-AreSettled :
      (sts : List TargetStatus) (c : Cleared)
      → AreDistinct sts
      → (clear world namespace name sts c).error ≡ false
      → (c.error ≡ false) × AreSettled c.cache sts
  unfolding clear
  clear-AreSettled [] c d h = (h, tt)
  clear-AreSettled (st ∷ sts) c (d, ds) h =
      let (later, rest) = clear-AreSettled sts (clear_pod world namespace name st c) ds h in
      let (earlier, own) = clear_pod-IsSettled st c later in
      (earlier, (own, AreSettled-before st sts c d rest))

-- Where the entries of the status are of different pods, the finalizer of a circuit breaker that has
-- it is gone only if each pod of the status for which the cache has the configuration could be read
-- or was not found, and the proxy of each of them that is available has deleted the configuration.
pub try_clear_or_add_finalizer-AreSettled :
    (world : World) (updates : Updates) (cb : Breaker) (cache : PodCache)
    → AreDistinct world cb.namespace cb.name cb.target_status
    → contains protect_finalizer cb.finalizers ≡ true
    → contains protect_finalizer (try_clear_or_add_finalizer world updates cb cache).finalizers
      ≡ false
    → AreSettled world cb.namespace cb.name cache cb.target_status
unfolding try_clear_or_add_finalizer clear_finalized add_finalizer remove_finalizer
try_clear_or_add_finalizer-AreSettled world updates cb cache distinct had gone =
    let start : Cleared = record { cache = cache; error = false; asked = [] } in
    let none_failed : (clear world cb.namespace cb.name cb.target_status start).error ≡ false =
      ground (arith, had, gone) in
    (clear-AreSettled world cb.namespace cb.name cb.target_status start distinct none_failed).1
