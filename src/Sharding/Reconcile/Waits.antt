-- ===== src/Sharding/Reconcile/Waits.antt =====
-- When a reconciliation waits for a pod
-- (pkg/manager/controllers/shardingconfigserver/shardingconfig_controller.go).
use controller_mesh.Prelude.{
  ℕ, String, ◌≡◌, refl, ◌∙◌, ap, ◌⊎◌, inl, inr, List, [], ◌∷◌, ◌++◌, Bool, true, some, lookup,
  lookup-erase, contains, eq_iff, arith, Bool-cases,
}
use controller_mesh.Pods.{Pod, is_pod_active}
use controller_mesh.Sharding.Reconcile.{
  Connection, Server, Step, stop, pass, keep, unreported, filter_pod, Filtered, skip, go,
  filter_next, prepend, filter_pods, reconcile,
}

-- A connected pod was sent a hash that it has not reported.
pub record Unreported (s : Server) (p : Pod) : Type 0 where
  pub conn : Connection
  pub hash : String
  pub connects : lookup p.uid s.connections ≡ some conn
  pub expects : lookup p.uid s.pod_hash_expectation ≡ some hash
  pub differs : unreported hash conn.status ≡ true

-- An active pod whose deletion has been asked for, or which has not reported its hash.
abbrev pub IsAwaited : Server → Pod → Type 0
IsAwaited s p =
    (is_pod_active p ≡ true) × ((contains p.uid s.pod_deletion_expectation ≡ true) ⊎ Unreported s p)

abbrev IsSkip : Filtered × Server → Type 0
IsSkip r = (n : ℕ) × (r.0 ≡ skip n)

abbrev IsStop : Step × Server → Type 0
IsStop r = (n : ℕ) × (r.0 ≡ stop n)

filter_pod-IsStop : (s : Server) (p : Pod) → IsAwaited s p → IsStop (filter_pod p s)
unfolding filter_pod
filter_pod-IsStop s p (active, inl deleted) = (0, rw (active, deleted, filter_pod) refl)
filter_pod-IsStop s p (active, inr u) =
    elim (Bool-cases (contains p.uid s.pod_deletion_expectation)) [
      | inl e ↦ (0, rw (active, e, filter_pod) refl)
      | inr e ↦ elim (Bool-cases (u.conn.disconnected)) [
        | inl d ↦ (0, rw (active, e, u.connects, d, filter_pod) refl)
        | inr d ↦ (0, rw (active, e, u.connects, d, u.expects, u.differs, filter_pod) refl)
      ]
    ]

-- The two fields that no round of the first loop changes.
filter_pod-fields :
    (s : Server) (q : Pod)
    → let t = (filter_pod q s).1 in
      (t.connections ≡ s.connections) × (t.pod_deletion_expectation ≡ s.pod_deletion_expectation)
unfolding filter_pod
filter_pod-fields s q = ground arith

filter_pod-expects :
    (s : Server) (q p : Pod) (u : Unreported s p)
    → lookup p.uid ((filter_pod q s).1).pod_hash_expectation ≡ some u.hash
unfolding filter_pod
filter_pod-expects s q p u = ground (
  arith,
  lookup-erase q.uid p.uid s.pod_hash_expectation,
  eq_iff q.uid p.uid,
  u.connects,
  u.expects,
  u.differs,
)

filter_pod-IsAwaited : (s : Server) (q p : Pod) → IsAwaited s p → IsAwaited ((filter_pod q s).1) p
filter_pod-IsAwaited s q p (active, inl deleted) =
    (active, inl (ap (contains p.uid) ((filter_pod-fields s q).1) ∙ deleted))
filter_pod-IsAwaited s q p (active, inr u) = (
  active,
  inr (record {
    conn = u.conn;
    hash = u.hash;
    connects = ap (lookup p.uid) ((filter_pod-fields s q).0) ∙ u.connects;
    expects = filter_pod-expects s q p u;
    differs = u.differs;
  }),
)

filter_next-IsSkip :
    (r : Step × Server) (rest : Server → Filtered × Server)
    → IsSkip (rest r.1)
    → IsSkip (filter_next r rest)
filter_next-IsSkip (stop n, s) rest h = (n, refl)
filter_next-IsSkip (pass, s) rest h = h
filter_next-IsSkip (keep p, s) rest (n, h) = (n, prepend-skip (rest s) h)
  where
    prepend-skip : (r : Filtered × Server) → r.0 ≡ skip n → (prepend p r).0 ≡ skip n
    prepend-skip (skip m, t) h = h
    prepend-skip (go ps, t) h = ground (arith, h)

filter_next-IsStop :
    (r : Step × Server) (rest : Server → Filtered × Server) → IsStop r → IsSkip (filter_next r rest)
filter_next-IsStop (stop n, s) rest h = (n, refl)
filter_next-IsStop (pass, s) rest (n, h) = ground (arith, h)
filter_next-IsStop (keep p, s) rest (n, h) = ground (arith, h)

filter_pods-IsSkip :
    (before after : List Pod) (p : Pod) (s : Server)
    → IsAwaited s p
    → IsSkip (filter_pods (before ++ p ∷ after) s)
unfolding filter_pods
filter_pods-IsSkip [] after p s h =
    filter_next-IsStop (filter_pod p s) (λ t. filter_pods after t) (filter_pod-IsStop s p h)
filter_pods-IsSkip (q ∷ before) after p s h =
    filter_next-IsSkip (filter_pod q s) (λ t. filter_pods (before ++ p ∷ after) t)
      (filter_pods-IsSkip before after p ((filter_pod q s).1) (filter_pod-IsAwaited s q p h))

-- As long as one of the active pods of a configuration is expected to be gone, or is connected and
-- has not reported the hash that was last sent to it, the reconciliation deletes no pod and sends
-- nothing, whatever the other pods are.
pub reconcile_awaits :
    (delete_fails send_fails : Pod → Bool) (hash : String) (before after : List Pod) (p : Pod)
    (s : Server)
    → IsAwaited s p
    → (reconcile delete_fails send_fails hash (before ++ p ∷ after) s).actions ≡ []
unfolding reconcile
reconcile_awaits delete_fails send_fails hash before after p s h =
    let (n, e) = filter_pods-IsSkip before after p s h in rw (e, reconcile) refl
