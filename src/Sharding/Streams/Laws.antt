-- ===== src/Sharding/Streams/Laws.antt =====
-- Which connection of a pod the reconciliation sees
-- (pkg/manager/controllers/shardingconfigserver/grpc_server.go).
use controller_mesh.Prelude.{
  ℕ, suc, ◌<◌, String, [], ◌∷◌, true, false, none, some, Map, lookup, insert, eqb, eqb_refl,
  if◌then◌else◌, ◌==◌, ◌≡◌, refl, ap, ◌∙◌, arith, Bool-cases, inl, inr, lookup-insert, lookup-erase,
  eq_refl,
}
use controller_mesh.Pods.{Pod}
use controller_mesh.Sharding.Reconcile.{ProxyStatus, Connection}
use controller_mesh.Sharding.Streams.{
  Streams, pointed, server_of, set_connection, new_connection, connect, stop,
}

-- No entry of the cache points to the stream.
abbrev pub IsUncached : ℕ → Map ℕ → Type 0
IsUncached id [] = Unit
IsUncached id ((uid, j) ∷ cache) = (eqb j id ≡ false) × IsUncached id cache

-- A connection that the cache does not point to is not seen, whatever is written to it.
pointed-set_connection :
    (id : ℕ) (c : Connection) (connections : ℕ → Connection) (cache : Map ℕ)
    → IsUncached id cache
    → pointed (set_connection id c connections) cache ≡ pointed connections cache
pointed-set_connection id c connections [] h = refl
pointed-set_connection id c connections ((uid, j) ∷ cache) (e, h) =
    rw (e, pointed-set_connection id c connections cache h) refl

pointed-insert :
    (uid : String) (id : ℕ) (connections : ℕ → Connection) (cache : Map ℕ)
    → pointed connections (insert uid id cache)
      ≡ insert uid (connections id) (pointed connections cache)
unfolding insert
pointed-insert uid id connections [] = refl
pointed-insert uid id connections ((k, j) ∷ cache) = elim (Bool-cases (k == uid)) [
  | inl e ↦ rw (e, pointed, insert) refl
  | inr e ↦
      rw (e, pointed, insert)
        (ap (λ m. (k, connections j) ∷ m) (pointed-insert uid id connections cache))
]

-- The numbers of the streams in the cache have been given out.
abbrev pub AreBelow : ℕ → Map ℕ → Type 0
AreBelow n [] = Unit
AreBelow n ((uid, j) ∷ cache) = (j < n) × AreBelow n cache

abbrev pub IsNumbered : Streams → Type 0
IsNumbered s = AreBelow s.next s.cache

AreBelow-suc : (n : ℕ) (cache : Map ℕ) → AreBelow n cache → AreBelow (suc n) cache
AreBelow-suc n [] h = tt
AreBelow-suc n ((uid, j) ∷ cache) (lt, h) = (omega (arith, lt), AreBelow-suc n cache h)

AreBelow-insert :
    (n : ℕ) (key : String) (cache : Map ℕ)
    → AreBelow n cache
    → AreBelow (suc n) (insert key n cache)
unfolding insert
AreBelow-insert n key [] h = (omega arith, tt)
AreBelow-insert n key ((k, j) ∷ cache) (lt, h) = elim (Bool-cases (k == key)) [
  | inl e ↦ rw (e, insert) (omega arith, AreBelow-suc n cache h)
  | inr e ↦ rw (e, insert) (omega (arith, lt), AreBelow-insert n key cache h)
]

IsUncached-AreBelow : (n : ℕ) (cache : Map ℕ) → AreBelow n cache → IsUncached n cache
IsUncached-AreBelow n [] h = tt
IsUncached-AreBelow n ((uid, j) ∷ cache) (lt, h) =
    (ground (arith, lt), IsUncached-AreBelow n cache h)

seen_after_connect :
    (p : Pod) (status : ProxyStatus) (s : Streams)
    → IsNumbered s
    → pointed
        (set_connection s.next (new_connection status) s.connections)
        (insert p.uid s.next s.cache)
      ≡ insert p.uid (new_connection status) (pointed s.connections s.cache)
seen_after_connect p status s h =
    let connections = set_connection s.next (new_connection status) s.connections in
    let new : connections s.next ≡ new_connection status = rw (eqb_refl s.next) refl in
    pointed-insert p.uid s.next connections s.cache
    ∙ (ap (λ c. insert p.uid c (pointed connections s.cache)) new
        ∙ ap (insert p.uid (new_connection status)) (
            pointed-set_connection s.next (new_connection status) s.connections s.cache
              (IsUncached-AreBelow s.next s.cache h)))

-- Where the numbers in the cache have been given out, which stays so: after a pod has connected, the
-- reconciliation sees, of this pod, a connection with the status of the first message to which
-- nothing has been sent, and expects no hash of it; of every other pod it sees what it saw.
pub connect-IsNumbered :
    (p : Pod) (status : ProxyStatus) (s : Streams) (at : String)
    → IsNumbered s
    → IsNumbered (connect p status s)
      × ((lookup at (server_of (connect p status s)).connections ≡ (
            if p.uid == at
            then some (new_connection status)
            else lookup at (server_of s).connections))
          × (lookup at (server_of (connect p status s)).pod_hash_expectation
              ≡ (if p.uid == at then none else lookup at (server_of s).pod_hash_expectation)))
unfolding connect server_of
connect-IsNumbered p status s at h = (
  AreBelow-insert s.next p.uid s.cache h,
  (
    ap (lookup at) (seen_after_connect p status s h)
        ∙ lookup-insert p.uid at (new_connection status) (pointed s.connections s.cache),
    lookup-erase p.uid at s.pod_hash_expectation,
  ),
)

-- The end of a stream that the cache no longer points to leaves all connections that the
-- reconciliation sees, and still takes away the hash that is expected of the pod.
pub stop-IsUncached :
    (id : ℕ) (p : Pod) (s : Streams)
    → IsUncached id s.cache
    → ((server_of (stop id p s)).connections ≡ (server_of s).connections)
      × (lookup p.uid (server_of (stop id p s)).pod_hash_expectation ≡ none)
unfolding stop server_of
stop-IsUncached id p s h = (
  pointed-set_connection id (record (s.connections id) { disconnected = true }) s.connections
      s.cache h,
  lookup-erase p.uid p.uid s.pod_hash_expectation ∙ rw (eq_refl p.uid) refl,
)
