-- ===== src/Proxy/Election/Laws.antt =====
-- Which lock a shard uses, and when its proxy says that it leads
-- (pkg/proxy/leaderelection/handler.go).
use Prim.Native.String.{◌++◌}
use controller_mesh.Prelude.{
  ℕ, String, true, false, ◌&&◌, ◌||◌, Option, none, some, ◌≡◌, refl, ap, ◌∙◌, if◌then◌else◌, ◌==◌,
  eqb, eq_iff, eq_refl, arith, Bool-cases, inl, inr,
}
use controller_mesh.Proxy.Specs.{LeaderElectionState, SpecManager, update_leader_election}
use controller_mesh.Proxy.Election.{
  set_subset_into_name, RequestInfo, Lock, Request, Handler, is_about_lock, is_lock_resource,
  lock_of_shard, handle_create, handle_get, decoded, handle_update, handle_verb, handle, respond,
}
use controller_mesh.Proxy.Election.Paths.{last_replace-end}

-- The identity that a request claims to lead for, if it is one that renews or makes the lock.
abbrev pub claimed_by : Handler → String → Option Lock → Option String
claimed_by h verb none = none
claimed_by h verb (some lock) =
    if verb == "update" || verb == "create" && lock.name == h.lock_name
    then lock.hold_identity
    else none

abbrev pub claimed : Handler → RequestInfo → Option Lock → Option String
claimed h info body =
    if is_about_lock h info && is_lock_resource info then claimed_by h info.verb body else none

abbrev pub leads_as : Option String → Option LeaderElectionState → Option LeaderElectionState
leads_as none before = before
leads_as (some identity) before = some (record { identity = identity; is_leader = true })

create_not_update : (verb : String) → verb == "create" ≡ true → verb == "update" ≡ false
create_not_update verb e = ap (λ v. v == "update") ((eq_iff verb "create").0 e)

modify_response-create :
    (h : Handler) (r : Request) (lock : Lock)
    → (handle_create h r lock).modify_response
      ≡ (if lock.name == h.lock_name then lock.hold_identity else none)
modify_response-create h r lock = grind arith

modify_response-update :
    (r : Request) (lock : Lock) → (handle_update r lock).modify_response ≡ lock.hold_identity
modify_response-update r lock = grind arith

modify_response-verb :
    (h : Handler) (verb path : String) (body : Option Lock)
    → (handle_verb h verb (record { path = path; body = body })).modify_response
      ≡ claimed_by h verb body
unfolding handle_verb
modify_response-verb h verb path none = grind arith
modify_response-verb h verb path (some lock) =
    let r : Request = record { path = path; body = some lock } in
    grind (
      arith,
      create_not_update verb,
      modify_response-create h r lock,
      modify_response-update r lock,
    )

modify_response-claimed :
    (h : Handler) (info : RequestInfo) (path : String) (body : Option Lock)
    → (handle h info (record { path = path; body = body })).modify_response ≡ claimed h info body
unfolding handle
modify_response-claimed h info path body =
    elim (Bool-cases (is_about_lock h info && is_lock_resource info)) [
      | inl e ↦ rw e (modify_response-verb h info.verb path body)
      | inr e ↦ rw e refl
    ]

respond-leads :
    (o : Option String) (code : ℕ) (sm : SpecManager)
    → (respond o code sm).leader_election_state
      ≡ leads_as (if eqb code 200 then o else none) sm.leader_election_state
unfolding respond update_leader_election
respond-leads none code sm = ground arith
respond-leads (some identity) code sm = ground arith

-- The state of the leader election of a proxy changes only where the response to a request has the
-- code 200 and the request updates a lock, or creates the lock of the handler, and has an identity:
-- then the proxy leads under this identity.
pub leader_election_state-handle :
    (h : Handler) (info : RequestInfo) (r : Request) (code : ℕ) (sm : SpecManager)
    → (respond (handle h info r).modify_response code sm).leader_election_state
      ≡ leads_as (if eqb code 200 then claimed h info r.body else none) sm.leader_election_state
leader_election_state-handle h info r code sm =
    respond-leads ((handle h info r).modify_response) code sm
    ∙ ap (λ o. leads_as (if eqb code 200 then o else none) sm.leader_election_state)
        (modify_response-claimed h info r.path r.body)

path-handle_get :
    (h : Handler) (base : String) (body : Option Lock)
    → (handle_get h (record { path = base ++ h.lock_name; body = body })).request.path
      ≡ base ++ lock_of_shard h
path-handle_get h base body = elim (Bool-cases (h.sharding_config == "")) [
  | inl e ↦ rw e refl
  | inr e ↦
      rw e (last_replace-end base h.lock_name (set_subset_into_name h.lock_name h.sharding_config))
]

body-handle_create :
    (h : Handler) (path identity : String)
    → let lock : Lock = record { name = h.lock_name; hold_identity = some identity } in
      (handle_create h (record { path = path; body = some lock }) lock).request.body
      ≡ some (record lock { name = lock_of_shard h })
body-handle_create h path identity = elim (Bool-cases (h.sharding_config == "")) [
  | inl e ↦ rw (eq_refl h.lock_name, e) refl
  | inr e ↦ rw (eq_refl h.lock_name, e) refl
]

path-handle :
    (h : Handler) (info : RequestInfo) (r : Request)
    → info.verb ≡ "get"
    → (is_about_lock h info && is_lock_resource info) ≡ true
    → (handle h info r).request.path ≡ (handle_get h r).request.path
unfolding handle handle_verb
path-handle h info r v a = rw (a, v) refl

body-handle :
    (h : Handler) (info : RequestInfo) (r : Request)
    → info.verb ≡ "create"
    → (is_about_lock h info && is_lock_resource info) ≡ true
    → (handle h info r).request.body ≡ (decoded r (handle_create h r)).request.body
unfolding handle handle_verb
body-handle h info r v a = rw (a, v) refl

-- For a handler whose guards a get and a create pass: the path of the get, where it ends with the
-- name of the lock, and the object of the create, where it has this name and an identity, are led to
-- one lock, that of the shard.
pub handle-lock_of_shard :
    (h : Handler) (get create : RequestInfo) (base path identity : String) (body : Option Lock)
    → get.verb ≡ "get"
    → (is_about_lock h get && is_lock_resource get) ≡ true
    → create.verb ≡ "create"
    → (is_about_lock h create && is_lock_resource create) ≡ true
    → let lock : Lock = record { name = h.lock_name; hold_identity = some identity } in
      let read : Request = record { path = base ++ h.lock_name; body = body } in
      let made : Request = record { path = path; body = some lock } in
      ((handle h get read).request.path ≡ base ++ lock_of_shard h)
      × ((handle h create made).request.body ≡ some (record lock { name = lock_of_shard h }))
handle-lock_of_shard h get create base path identity body g a c b =
    let lock : Lock = record { name = h.lock_name; hold_identity = some identity } in
    (
      path-handle h get (record { path = base ++ h.lock_name; body = body }) g a
          ∙ path-handle_get h base body,
      body-handle h create (record { path = path; body = some lock }) c b
          ∙ body-handle_create h path identity,
    )
