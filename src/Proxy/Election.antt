-- ===== src/Proxy/Election.antt =====
-- The leader election of a shard: pkg/proxy/leaderelection/handler.go, with what it uses of
-- adapter.go there, and LastReplace of pkg/utils/string.go.
pub mod Paths
pub mod Laws
mod Tests
use Prim.Native.Char.{code}
use Prim.Native.String
use text.Mathlib.Text.{starts_with}
use controller_mesh.Prelude.{
  ℕ, String, Bool, true, false, not, ◌&&◌, ◌||◌, Option, none, some, Map, lookup, if◌then◌else◌,
  ◌==◌, eqb,
}
use controller_mesh.Proxy.Specs.{LeaderElectionState, SpecManager, update_leader_election}

-- What is behind a text at the start of another one, if it is there.
unfoldable pub strip : String → String → Option String
strip String.[] s = some s
strip (String.◌∷◌ c old) String.[] = none
strip (String.◌∷◌ c old) (String.◌∷◌ d s) =
    let rest = strip old s in if eqb (code c) (code d) then rest else none

abbrev pub replaced_here : String → Option String → Option String
replaced_here new none = none
replaced_here new (some rest) = some (String.◌++◌ new rest)

-- The text with the last occurrence of the old one replaced, if there is one.
unfoldable pub replaced : String → String → String → Option String
unfolding strip
replaced String.[] old new = replaced_here new (strip old "")
replaced (String.◌∷◌ c s) old new = elim (replaced s old new) [
  | some r ↦ some (String.◌∷◌ c r)
  | none ↦ replaced_here new (strip old (String.◌∷◌ c s))
]

unfoldable pub last_replace : String → String → String → String
unfolding replaced
last_replace s old new = elim (replaced s old new) [ none ↦ s | some r ↦ r ]

unfoldable pub set_subset_into_name : String → String → String
set_subset_into_name name subset = String.◌++◌ name (String.◌++◌ "---" subset)

-- The part of `request.RequestInfo` that is read.
pub record RequestInfo : Type 0 where
  pub is_resource_request : Bool
  pub subresource : String
  pub namespace : String
  pub verb : String
  pub name : String
  pub api_group : String
  pub api_version : String
  pub resource : String

-- What an adapter reads and writes of a resource lock; `hold_identity` is what GetHoldIdentity gives.
pub record Lock : Type 0 where
  pub name : String
  pub hold_identity : Option String

-- What the adapters decode: a config map or endpoints, by the name and the annotations, or a lease, by
-- the name and the holder, which may be nil.
pub data LockObject : Type 0 where
  meta_object : String → Map String → LockObject
  lease_object : String → Option String → LockObject

-- GetName and GetHoldIdentity; `parse` is the holder in a record that can be read.
unfoldable pub lock_of : (String → Option String) → LockObject → Lock
lock_of parse (meta_object name annotations) = record {
  name = name;
  hold_identity = elim (lookup "control-plane.alpha.kubernetes.io/leader" annotations) [
    | none ↦ none
    | some text ↦ (elim (parse text) [ none ↦ some "" | some holder ↦ some holder ])
  ];
}
lock_of parse (lease_object name holder) = record { name = name; hold_identity = holder }

-- The path of a request, and the object that its body decodes to, if it does.
pub record Request : Type 0 where
  pub path : String
  pub body : Option Lock

pub record Handler : Type 0 where
  pub namespace : String
  pub lock_name : String
  pub sharding_config : String

-- The three results and the request after it. A response function is the identity that it reports.
pub record Handled : Type 0 where
  pub handled : Bool
  pub modify_response : Option String
  pub failed : Bool
  pub request : Request

abbrev pub ignored : Request → Handled
ignored r = record { handled = false; modify_response = none; failed = false; request = r }

abbrev pub refused : Request → Handled
refused r = record { handled = true; modify_response = none; failed = true; request = r }

-- The early returns.
unfoldable pub is_about_lock : Handler → RequestInfo → Bool
is_about_lock h info =
    (info.is_resource_request && info.subresource == "")
    && (info.namespace == h.namespace
        && (info.verb == "create"
            || (info.name == h.lock_name || starts_with info.name (String.◌++◌ h.lock_name "---"))))

-- The resources of the switch: config maps, endpoints and leases.
unfoldable pub is_lock_resource : RequestInfo → Bool
is_lock_resource info =
    (info.api_version == "v1")
    && ((info.api_group == "" && (info.resource == "configmaps" || info.resource == "endpoints"))
        || (info.api_group == "coordination.k8s.io" && info.resource == "leases"))

abbrev pub lock_of_shard : Handler → String
lock_of_shard h =
    if h.sharding_config == ""
    then h.lock_name
    else set_subset_into_name h.lock_name h.sharding_config

abbrev pub handle_create : Handler → Request → Lock → Handled
handle_create h r lock =
    if not (lock.name == h.lock_name) then ignored r else (elim (lock.hold_identity) [
      | none ↦ refused r
      | some identity ↦ record {
        handled = true;
        modify_response = some identity;
        failed = false;
        request = record r {
          body = some (
              if h.sharding_config == ""
              then lock
              else record lock { name = set_subset_into_name h.lock_name h.sharding_config });
        };
      }
    ])

abbrev pub handle_update : Request → Lock → Handled
handle_update r lock = elim (lock.hold_identity) [
  | none ↦ refused r
  | some identity ↦ record {
    handled = true;
    modify_response = some identity;
    failed = false;
    request = r;
  }
]

abbrev pub handle_get : Handler → Request → Handled
handle_get h r = record {
  handled = true;
  modify_response = none;
  failed = false;
  request = if h.sharding_config == "" then r else record r {
    path = last_replace r.path h.lock_name (set_subset_into_name h.lock_name h.sharding_config);
  };
}

abbrev pub decoded : Request → (Lock → Handled) → Handled
decoded r next = elim (r.body) [ none ↦ refused r | some lock ↦ next lock ]

-- The switch over the verbs.
unfoldable pub handle_verb : Handler → String → Request → Handled
unfolding last_replace set_subset_into_name
handle_verb h verb r =
    if verb == "create"
    then decoded r (handle_create h r)
    else if verb == "update"
    then decoded r (handle_update r)
    else if verb == "get"
    then handle_get h r
    else ignored r

unfoldable pub handle : Handler → RequestInfo → Request → Handled
unfolding is_about_lock is_lock_resource handle_verb
handle h info r =
    if is_about_lock h info && is_lock_resource info then handle_verb h info.verb r else ignored r

-- The call of `modifyResponse` with the status code of the response.
unfoldable pub respond : Option String → ℕ → SpecManager → SpecManager
unfolding update_leader_election
respond none code sm = sm
respond (some identity) code sm =
    if eqb code 200
    then update_leader_election (some (record { identity = identity; is_leader = true })) sm
    else sm
