-- ===== src/Proxy/Specs.antt =====
-- The specifications that a proxy keeps (pkg/proxy/proto/proto_manager.go, strorage.go and grpc.go).
use Prim.Native.String.{◌++◌}
use controller_mesh.Prelude.{
  ℕ, ◌+◌, String, List, [], ◌∷◌, Bool, true, false, not, ◌&&◌, ◌||◌, is_some, Option, none, some,
  ◌>>=◌, if◌then◌else◌, ◌==◌, is_empty,
}
use controller_mesh.Selectors.{LabelSelector}
use controller_mesh.Proxy.{SpecMeta, ProxySpec, InternalSpec, convert_proto_spec_to_internal}

pub record LeaderElectionState : Type 0 where
  pub identity : String
  pub is_leader : Bool

pub record MetaState : Type 0 where
  pub expected_hash : String
  pub current_hash : String
  pub hash_unload_reason : String

-- The part of the status that is not the information of the pod itself.
pub record ProxyStatus : Type 0 where
  pub meta_state : MetaState
  pub leader_election_state : Option LeaderElectionState

-- The messages that have been written to the two files since they were opened, the last one first:
-- a write goes on where the one before it ended.
pub record Storage : Type 0 where
  pub expected_spec_file : List ProxySpec
  pub current_spec_file : List ProxySpec

-- `report_triggers` counts what has been sent to the channel.
pub record SpecManager : Type 0 where
  pub storage : Storage
  pub report_triggers : ℕ
  pub expected_spec : Option InternalSpec
  pub current_spec : Option InternalSpec
  pub unload_reason : String
  pub leader_election_state : Option LeaderElectionState

pub data Loadable : Type 0 where
  loadable : Loadable
  unloadable : String → Loadable

abbrev pub meta_of : Option InternalSpec → Option SpecMeta
meta_of none = none
meta_of (some spec) = spec.proxy_spec.meta

unfoldable pub compare_meta : SpecMeta → SpecMeta → Loadable
compare_meta current expected =
    if current.shard_name == expected.shard_name
    then if current.hash == expected.hash
      then loadable
      else unloadable ("SpecHase changed from " ++ current.hash ++ " to " ++ expected.hash)
    else unloadable
        ("ShardingConfig changed from " ++ current.shard_name ++ " to " ++ expected.shard_name)

-- A result that is `none` is a nil pointer that is read.
unfoldable pub check_loadable : SpecManager → Option Loadable
unfolding compare_meta
check_loadable sm = elim (sm.current_spec) [
  | none ↦ some loadable
  | some current ↦ do
    current ← current.proxy_spec.meta
    expected ← meta_of sm.expected_spec
    some (compare_meta current expected)
]

-- The writes of the files, each of which may fail.
unfoldable pub write_expected_spec : Bool → ProxySpec → Storage → Option Storage
write_expected_spec fails spec storage =
    if fails
    then none
    else some (record storage { expected_spec_file = spec ∷ storage.expected_spec_file })

unfoldable pub write_current_spec : Bool → ProxySpec → Storage → Option Storage
write_current_spec fails spec storage =
    if fails
    then none
    else some (record storage { current_spec_file = spec ∷ storage.current_spec_file })

unfoldable pub is_invalid : ProxySpec → Bool
is_invalid spec = not (is_some spec.meta) || is_empty spec.limits

-- Which writes of one call fail.
pub record Failures : Type 0 where
  pub expected : Bool
  pub current : Bool

module _ (decode : String → LabelSelector) where
  unfoldable pub load_spec : Failures → InternalSpec → Loadable → SpecManager → Option SpecManager
  unfolding write_current_spec
  load_spec fails spec (unloadable reason) sm = some (record sm { unload_reason = reason })
  load_spec fails spec loadable sm = do
    storage ← write_current_spec fails.current spec.proxy_spec sm.storage
    some (record sm { storage = storage; current_spec = some spec })

  -- A result that is `none` is a panic.
  unfoldable pub update_spec : Failures → ProxySpec → SpecManager → Option SpecManager
  unfolding write_expected_spec check_loadable load_spec
  update_spec fails spec sm = do
    storage ← write_expected_spec fails.expected spec sm.storage
    let internal = convert_proto_spec_to_internal decode spec
    let next : SpecManager = record sm { storage = storage; expected_spec = some internal }
    verdict ← check_loadable next
    load_spec fails internal verdict next

  -- A specification that is not valid is dropped.
  unfoldable pub recv : Failures → ProxySpec → SpecManager → Option SpecManager
  unfolding is_invalid update_spec
  recv fails spec sm = elim (is_invalid spec) [ true ↦ some sm | false ↦ update_spec fails spec sm ]

  -- What the files had when the manager starts; where they could not be read, both are nil.
  unfoldable pub new_spec_manager :
      Failures → Option ProxySpec → Option ProxySpec → Option SpecManager
  unfolding update_spec
  new_spec_manager fails expected current =
      let sm : SpecManager = record {
        storage = record { expected_spec_file = []; current_spec_file = [] };
        report_triggers = 0;
        expected_spec = none;
        current_spec = elim current [
          | none ↦ none
          | some c ↦ some (convert_proto_spec_to_internal decode c)
        ];
        unload_reason = "";
        leader_election_state = none;
      } in
      elim expected [ none ↦ some sm | some e ↦ update_spec fails e sm ]

-- `proto.Equal`, where nil is equal to nil only.
unfoldable pub same_leader_election : Option LeaderElectionState → Option LeaderElectionState → Bool
same_leader_election none none = true
same_leader_election none (some b) = false
same_leader_election (some a) none = false
same_leader_election (some a) (some b) =
    a.identity == b.identity && (if a.is_leader then b.is_leader else not b.is_leader)

unfoldable pub update_leader_election : Option LeaderElectionState → SpecManager → SpecManager
unfolding same_leader_election
update_leader_election le sm = record sm {
  leader_election_state = le;
  report_triggers =
      if same_leader_election sm.leader_election_state le
      then sm.report_triggers
      else sm.report_triggers + 1;
}

-- `none` is a nil pointer that is read, `some none` the status nil.
unfoldable pub get_status : SpecManager → Option (Option ProxyStatus)
get_status sm = elim (sm.current_spec) [
  | none ↦ some none
  | some current ↦ do
    expected ← meta_of sm.expected_spec
    current ← current.proxy_spec.meta
    some (
        some (record {
          meta_state = record {
            expected_hash = expected.hash;
            current_hash = current.hash;
            hash_unload_reason = sm.unload_reason;
          };
          leader_election_state = sm.leader_election_state;
        }))
]
