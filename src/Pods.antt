-- ===== src/Pods.antt =====
-- Pods, as far as the controllers read them, and the helpers of pkg/utils/pod.go.
use controller_mesh.Prelude.{
  ℕ, String, List, [], ◌∷◌, Bool, false, not, ◌&&◌, Option, none, some, ◌==◌, Map, if◌then◌else◌,
}

pub record Condition : Type 0 where
  pub condition_type : String
  pub status : String

pub record ContainerStatus : Type 0 where
  pub name : String
  pub ready : Bool
  pub running : Bool

-- `owner` is the name of the owner that controls the pod, `first_owner` that of the first owner;
-- `age` is the time since its creation, in nanoseconds.
pub record Pod : Type 0 where
  pub uid : String
  pub namespace : String
  pub name : String
  pub labels : Map String
  pub deleted : Bool
  pub phase : String
  pub conditions : List Condition
  pub containers : List ContainerStatus
  pub owner : Option String
  pub first_owner : Option String
  pub age : ℕ

unfoldable pub is_pod_active : Pod → Bool
is_pod_active p = not ("Succeeded" == p.phase) && (not ("Failed" == p.phase) && not p.deleted)

unfoldable pub get_pod_condition_from_list : List Condition → String → Option Condition
get_pod_condition_from_list [] condition_type = none
get_pod_condition_from_list (c ∷ cs) condition_type =
    let rest = get_pod_condition_from_list cs condition_type in
    if c.condition_type == condition_type then some c else rest

unfoldable pub is_pod_ready : Pod → Bool
unfolding get_pod_condition_from_list
is_pod_ready p = elim (get_pod_condition_from_list p.conditions "Ready") [
  | none ↦ false
  | some c ↦ c.status == "True"
]
