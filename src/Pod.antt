-- ===== src/Pod.antt =====
-- The fields of Kubernetes' pods (k8s.io/api/core/v1) that the operator reads or writes. A pointer
-- field is an `Option`; fields that the program leaves at their zero value are left out.
use cnf_certsuite_operator.Prelude.{ℕ, String, Bool, Option, List}
use cnf_certsuite_operator.Prelude.Int.{ℤ}

-- `field_path` is ValueFrom.FieldRef.FieldPath.
pub record EnvVar : Type 0 where
  pub name : String
  pub value : String
  pub field_path : Option String

pub record VolumeMount : Type 0 where
  pub name : String
  pub read_only : Bool
  pub mount_path : String

pub record Container : Type 0 where
  pub name : String
  pub image : String
  pub command : List String
  pub args : List String
  pub env : List EnvVar
  pub image_pull_policy : String
  pub volume_mounts : List VolumeMount

-- The member of the VolumeSource that is set.
pub data VolumeSource : Type 0 where
  empty_dir : VolumeSource
  config_map secret : String → VolumeSource

pub record Volume : Type 0 where
  pub name : String
  pub source : VolumeSource

pub record OwnerReference : Type 0 where
  pub api_version : String
  pub kind : String
  pub name : String
  pub uid : String

-- `running` holds State.Running.StartedAt, in nanoseconds since Go's zero time; `terminated` holds
-- State.Terminated.ExitCode. A waiting container has neither.
pub record ContainerState : Type 0 where
  pub running : Option ℕ
  pub terminated : Option ℤ

pub record ContainerStatus : Type 0 where
  pub name : String
  pub state : ContainerState

pub record Pod : Type 0 where
  pub name : String
  pub namespace : String
  pub owner_references : List OwnerReference
  pub service_account_name : String
  pub restart_policy : String
  pub containers : List Container
  pub volumes : List Volume
  pub container_statuses : List ContainerStatus
