-- ===== src/Runtime/Types.antt =====
-- The resources of backend/internal/runtime/runtime.go, system_df.go, container_detail.go and registry.go.
use calf.Common.{ℕ, Bool, List, ℤ}
use calf.Strings.{Text}

pub record Container : Type 0 where
  pub id : Text
  pub name : Text
  pub image : Text
  pub state : Text
  pub status : Text
  pub ports : Text
  pub created : Text
  pub compose_project : Text
  pub compose_service : Text

pub record Image : Type 0 where
  pub id : Text
  pub repository : Text
  pub tag : Text
  pub size : Text
  pub created : Text

pub record Volume : Type 0 where
  pub name : Text
  pub driver : Text
  pub in_use : Bool
  pub size : Text
  pub created : Text

pub record Network : Type 0 where
  pub id : Text
  pub name : Text
  pub driver : Text
  pub scope : Text
  pub subnet : Text
  pub created : Text

pub record DiskUsageRow : Type 0 where
  pub type_name : Text
  pub size : Text
  pub size_bytes : ℤ
  pub reclaimable : Text
  pub reclaimable_bytes : ℤ

pub record PortConflict : Type 0 where
  pub port : ℤ
  pub process : Text
  pub hint : Text

pub record Status : Type 0 where
  pub mode : Text
  pub state : Text
  pub docker_socket : Text
  pub rootless : Bool
  pub vm_name : Text
  pub port_conflicts : List PortConflict
  pub log : Text

pub record VolumeDetail : Type 0 where
  pub name : Text
  pub driver : Text
  pub created : Text
  pub in_use : Bool
  pub mountpoint : Text

pub record VolumeContainerUsage : Type 0 where
  pub id : Text
  pub name : Text
  pub image : Text
  pub port : Text
  pub target : Text

pub record NetworkDetail : Type 0 where
  pub id : Text
  pub name : Text
  pub driver : Text
  pub scope : Text
  pub subnet : Text
  pub gateway : Text
  pub created : Text
  pub options : List (Text × Text)

pub record ContainerFileEntry : Type 0 where
  pub name : Text
  pub path : Text
  pub is_dir : Bool
  pub size : ℤ
  pub mode : Text
  pub modified : Text
  pub note : Text

pub record ImageLayer : Type 0 where
  pub index : ℕ
  pub created_by : Text
  pub size : Text
  pub created : Text

pub record RegistryStatus : Type 0 where
  pub logged_in : Bool
  pub server : Text
  pub username : Text
