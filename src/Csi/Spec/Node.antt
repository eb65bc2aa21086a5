-- ===== src/Csi/Spec/Node.antt =====
-- The messages of the node service in protos/csi.proto. The four responses of the calls below
-- have no field.
use rlvm.Base.{String, Bool, Option, List}
use rlvm.Base.Int.{ℤ}
use rlvm.Csi.Spec.Messages.{Map, VolumeCapability, Topology}

pub record NodeStageVolumeRequest : Type 0 where
  pub volume_id : String
  pub publish_context : Map
  pub staging_target_path : String
  pub volume_capability : Option VolumeCapability
  pub secrets : Map
  pub volume_context : Map

pub record NodeUnstageVolumeRequest : Type 0 where
  pub volume_id : String
  pub staging_target_path : String

pub record NodePublishVolumeRequest : Type 0 where
  pub volume_id : String
  pub publish_context : Map
  pub staging_target_path : String
  pub target_path : String
  pub volume_capability : Option VolumeCapability
  pub readonly : Bool
  pub secrets : Map
  pub volume_context : Map

pub record NodeUnpublishVolumeRequest : Type 0 where
  pub volume_id : String
  pub target_path : String

-- `NodeServiceCapability.RPC.Type`
pub data NodeCapability : Type 0 where
  unknown stage_unstage_volume get_volume_stats expand_volume volume_condition : NodeCapability
  single_node_multi_writer volume_mount_group : NodeCapability

pub record NodeGetCapabilitiesResponse : Type 0 where
  pub capabilities : List NodeCapability

pub record NodeGetInfoResponse : Type 0 where
  pub node_id : String
  pub max_volumes_per_node : ℤ
  pub accessible_topology : Option Topology
