-- ===== src/Csi/Spec/Controller.antt =====
-- The messages of the controller service in protos/csi.proto.
use rlvm.Base.{String, Bool, Option, none, List}
use rlvm.Base.Int.{ℤ, pos}
use rlvm.Csi.Spec.Messages.{Map, VolumeCapability, Topology, VolumeContentSource, Volume}

pub record CapacityRange : Type 0 where
  pub required_bytes : ℤ
  pub limit_bytes : ℤ

pub record TopologyRequirement : Type 0 where
  pub requisite : List Topology
  pub preferred : List Topology

pub record CreateVolumeRequest : Type 0 where
  pub name : String
  pub capacity_range : Option CapacityRange
  pub volume_capabilities : List VolumeCapability
  pub parameters : Map
  pub secrets : Map
  pub volume_content_source : Option VolumeContentSource
  pub accessibility_requirements : Option TopologyRequirement

pub record CreateVolumeResponse : Type 0 where
  pub volume : Option Volume

pub record DeleteVolumeRequest : Type 0 where
  pub volume_id : String
  pub secrets : Map

pub record ValidateVolumeCapabilitiesRequest : Type 0 where
  pub volume_id : String
  pub volume_context : Map
  pub volume_capabilities : List VolumeCapability
  pub parameters : Map
  pub secrets : Map

pub record Confirmed : Type 0 where
  pub volume_context : Map
  pub volume_capabilities : List VolumeCapability
  pub parameters : Map

pub record ValidateVolumeCapabilitiesResponse : Type 0 where
  pub confirmed : Option Confirmed
  pub message : String

pub record ListVolumesRequest : Type 0 where
  pub max_entries : ℤ
  pub starting_token : String

pub record VolumeCondition : Type 0 where
  pub abnormal : Bool
  pub message : String

pub record VolumeStatus : Type 0 where
  pub published_node_ids : List String
  pub volume_condition : Option VolumeCondition

-- `ListVolumesResponse.Entry`
pub record VolumeEntry : Type 0 where
  pub volume : Option Volume
  pub status : Option VolumeStatus

pub record ListVolumesResponse : Type 0 where
  pub entries : List VolumeEntry
  pub next_token : String

pub record GetCapacityRequest : Type 0 where
  pub volume_capabilities : List VolumeCapability
  pub parameters : Map
  pub accessible_topology : Option Topology

pub record GetCapacityResponse : Type 0 where
  pub available_capacity : ℤ
  pub maximum_volume_size : Option ℤ
  pub minimum_volume_size : Option ℤ

-- `GetCapacityResponse::default()`
abbrev pub no_capacity : GetCapacityResponse
no_capacity = record {
  available_capacity = pos 0;
  maximum_volume_size = none;
  minimum_volume_size = none;
}

-- `ControllerServiceCapability.RPC.Type`
pub data ControllerCapability : Type 0 where
  unknown create_delete_volume publish_unpublish_volume list_volumes : ControllerCapability
  get_capacity create_delete_snapshot list_snapshots clone_volume : ControllerCapability
  publish_readonly expand_volume list_volumes_published_nodes : ControllerCapability
  volume_condition get_volume single_node_multi_writer : ControllerCapability

pub record ControllerGetCapabilitiesResponse : Type 0 where
  pub capabilities : List ControllerCapability
