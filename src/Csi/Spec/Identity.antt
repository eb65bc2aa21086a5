-- ===== src/Csi/Spec/Identity.antt =====
-- The messages of the identity service in protos/csi.proto.
use rlvm.Base.{String, Bool, Option, List}
use rlvm.Csi.Spec.Messages.{Map}

pub record GetPluginInfoResponse : Type 0 where
  pub name : String
  pub vendor_version : String
  pub manifest : Map

-- `PluginCapability.Service.Type`
pub data ServiceType : Type 0 where
  unknown controller_service volume_accessibility_constraints : ServiceType

-- `PluginCapability.VolumeExpansion.Type`
pub data VolumeExpansionType : Type 0 where
  unknown online offline : VolumeExpansionType

pub data PluginCapability : Type 0 where
  service : ServiceType → PluginCapability
  volume_expansion : VolumeExpansionType → PluginCapability

pub record GetPluginCapabilitiesResponse : Type 0 where
  pub capabilities : List PluginCapability

pub record ProbeResponse : Type 0 where
  pub ready : Option Bool
