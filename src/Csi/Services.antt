-- ===== src/Csi/Services.antt =====
-- The three services of the plugin as their callers see them: each request gets its client from
-- `client_injector` (crates/csi/src/bin), and the handler's outcome is the answer.
use rlvm.Base.{⊤}
use rlvm.Csi.Controller.Handlers.{
  list_volumes, get_capacity, controller_get_capabilities, create_volume, delete_volume,
  validate_volume_capabilities,
}
use rlvm.Csi.Controller.Parts.{Platform, RlvmController}
use rlvm.Csi.Identity.{Verifier, Extensions, get_plugin_info, get_plugin_capabilities, probe}
use rlvm.Csi.Node.Handlers.{
  RlvmNode, node_stage_volume, node_unstage_volume, node_publish_volume, node_unpublish_volume,
  node_get_capabilities, node_get_info,
}
use rlvm.Csi.Spec.Controller.{
  CreateVolumeRequest, CreateVolumeResponse, DeleteVolumeRequest, ValidateVolumeCapabilitiesRequest,
  ValidateVolumeCapabilitiesResponse, ListVolumesRequest, ListVolumesResponse, GetCapacityRequest,
  GetCapacityResponse, ControllerGetCapabilitiesResponse,
}
use rlvm.Csi.Spec.Identity.{GetPluginInfoResponse, GetPluginCapabilitiesResponse, ProbeResponse}
use rlvm.Csi.Spec.Node.{
  NodeStageVolumeRequest, NodeUnstageVolumeRequest, NodePublishVolumeRequest,
  NodeUnpublishVolumeRequest, NodeGetCapabilitiesResponse, NodeGetInfoResponse,
}
use rlvm.Host.{Os}
use rlvm.Mountd.Spec.{MountService}
use rlvm.Rpc.{Call, Status, with_extension, answer}
use rlvm.Volumed.Spec.{VolumeService}

pub record ControllerService (S : Type 0) : Type 0 where
  pub list_volumes : ListVolumesRequest → Call S Status ListVolumesResponse
  pub get_capacity : GetCapacityRequest → Call S Status GetCapacityResponse
  pub controller_get_capabilities : ⊤ → Call S Status ControllerGetCapabilitiesResponse
  pub create_volume : CreateVolumeRequest → Call S Status CreateVolumeResponse
  pub delete_volume : DeleteVolumeRequest → Call S Status ⊤
  pub validate_volume_capabilities :
      ValidateVolumeCapabilitiesRequest → Call S Status ValidateVolumeCapabilitiesResponse

pub record NodeService (S : Type 0) : Type 0 where
  pub node_stage_volume : NodeStageVolumeRequest → Call S Status ⊤
  pub node_unstage_volume : NodeUnstageVolumeRequest → Call S Status ⊤
  pub node_publish_volume : NodePublishVolumeRequest → Call S Status ⊤
  pub node_unpublish_volume : NodeUnpublishVolumeRequest → Call S Status ⊤
  pub node_get_capabilities : ⊤ → Call S Status NodeGetCapabilitiesResponse
  pub node_get_info : ⊤ → Call S Status NodeGetInfoResponse

pub record IdentityService (S : Type 0) : Type 0 where
  pub get_plugin_info : ⊤ → Call S Status GetPluginInfoResponse
  pub get_plugin_capabilities : ⊤ → Call S Status GetPluginCapabilitiesResponse
  pub probe : ⊤ → Call S Status ProbeResponse

module _ {S : Type 0} (panicked : Status) where
  abbrev pub controller_service : Platform → RlvmController → VolumeService S → ControllerService S
  controller_service platform controller client = record {
    list_volumes =
        λ m. answer panicked (list_volumes platform controller (with_extension client m));
    get_capacity =
        λ m. answer panicked (get_capacity platform controller (with_extension client m));
    controller_get_capabilities =
        λ m. answer panicked (controller_get_capabilities platform controller m);
    create_volume =
        λ m. answer panicked (create_volume platform controller (with_extension client m));
    delete_volume =
        λ m. answer panicked (delete_volume platform controller (with_extension client m));
    validate_volume_capabilities = λ m.
        answer panicked
          (validate_volume_capabilities platform controller (with_extension client m));
  }

  abbrev pub node_service : {F : Type 0} → Os S F → RlvmNode → MountService S → NodeService S
  node_service os node client = record {
    node_stage_volume = λ m. answer panicked (node_stage_volume os (with_extension client m));
    node_unstage_volume = λ m. answer panicked (node_unstage_volume os (with_extension client m));
    node_publish_volume = λ m. answer panicked (node_publish_volume os (with_extension client m));
    node_unpublish_volume =
        λ m. answer panicked (node_unpublish_volume os (with_extension client m));
    node_get_capabilities = λ m. answer panicked (node_get_capabilities os m);
    node_get_info = λ m. answer panicked (node_get_info os node m);
  }

  abbrev pub identity_service : Verifier → Extensions S → IdentityService S
  identity_service verifier extensions = record {
    get_plugin_info = λ m. answer panicked (get_plugin_info m);
    get_plugin_capabilities = λ m. answer panicked (get_plugin_capabilities m);
    probe = λ m. answer panicked (probe verifier extensions);
  }
