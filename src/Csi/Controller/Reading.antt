-- ===== src/Csi/Controller/Reading.antt =====
-- The calls of crates/csi/src/controller.rs that only read: they leave the state, if volumed's
-- answers do.
use rlvm.Base.{◌≡◌, some, arith}
use rlvm.Csi.Controller.Handlers.{list_volumes, get_capacity, validate_volume_capabilities}
use rlvm.Csi.Controller.Parts.{Platform, RlvmController}
use rlvm.Csi.Spec.Controller.{
  ListVolumesRequest, GetCapacityRequest, ValidateVolumeCapabilitiesRequest,
}
use rlvm.Rpc.{with_extension}
use rlvm.Volumed.Spec.{empty, Identifier, VolumeService}

module _ {S : Type 0} (platform : Platform) (c : RlvmController) (client : VolumeService S)
    (s : S) where
  pub list_volumes_state :
      (req : ListVolumesRequest)
      → (client.get_lv_list empty s).1 ≡ s
      → (list_volumes platform c (with_extension client req) s).1 ≡ s
  unfolding list_volumes
  list_volumes_state req same = ground arith

  pub get_capacity_state :
      (req : GetCapacityRequest)
      → (client.get_free_bytes empty s).1 ≡ s
      → (get_capacity platform c (with_extension client req) s).1 ≡ s
  unfolding get_capacity
  get_capacity_state req same = ground arith

  pub validate_volume_capabilities_state :
      (req : ValidateVolumeCapabilitiesRequest)
      → (client.get_logical_volume
          (record { identifier = some (Identifier.uuid req.volume_id) })
          s).1
        ≡ s
      → (validate_volume_capabilities platform c (with_extension client req) s).1 ≡ s
  unfolding validate_volume_capabilities
  validate_volume_capabilities_state req same = ground arith
