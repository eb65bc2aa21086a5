-- ===== src/System/Calls.antt =====
-- Sequences of calls of the controller, over volumed and LVM.
pub mod Single
pub mod History
use rlvm.Base.{◌≡◌, ◌⊎◌, String, Bool, true, false, List, [], ◌∷◌}
use rlvm.Csi.Controller.Handlers.{
  create_volume, delete_volume, list_volumes, get_capacity, validate_volume_capabilities,
}
use rlvm.Csi.Controller.Parts.{Platform, RlvmController, hash_resource}
use rlvm.Csi.Spec.Controller.{
  CreateVolumeRequest, DeleteVolumeRequest, ListVolumesRequest, GetCapacityRequest,
  ValidateVolumeCapabilitiesRequest,
}
use rlvm.Rpc.{with_extension}
use rlvm.Volumed.Spec.{VolumeService}

-- The calls of the controller service that call volumed.
pub data ControllerCall : Type 0 where
  create : CreateVolumeRequest → ControllerCall
  delete : DeleteVolumeRequest → ControllerCall
  list : ListVolumesRequest → ControllerCall
  capacity : GetCapacityRequest → ControllerCall
  validate : ValidateVolumeCapabilitiesRequest → ControllerCall

module _ {S : Type 0} (platform : Platform) (c : RlvmController) (client : VolumeService S) where
  -- The state that a call leaves, whatever it answered.
  abbrev pub after_call : ControllerCall → S → S
  after_call (create req) s = (create_volume platform c (with_extension client req) s).1
  after_call (delete req) s = (delete_volume platform c (with_extension client req) s).1
  after_call (list req) s = (list_volumes platform c (with_extension client req) s).1
  after_call (capacity req) s = (get_capacity platform c (with_extension client req) s).1
  after_call (validate req) s =
      (validate_volume_capabilities platform c (with_extension client req) s).1

  abbrev pub after_calls : List ControllerCall → S → S
  after_calls [] s = s
  after_calls (call ∷ calls) s = after_calls calls (after_call call s)

abbrev pub is_delete : ControllerCall → Bool
is_delete (delete req) = true
is_delete call = false
