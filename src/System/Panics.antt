-- ===== src/System/Panics.antt =====
-- Which handlers of the plugin and of mountd can panic, once their requests carry the client that the
-- interceptors of crates/csi/src/bin put in.
use rlvm.Base.{◌≡◌, ◌⊎◌, true, arith, Bool-cases, inl, inr}
use rlvm.Csi.Controller.Handlers.{
  list_volumes, get_capacity, create_volume, delete_volume, validate_volume_capabilities,
}
use rlvm.Csi.Controller.Parts.{Platform, RlvmController, find_or_create}
use rlvm.Csi.Node.Handlers.{
  node_stage_volume, node_unstage_volume, node_publish_volume, node_unpublish_volume,
}
use rlvm.Csi.Spec.Controller.{
  CreateVolumeRequest, DeleteVolumeRequest, ValidateVolumeCapabilitiesRequest, ListVolumesRequest,
  GetCapacityRequest,
}
use rlvm.Csi.Spec.Node.{
  NodeStageVolumeRequest, NodeUnstageVolumeRequest, NodePublishVolumeRequest,
  NodeUnpublishVolumeRequest,
}
use rlvm.Host.{Os, FlagSet}
use rlvm.Lvm.{Lvm}
use rlvm.Mountd.Config.{Config, ensure_interactable}
use rlvm.Mountd.Server.{mount, unmount, get_lvm_block_path, check_mount, perform_mount}
use rlvm.Mountd.Spec.{MountRequest, UnmountRequest, GetLvmBlockPathRequest, MountService}
use rlvm.Rpc.{Panics, with_extension}
use rlvm.Volumed.Main.{intercepted}
use rlvm.Volumed.Main.Wiring.{service_never-Panics}
use rlvm.Volumed.Server
use rlvm.Volumed.Server.{
  Mkfs, get_lv_list, get_free_bytes, create_logical_volume, delete_logical_volume,
  format_logical_volume, get_logical_volume,
}
use rlvm.Volumed.Spec.{
  Empty, CreateLvRequest, DeleteLvRequest, FormatLvRequest, GetLvRequest, VolumeService,
}

module _ {S : Type 0} (platform : Platform) (c : RlvmController) (volumed : VolumeService S)
    (s : S) where
  -- Whatever volumed answers, no handler of the controller that calls it panics, but `list_volumes`,
  -- and that only where overflow is checked.
  controller_never-Panics :
      (create : CreateVolumeRequest) (delete : DeleteVolumeRequest) (list : ListVolumesRequest)
      (capacity : GetCapacityRequest) (validate : ValidateVolumeCapabilitiesRequest)
      → ¬ Panics (create_volume platform c (with_extension volumed create) s)
        × ¬ Panics (delete_volume platform c (with_extension volumed delete) s)
        × ((¬ Panics (list_volumes platform c (with_extension volumed list) s))
            ⊎ (platform.overflow_checks ≡ true))
        × ¬ Panics (get_capacity platform c (with_extension volumed capacity) s)
        × ¬ Panics (validate_volume_capabilities platform c (with_extension volumed validate) s)
  unfolding create_volume find_or_create delete_volume list_volumes get_capacity
      validate_volume_capabilities
  controller_never-Panics create delete list capacity validate = (
    λ h. ground arith,
    λ h. ground arith,
    elim (Bool-cases platform.overflow_checks) [
      | inl checked ↦ inr checked
      | inr unchecked ↦ inl (λ h. ground arith)
    ],
    λ h. ground arith,
    λ h. ground arith,
  )

module _ {S F : Type 0} (os : Os S F) (mountd : MountService S) (s : S) where
  -- Whatever mountd and the host answer, no handler of the node that calls it panics.
  node_never-Panics :
      (stage : NodeStageVolumeRequest) (unstage : NodeUnstageVolumeRequest)
      (publish : NodePublishVolumeRequest) (unpublish : NodeUnpublishVolumeRequest)
      → ¬ Panics (node_stage_volume os (with_extension mountd stage) s)
        × ¬ Panics (node_unstage_volume os (with_extension mountd unstage) s)
        × ¬ Panics (node_publish_volume os (with_extension mountd publish) s)
        × ¬ Panics (node_unpublish_volume os (with_extension mountd unpublish) s)
  unfolding node_stage_volume node_unstage_volume node_publish_volume node_unpublish_volume
  node_never-Panics stage unstage publish unpublish =
      (λ h. ground arith, λ h. ground arith, λ h. ground arith, λ h. ground arith)

module _ {S F : Type 0} (os : Os S F) (lvm : Lvm S) (fs : FlagSet F) (config : Config) (s : S) where
  -- Whatever the host and lvm2_cmd answer, no handler of mountd panics.
  mountd_never-Panics :
      (device : GetLvmBlockPathRequest) (m : MountRequest) (u : UnmountRequest)
      → ¬ Panics (get_lvm_block_path os lvm device s)
        × ¬ Panics (mount os fs config m s)
        × ¬ Panics (unmount os config u s)
  unfolding get_lvm_block_path mount unmount check_mount perform_mount ensure_interactable
  mountd_never-Panics device m u = (λ h. ground arith, λ h. ground arith, λ h. ground arith)

-- With the client that the interceptor puts into each request, whatever lvm2_cmd, the host and the
-- other daemon answer: no handler that calls volumed, mountd, LVM or the host panics, of the
-- controller, the node, volumed and mountd, but `list_volumes` of the controller, and that only
-- where overflow is checked.
pub handlers_never-Panics :
    {S F : Type 0} (platform : Platform) (c : RlvmController) (volumed : VolumeService S)
    (os : Os S F) (client : MountService S) (lvm : Lvm S) (fs : FlagSet F) (mkfs : Mkfs S)
    (config : Config) (managing : Server.Config) (resource : lvm.Name)
    (create : CreateVolumeRequest) (delete : DeleteVolumeRequest) (list : ListVolumesRequest)
    (capacity : GetCapacityRequest) (validate : ValidateVolumeCapabilitiesRequest)
    (stage : NodeStageVolumeRequest) (unstage : NodeUnstageVolumeRequest)
    (publish : NodePublishVolumeRequest) (unpublish : NodeUnpublishVolumeRequest)
    (device : GetLvmBlockPathRequest) (m : MountRequest) (u : UnmountRequest) (e : Empty)
    (make : CreateLvRequest) (drop : DeleteLvRequest) (format : FormatLvRequest)
    (get : GetLvRequest) (s : S)
    → (¬ Panics (create_volume platform c (with_extension volumed create) s)
        × ¬ Panics (delete_volume platform c (with_extension volumed delete) s)
        × ((¬ Panics (list_volumes platform c (with_extension volumed list) s))
            ⊎ (platform.overflow_checks ≡ true))
        × ¬ Panics (get_capacity platform c (with_extension volumed capacity) s)
        × ¬ Panics (validate_volume_capabilities platform c (with_extension volumed validate) s))
      × (¬ Panics (node_stage_volume os (with_extension client stage) s)
          × ¬ Panics (node_unstage_volume os (with_extension client unstage) s)
          × ¬ Panics (node_publish_volume os (with_extension client publish) s)
          × ¬ Panics (node_unpublish_volume os (with_extension client unpublish) s))
      × (¬ Panics (intercepted lvm managing resource (get_lv_list lvm) e s)
          × ¬ Panics (intercepted lvm managing resource (get_free_bytes lvm managing) e s)
          × ¬ Panics (intercepted lvm managing resource (create_logical_volume lvm) make s)
          × ¬ Panics (intercepted lvm managing resource (delete_logical_volume lvm) drop s)
          × ¬ Panics (intercepted lvm managing resource (format_logical_volume lvm mkfs) format s)
          × ¬ Panics (intercepted lvm managing resource (get_logical_volume lvm) get s))
      × (¬ Panics (get_lvm_block_path os lvm device s)
          × ¬ Panics (mount os fs config m s)
          × ¬ Panics (unmount os config u s))
handlers_never-Panics platform c volumed os client lvm fs mkfs config managing resource create
      delete list capacity validate stage unstage publish unpublish device m u e make drop format
      get s =
    (
      controller_never-Panics platform c volumed s create delete list capacity validate,
      node_never-Panics os client s stage unstage publish unpublish,
      service_never-Panics lvm mkfs managing resource s e make drop format get,
      mountd_never-Panics os lvm fs config s device m u,
    )
