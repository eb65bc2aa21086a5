-- ===== src/Tests/Panics.antt =====
-- One request to each handler, over a disk in memory.
use rlvm.Base.{◌≡◌, ◌⊎◌, true, some, none, [], ◌∷◌}
use rlvm.Base.Int.{pos}
use rlvm.Csi.Controller.Handlers.{
  list_volumes, get_capacity, create_volume, delete_volume, validate_volume_capabilities,
}
use rlvm.Csi.Node.Handlers.{
  node_stage_volume, node_unstage_volume, node_publish_volume, node_unpublish_volume,
}
use rlvm.Csi.Spec.Controller.{
  DeleteVolumeRequest, ListVolumesRequest, GetCapacityRequest, ValidateVolumeCapabilitiesRequest,
}
use rlvm.Csi.Spec.Node.{NodeUnstageVolumeRequest, NodeUnpublishVolumeRequest}
use rlvm.Host.Flags.{bits}
use rlvm.Lvm.Memory.{memory}
use rlvm.Mountd.Server
use rlvm.Mountd.Spec.{MountRequest, UnmountRequest, GetLvmBlockPathRequest}
use rlvm.Rpc.{Panics, with_extension}
use rlvm.System.Panics.{handlers_never-Panics}
use rlvm.Tests.Fixtures.{
  config, mkfs, with_data, platform, controller, volumed, request, capability,
}
use rlvm.Tests.Host
use rlvm.Tests.Host.{idle_mountd}
use rlvm.Tests.Provisioning.{disk_host}
use rlvm.Tests.Staging.{stage_request, publish_request}
use rlvm.Volumed.Main.{intercepted}
use rlvm.Volumed.Server.{
  get_lv_list, get_free_bytes, create_logical_volume, delete_logical_volume, format_logical_volume,
  get_logical_volume,
}
use rlvm.Volumed.Spec.{
  empty, CreateLvRequest, DeleteLvRequest, FormatLvRequest, GetLvRequest, Identifier,
}

abbrev dropping : DeleteVolumeRequest
dropping = record { volume_id = "BEEF"; secrets = [] }

abbrev first_page : ListVolumesRequest
first_page = record { max_entries = pos 1; starting_token = "" }

abbrev anywhere : GetCapacityRequest
anywhere = record { volume_capabilities = []; parameters = []; accessible_topology = none }

abbrev query : ValidateVolumeCapabilitiesRequest
query = record {
  volume_id = "BEEF";
  volume_context = [];
  volume_capabilities = capability ∷ [];
  parameters = [];
  secrets = [];
}

abbrev unstage_request : NodeUnstageVolumeRequest
unstage_request = record { volume_id = "BEEF"; staging_target_path = "/stage" }

abbrev unpublish_request : NodeUnpublishVolumeRequest
unpublish_request = record { volume_id = "BEEF"; target_path = "/target" }

abbrev device : GetLvmBlockPathRequest
device = record { uuid = "BEEF" }

abbrev mounting : MountRequest
mounting = record { mount = some (record { src = "/dev/vg/BEEF"; dst = "/stage" }); flags = [] }

abbrev unmounting : UnmountRequest
unmounting = record { path = "/stage" }

abbrev creation : CreateLvRequest
creation = record { name = "B"; capacity = 513; tags = [] }

abbrev deletion : DeleteLvRequest
deletion = record { name = "B" }

abbrev format : FormatLvRequest
format = record { name = "B" }

abbrev lookup : GetLvRequest
lookup = record { identifier = some (Identifier.name "B") }

handlers_never-Panics_example :
    (¬ Panics (create_volume platform controller (with_extension volumed request) with_data)
      × ¬ Panics (delete_volume platform controller (with_extension volumed dropping) with_data)
      × ((¬ Panics (list_volumes platform controller (with_extension volumed first_page) with_data))
          ⊎ (true ≡ true))
      × ¬ Panics (get_capacity platform controller (with_extension volumed anywhere) with_data)
      × ¬ Panics (
          validate_volume_capabilities platform controller
            (with_extension volumed query)
            with_data))
    × (¬ Panics (node_stage_volume disk_host (with_extension idle_mountd stage_request) with_data)
        × ¬ Panics
            (node_unstage_volume disk_host (with_extension idle_mountd unstage_request) with_data)
        × ¬ Panics
            (node_publish_volume disk_host (with_extension idle_mountd publish_request) with_data)
        × ¬ Panics (
            node_unpublish_volume disk_host
              (with_extension idle_mountd unpublish_request)
              with_data))
    × (¬ Panics (intercepted memory config "vg" (get_lv_list memory) empty with_data)
        × ¬ Panics (intercepted memory config "vg" (get_free_bytes memory config) empty with_data)
        × ¬ Panics
            (intercepted memory config "vg" (create_logical_volume memory) creation with_data)
        × ¬ Panics
            (intercepted memory config "vg" (delete_logical_volume memory) deletion with_data)
        × ¬ Panics
            (intercepted memory config "vg" (format_logical_volume memory mkfs) format with_data)
        × ¬ Panics (intercepted memory config "vg" (get_logical_volume memory) lookup with_data))
    × (¬ Panics (Server.get_lvm_block_path disk_host memory device with_data)
        × ¬ Panics (Server.mount disk_host bits Host.config mounting with_data)
        × ¬ Panics (Server.unmount disk_host Host.config unmounting with_data))
handlers_never-Panics_example =
    handlers_never-Panics platform controller volumed disk_host idle_mountd memory bits mkfs
      Host.config config "vg" request dropping first_page anywhere query stage_request
      unstage_request publish_request unpublish_request device mounting unmounting empty creation
      deletion format lookup with_data
