-- ===== src/Csi/Controller/Handlers.antt =====
-- crates/csi/src/controller.rs: the handlers of `RLVMController`, over any client of volumed. The
-- client is the request's extension.
use rlvm.Base.{
  ◌<>◌, ⊤, none, some, List, [], ◌∷◌, map, any, length, take, ltb, ◌==◌, is_empty, if◌then◌else◌,
}
use rlvm.Base.Int.{pos, as_i64, try_usize, max_usize, add_usize}
use rlvm.Base.Text
use rlvm.Base.Number.{decimal}
use rlvm.Rpc.{
  invalid_argument, not_found, out_of_range, unimplemented, internal, ok, err, Action, Request,
  ◌>>=◌, ◌>>◌, pure, raise, or_raise, unwrap, attempt, settle, forward, raise_if,
}
use rlvm.Volumed.Spec.{empty, Identifier, VolumeService}
use rlvm.Volumed.Server.{out_of_range_integer}
use rlvm.Csi.Spec.Messages.{Mode, mode_number, AccessType, VolumeCapability}
use rlvm.Csi.Spec.Controller.{
  CreateVolumeRequest, CreateVolumeResponse, DeleteVolumeRequest, ValidateVolumeCapabilitiesRequest,
  ValidateVolumeCapabilitiesResponse, ListVolumesRequest, ListVolumesResponse, GetCapacityRequest,
  GetCapacityResponse, no_capacity, ControllerCapability, ControllerGetCapabilitiesResponse,
}
use rlvm.Csi.Controller.Parts.{
  Platform, min_volume_size_bytes, RlvmController, get_host_topology, process_volume, same_topology,
  capability_mode, is_multi_node, hash_resource, start_of, free_bytes_of, capacity_of,
  find_or_create,
}

-- The volume capabilities that `validate_volume_capabilities` confirms.
abbrev pub confirmed_capabilities : List VolumeCapability
confirmed_capabilities =
    record {
      access_mode = some (record { mode = pos (mode_number Mode.single_node_writer) });
      access_type = some AccessType.block;
    }
    ∷ record {
      access_mode = some (record { mode = pos (mode_number Mode.single_node_writer) });
      access_type = some (
          AccessType.mount (record { fs_type = "xfs"; mount_flags = []; volume_mount_group = "" }));
    }
    ∷ []

module _ {S : Type 0} (platform : Platform) (controller : RlvmController) where
  unfoldable pub list_volumes :
      Request (VolumeService S) ListVolumesRequest → Action S ListVolumesResponse
  list_volumes request = do
    client ← unwrap request.extension
    let req = request.message
    max_entries ← or_raise (try_usize req.max_entries) (
        invalid_argument
          ("`max_entries` must be a valid positive integer: " <> out_of_range_integer))
    start ← start_of req.starting_token
    answer ←
        attempt (client.get_lv_list empty)
          (λ e. internal ("could not get_lv_list from volumed: " <> platform.show_status e))
    let lvs = take (if max_entries == 0 then max_usize else max_entries) (
        map (λ lv. record { volume = some (process_volume controller lv); status = none })
          answer.volumes)
    last_index ← unwrap (add_usize platform.overflow_checks start max_entries)
    pure (record {
      entries = lvs;
      next_token = if ltb last_index (length lvs) then decimal last_index else "";
    })

  unfoldable pub get_capacity :
      Request (VolumeService S) GetCapacityRequest → Action S GetCapacityResponse
  get_capacity request = do
    client ← unwrap request.extension
    let req = request.message
    if any (λ cap. is_multi_node (capability_mode cap)) req.volume_capabilities
        then pure no_capacity
        else if same_topology (get_host_topology controller) req.accessible_topology
        then pure no_capacity
        else do
          capacity ← free_bytes_of platform client
          pure (record {
            available_capacity = as_i64 capacity;
            maximum_volume_size = none;
            minimum_volume_size = some (as_i64 min_volume_size_bytes);
          })

  unfoldable pub controller_get_capabilities : ⊤ → Action S ControllerGetCapabilitiesResponse
  controller_get_capabilities request = pure (record {
    capabilities =
        ControllerCapability.list_volumes ∷ ControllerCapability.create_delete_volume
        ∷ ControllerCapability.get_capacity ∷ [];
  })

  unfoldable pub create_volume :
      Request (VolumeService S) CreateVolumeRequest → Action S CreateVolumeResponse
  create_volume request = do
    client ← unwrap request.extension
    let req = request.message
    raise_if (Text.is_empty req.name) (invalid_argument "missing volume name")
    raise_if (is_empty req.volume_capabilities) (invalid_argument "missing volume capabilities")
    range ← capacity_of req.capacity_range
    let capacity = range.0
    total_capacity ← free_bytes_of platform client
    raise_if (ltb capacity min_volume_size_bytes) (
        out_of_range (
          "cannot create a volume smaller than the smallest allowed size: "
          <> decimal capacity
          <> " < "
          <> decimal min_volume_size_bytes))
    raise_if (ltb total_capacity capacity) (
        out_of_range (
          "cannot create volume larger than the space available: "
          <> decimal capacity
          <> " > "
          <> decimal total_capacity))
    let safe_name = hash_resource platform req.name
    volume ← find_or_create platform client req.name safe_name capacity
    forward (client.format_logical_volume (record { name = safe_name }))
    pure (record { volume = some (process_volume controller volume) })

  unfoldable pub delete_volume : Request (VolumeService S) DeleteVolumeRequest → Action S ⊤
  delete_volume request = do
    client ← unwrap request.extension
    let req = request.message
    raise_if (Text.is_empty req.volume_id) (invalid_argument "missing required field `volume_id`")
    lv ←
        settle
          (client.get_logical_volume (record { identifier = some (Identifier.uuid req.volume_id) }))
    elim lv [
      | ok volume ↦ do
        forward (client.delete_logical_volume (record { name = volume.name }))
        pure tt
      | err e ↦ pure tt
    ]

  unfoldable pub validate_volume_capabilities :
      Request (VolumeService S) ValidateVolumeCapabilitiesRequest
      → Action S ValidateVolumeCapabilitiesResponse
  validate_volume_capabilities request = do
    client ← unwrap request.extension
    let req = request.message
    raise_if (Text.is_empty req.volume_id) (invalid_argument "missing required field `volume_id`")
    raise_if (is_empty req.volume_capabilities)
        (invalid_argument "missing required field `volume_capabilities`")
    lv ←
        attempt
          (client.get_logical_volume (record { identifier = some (Identifier.uuid req.volume_id) }))
          (λ e. not_found (platform.show_status e))
    pure (record {
      confirmed = some (record {
        parameters = [];
        volume_capabilities = confirmed_capabilities;
        volume_context = ("name", lv.name) ∷ [];
      });
      message = "";
    })

  -- The other seven calls of the service all are this one.
  unfoldable pub not_implemented : {A B : Type 0} → A → Action S B
  not_implemented request = raise (unimplemented "not implemented")
