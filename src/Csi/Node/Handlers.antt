-- ===== src/Csi/Node/Handlers.antt =====
-- crates/csi/src/node.rs: the handlers of `RLVMNode`, over any client of mountd and any host. The
-- client is the request's extension.
use rlvm.Base.{
  ⊤, String, ◌<>◌, Bool, true, false, not, Option, none, some, List, [], ◌∷◌, ◌++◌, if◌then◌else◌,
}
use rlvm.Base.Int.{ℤ, pos, ◌==◌}
use rlvm.Base.Text
use rlvm.Csi.Spec.Messages.{Mode, mode_number, VolumeCapability}
use rlvm.Csi.Spec.Node.{
  NodeStageVolumeRequest, NodeUnstageVolumeRequest, NodePublishVolumeRequest,
  NodeUnpublishVolumeRequest, NodeCapability, NodeGetCapabilitiesResponse, NodeGetInfoResponse,
}
use rlvm.Host.{Os}
use rlvm.Mountd.Spec.{MountFlag, to_i32, MountService}
use rlvm.Rpc.{
  invalid_argument, failed_precondition, internal, Action, Request, ◌>>=◌, ◌>>◌, pure, crash, gets,
  unwrap, attempt, settle, forward, raise_if,
}

-- `node_id` is the UUID as it prints.
pub record RlvmNode : Type 0 where
  pub node_id : String

abbrev pub is_none : {A : Type 0} → Option A → Bool
is_none none = true
is_none (some a) = false

-- Whether the access mode of the capability is the read-only mode of a single node.
abbrev pub wants_readonly : Option VolumeCapability → Bool
wants_readonly none = false
wants_readonly (some cap) = elim (cap.access_mode) [
  | none ↦ false
  | some a ↦ a.mode == pos (mode_number Mode.single_node_reader_only)
]

abbrev pub readonly_flags : Bool → List ℤ
readonly_flags readonly = if readonly then to_i32 MountFlag.read_only ∷ [] else []

-- The checks that the requests have in common.
abbrev pub require : {S : Type 0} → String → String → Action S ⊤
require field text =
    raise_if (Text.is_empty text) (invalid_argument ("`" <> field <> "` cannot be empty"))

abbrev pub require_capability : {S : Type 0} → Option VolumeCapability → Action S ⊤
require_capability cap =
    raise_if (is_none cap) (invalid_argument "`volume_capability` cannot be empty")

module _ {S F : Type 0} (os : Os S F) where
  -- `if !path.exists() { return Err(…) }`
  abbrev pub require_path : String → String → Action S ⊤
  require_path path message = do
    exists ← gets (os.path_exists path)
    raise_if (not exists) (failed_precondition message)

  unfoldable pub node_stage_volume : Request (MountService S) NodeStageVolumeRequest → Action S ⊤
  node_stage_volume request = do
    client ← unwrap request.extension
    let req = request.message
    require "volume_id" req.volume_id
    require "staging_target_path" req.staging_target_path
    require_capability req.volume_capability
    block_device ← forward (client.get_lvm_block_path (record { uuid = req.volume_id }))
    require_path block_device.path
        ("volume with id `" <> req.volume_id <> "` does not have a valid mount path: is it active?")
    require_path req.staging_target_path (
        "volume with id `" <> req.volume_id <> "` does not have a valid mount destination: "
        <> req.staging_target_path)
    forward (
        client.mount (record {
          mount = some (record { src = block_device.path; dst = req.staging_target_path });
          flags = readonly_flags (wants_readonly req.volume_capability);
        }))

  unfoldable pub node_unstage_volume :
      Request (MountService S) NodeUnstageVolumeRequest → Action S ⊤
  node_unstage_volume request = do
    client ← unwrap request.extension
    let req = request.message
    require "volume_id" req.volume_id
    require "staging_target_path" req.staging_target_path
    block_device ← forward (client.get_lvm_block_path (record { uuid = req.volume_id }))
    require_path block_device.path
        ("volume with id `" <> req.volume_id <> "` does not have a valid mount path: is it active?")
    forward (client.unmount (record { path = req.staging_target_path }))

  unfoldable pub node_publish_volume :
      Request (MountService S) NodePublishVolumeRequest → Action S ⊤
  node_publish_volume request = do
    client ← unwrap request.extension
    let req = request.message
    require "volume_id" req.volume_id
    require "staging_target_path" req.staging_target_path
    require_capability req.volume_capability
    forward (client.get_lvm_block_path (record { uuid = req.volume_id }))
    attempt (os.create_dir_all req.target_path)
        (λ text. internal ("could not create target path: " <> text))
    require_path req.staging_target_path (
        "volume with id `" <> req.volume_id <> "` does not have a valid mount path: was it staged?")
    forward (
        client.mount (record {
          mount = some (record { src = req.staging_target_path; dst = req.target_path });
          flags =
              (to_i32 MountFlag.bind ∷ []) ++ readonly_flags (wants_readonly req.volume_capability);
        }))

  unfoldable pub node_unpublish_volume :
      Request (MountService S) NodeUnpublishVolumeRequest → Action S ⊤
  node_unpublish_volume request = do
    client ← unwrap request.extension
    let req = request.message
    require "volume_id" req.volume_id
    require "target_path" req.target_path
    forward (client.get_lvm_block_path (record { uuid = req.volume_id }))
    forward (client.unmount (record { path = req.target_path }))
    -- The result of removing the directory is dropped.
    settle (os.remove_dir req.target_path)
    pure tt

  -- `node_get_volume_stats` and `node_expand_volume` are `todo!()`.
  unfoldable pub not_done : {A B : Type 0} → A → Action S B
  not_done request = crash

  unfoldable pub node_get_capabilities : ⊤ → Action S NodeGetCapabilitiesResponse
  node_get_capabilities request =
      pure (record { capabilities = NodeCapability.stage_unstage_volume ∷ [] })

  unfoldable pub node_get_info : RlvmNode → ⊤ → Action S NodeGetInfoResponse
  node_get_info node request = pure (record {
    accessible_topology = some (record { segments = ("host", node.node_id) ∷ [] });
    max_volumes_per_node = pos 0;
    node_id = node.node_id;
  })
