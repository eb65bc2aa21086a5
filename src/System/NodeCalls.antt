-- ===== src/System/NodeCalls.antt =====
-- Sequences of volume calls of the node (crates/csi/src/node.rs), over mountd.
pub mod Single
pub mod Freed
use rlvm.Base.{
  ◌≡◌, ◌⊎◌, ⊤, refl, sym, ◌∙◌, ap, String, Bool, true, false, some, List, [], ◌∷◌, ◌&&◌, inl, inr,
  arith,
}
use mathlib.Core.Path.{subst}
use rlvm.Base.Int.{ℤ}
use rlvm.Csi.Node.Effects.{
  looked_up, stage_mount, publish_mount, node_stage_volume_state, node_unstage_volume_state,
  node_publish_volume_state, node_unpublish_volume_state, node_unstage_volume_reply,
  node_unpublish_volume_reply,
}
use rlvm.Csi.Node.Handlers.{
  node_stage_volume, node_unstage_volume, node_publish_volume, node_unpublish_volume,
}
use rlvm.Csi.Spec.Node.{
  NodeStageVolumeRequest, NodeUnstageVolumeRequest, NodePublishVolumeRequest,
  NodeUnpublishVolumeRequest,
}
use rlvm.Host.{Os, FlagSet}
use rlvm.Host.Paths.{contains_path}
use rlvm.Lvm.{Lvm}
use rlvm.Mountd.Config.{Config}
use rlvm.Mountd.Server.{mount, unmount, get_lvm_block_path, service}
use rlvm.Mountd.Server.Mounting.{IsQuiet}
use rlvm.Mountd.Spec.{Mount, MountRequest, UnmountRequest, MountService}
use rlvm.Mountd.Table.{HasTable}
use rlvm.Mountd.Table.Calls.{IsSingle, mount-IsSingle, unmount-IsSingle, unmount_once}
use rlvm.Rpc.{
  Status, Action, Result, answer, ok, reply, with_extension, Outcome-cases, pure_Result-cases,
}
use rlvm.System.Client.{answer-eq-ok}
use rlvm.System.MountHost.{MountHost, client}

-- The volume calls of the node service.
pub data NodeCall : Type 0 where
  stage : NodeStageVolumeRequest → NodeCall
  unstage : NodeUnstageVolumeRequest → NodeCall
  publish : NodePublishVolumeRequest → NodeCall
  unpublish : NodeUnpublishVolumeRequest → NodeCall

module _ (plain : String → Bool) where
  -- The path on which the call mounts or unmounts is listed as it is written.
  abbrev pub is_plain : NodeCall → Bool
  is_plain (stage req) = plain req.staging_target_path
  is_plain (unstage req) = plain req.staging_target_path
  is_plain (publish req) = plain req.target_path
  is_plain (unpublish req) = plain req.target_path

  abbrev pub all_plain : List NodeCall → Bool
  all_plain [] = true
  all_plain (call ∷ calls) = is_plain call && all_plain calls

module _ {S F : Type 0} (host : MountHost S F) where
  open host use {os}

  abbrev mountd : MountService S
  mountd = client host

  abbrev pub after_node : NodeCall → S → S
  after_node (stage req) s = (node_stage_volume os (with_extension mountd req) s).1
  after_node (unstage req) s = (node_unstage_volume os (with_extension mountd req) s).1
  after_node (publish req) s = (node_publish_volume os (with_extension mountd req) s).1
  after_node (unpublish req) s = (node_unpublish_volume os (with_extension mountd req) s).1

  abbrev pub after_all : List NodeCall → S → S
  after_all [] s = s
  after_all (call ∷ calls) s = after_all calls (after_node call s)
