-- ===== src/System/Nodes.antt =====
-- The node's handlers on top of mountd: what a call of the node can do to the host.
use rlvm.Base.{◌≡◌, ◌≢◌, String, true, false, List, arith}
use rlvm.Csi.Node.Handlers.{wants_readonly, readonly_flags, node_stage_volume, node_unstage_volume}
use rlvm.Csi.Node.Validation.{lacks_stage}
use rlvm.Csi.Spec.Node.{NodeStageVolumeRequest, NodeUnstageVolumeRequest}
use rlvm.Host.Paths.{contains_path}
use rlvm.Mountd.Config.{ensure_interactable}
use rlvm.Mountd.Server.Mounting.{MayMount, mount_changes, mount_again, unmount_changes}
use rlvm.Mountd.Spec.{BlockDevice, Mount, MountService}
use rlvm.Rpc.{Replies, ok, reply, with_extension}
use rlvm.System.MountHost.{MountHost, client}

module _ {S F : Type 0} (host : MountHost S F) (device : BlockDevice) (s : S) (mounts : List String)
    (listed : host.os.mountpaths s ≡ (ok mounts, s)) where
  open host use {os, quiet, lvm, fs, config, panicked}

  abbrev mountd : MountService S
  mountd = client host

  abbrev staging : NodeStageVolumeRequest → Mount
  staging req = record { src = device.path; dst = req.staging_target_path }

  -- Over a mountd on a host that lists its mount points, and whose lookups change nothing: a call
  -- to stage a volume changes the host only if mountd's configuration gives access to the volume's
  -- device and to the staging path, which is a directory and no mount point.
  pub node_stage_volume_changes :
      (req : NodeStageVolumeRequest)
      → mountd.get_lvm_block_path (record { uuid = req.volume_id }) s ≡ (ok device, s)
      → (node_stage_volume os (with_extension mountd req) s).1 ≢ s
      → MayMount os quiet config
          (staging req)
          (readonly_flags (wants_readonly req.volume_capability))
          s
        × (contains_path mounts req.staging_target_path ≡ false)
  unfolding node_stage_volume
  node_stage_volume_changes req found changed =
      mount_changes os quiet config fs (staging req)
        (readonly_flags (wants_readonly req.volume_capability)) s mounts listed
        (λ same. changed (ground arith))

  -- Over the same: a complete call to stage a volume on an allowed path that is a mount point
  -- already succeeds, and changes nothing, whatever is mounted there.
  pub node_stage_volume_again :
      (req : NodeStageVolumeRequest)
      → mountd.get_lvm_block_path (record { uuid = req.volume_id }) s ≡ (ok device, s)
      → lacks_stage req ≡ false
      → os.path_exists device.path s ≡ true
      → os.path_exists req.staging_target_path s ≡ true
      → MayMount os quiet config
          (staging req)
          (readonly_flags (wants_readonly req.volume_capability))
          s
      → contains_path mounts req.staging_target_path ≡ true
      → node_stage_volume os (with_extension mountd req) s ≡ (reply tt, s)
  unfolding node_stage_volume
  node_stage_volume_again req found full device_there path_there may mounted = ground (
    arith,
    mount_again os quiet config fs (staging req)
        (readonly_flags (wants_readonly req.volume_capability)) s mounts listed may mounted,
  )

  -- Over the same: a call to unstage a volume changes the host only if the staging path is a mount
  -- point to which mountd's configuration gives access.
  pub node_unstage_volume_changes :
      (req : NodeUnstageVolumeRequest)
      → mountd.get_lvm_block_path (record { uuid = req.volume_id }) s ≡ (ok device, s)
      → (node_unstage_volume os (with_extension mountd req) s).1 ≢ s
      → Replies (ensure_interactable os config req.staging_target_path false s)
        × (contains_path mounts req.staging_target_path ≡ true)
  unfolding node_unstage_volume
  node_unstage_volume_changes req found changed =
      unmount_changes os quiet config req.staging_target_path mounts s listed
        (λ same. changed (ground arith))
