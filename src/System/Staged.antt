-- ===== src/System/Staged.antt =====
-- What a successful call of the node leaves behind, over mountd.
use rlvm.Base.{◌≡◌, String, true, some, [], ◌∷◌, ◌++◌, List, inl, inr, arith}
use rlvm.Base.Int.{ℤ}
use rlvm.Csi.Node.Handlers.{wants_readonly, readonly_flags, node_stage_volume, node_publish_volume}
use rlvm.Csi.Spec.Node.{NodeStageVolumeRequest, NodePublishVolumeRequest}
use rlvm.Host.Paths.{contains_path}
use rlvm.Mountd.Server.{mount}
use rlvm.Mountd.Server.Mounted.{IsListed, mount_mounted}
use rlvm.Mountd.Spec.{Mount, MountFlag, to_i32, MountService}
use rlvm.Rpc.{Result-cases, ok, reply, with_extension}
use rlvm.System.Client.{answer-eq-ok}
use rlvm.System.MountHost.{MountHost, client}

module _ {S F : Type 0} (host : MountHost S F) where
  open host use {os, quiet, lvm, fs, config, panicked}

  abbrev mountd : MountService S
  mountd = client host

  -- A mount point of that path, as the mount table of the state has it.
  abbrev pub IsMounted : String → S → Type 0
  IsMounted path t =
      (mounts : List String) × (os.mountpaths t ≡ (ok mounts, t))
      × (contains_path mounts path ≡ true)

  client-IsMounted :
      (paths : Mount) (asked : List ℤ) (s t : S)
      → IsListed os paths.dst
      → mountd.mount (record { mount = some paths; flags = asked }) s ≡ (ok tt, t)
      → IsMounted paths.dst t
  client-IsMounted paths asked s t there h =
      mount_mounted os quiet config fs paths asked s t there (
        answer-eq-ok panicked (mount os fs config (record { mount = some paths; flags = asked })) s
          h)

  -- Over a mountd on a host where reading metadata and listing the mount points change nothing, and
  -- whose mount table lists the staging path as it is written: after a successful call to stage a
  -- volume the staging path is a mount point.
  pub node_stage_volume-IsMounted :
      (req : NodeStageVolumeRequest) (s t : S)
      → IsListed os req.staging_target_path
      → node_stage_volume os (with_extension mountd req) s ≡ (reply tt, t)
      → IsMounted req.staging_target_path t
  unfolding node_stage_volume
  node_stage_volume-IsMounted req s t there h =
      elim (Result-cases (mountd.get_lvm_block_path (record { uuid = req.volume_id }) s)) [
        | inr (e, u, failed) ↦ ground arith
        | inl (device, u, found) ↦
            client-IsMounted (record { src = device.path; dst = req.staging_target_path })
              (readonly_flags (wants_readonly req.volume_capability)) u t there (ground arith)
      ]

  -- Over the same, with a table that lists the target path: after a successful call to publish a
  -- volume the target path is a mount point.
  pub node_publish_volume-IsMounted :
      (req : NodePublishVolumeRequest) (s t : S)
      → IsListed os req.target_path
      → node_publish_volume os (with_extension mountd req) s ≡ (reply tt, t)
      → IsMounted req.target_path t
  unfolding node_publish_volume
  node_publish_volume-IsMounted req s t there h =
      elim (Result-cases (mountd.get_lvm_block_path (record { uuid = req.volume_id }) s)) [
        | inr (e, u, failed) ↦ ground arith
        | inl (device, u, found) ↦ elim (Result-cases (os.create_dir_all req.target_path u)) [
          | inr (e, v, failed) ↦ ground arith
          | inl (done, v, made) ↦
              client-IsMounted (record { src = req.staging_target_path; dst = req.target_path })
                ((to_i32 MountFlag.bind ∷ [])
                  ++ readonly_flags (wants_readonly req.volume_capability))
                v t there (ground arith)
        ]
      ]
