-- ===== src/Csi/Node/Mounts.antt =====
-- What the volume handlers of crates/csi/src/node.rs ask of mountd.
use rlvm.Base.{◌≡◌, ⊤, String, ◌<>◌, true, false, some, [], ◌∷◌, if◌then◌else◌, arith}
use rlvm.Csi.Node.Handlers.{
  wants_readonly, node_stage_volume, node_unstage_volume, node_publish_volume,
  node_unpublish_volume,
}
use rlvm.Csi.Node.Validation.{lacks_stage, lacks_unstage, lacks_publish, lacks_unpublish}
use rlvm.Csi.Spec.Node.{
  NodeStageVolumeRequest, NodeUnstageVolumeRequest, NodePublishVolumeRequest,
  NodeUnpublishVolumeRequest,
}
use rlvm.Host.{Os}
use rlvm.Mountd.Spec.{BlockDevice, MountFlag, to_i32, MountService}
use rlvm.Rpc.{Code, Result, Outcome, Status, ok, err, reply, fail, with_extension}

-- A call's result as the handler's outcome.
abbrev pub passed_on : {A : Type 0} → Result Status A → Outcome Status A
passed_on (ok a) = reply a
passed_on (err e) = fail e

module _ {S F : Type 0} (os : Os S F) (client : MountService S) (id : String) (device : BlockDevice)
    (s t : S) (found : client.get_lvm_block_path (record { uuid = id }) s ≡ (ok device, t)) where
  -- A complete request to stage a volume, whose device and staging path exist, mounts the device
  -- that mountd names on the staging path, read-only exactly if the access mode is the read-only
  -- mode of a single node, and answers as mountd does.
  pub node_stage_volume_mounts :
      (req : NodeStageVolumeRequest) (r : Result Status ⊤) (u : S)
      → req.volume_id ≡ id
      → lacks_stage req ≡ false
      → os.path_exists device.path t ≡ true
      → os.path_exists req.staging_target_path t ≡ true
      → client.mount
          (record {
            mount = some (record { src = device.path; dst = req.staging_target_path });
            flags =
                if wants_readonly req.volume_capability
                then to_i32 MountFlag.read_only ∷ []
                else [];
          })
          t
        ≡ (r, u)
      → node_stage_volume os (with_extension client req) s ≡ (passed_on r, u)
  unfolding node_stage_volume
  node_stage_volume_mounts req r u same full device_there path_there mounting = ground arith

  -- A complete request to publish a volume that mountd knows makes the target path. If that
  -- succeeds, and the staging path exists, it mounts the staging path on the target path, always as
  -- a bind mount, read-only exactly as for staging, whatever the `readonly` field of the request,
  -- and answers as mountd does.
  pub node_publish_volume_mounts :
      (req : NodePublishVolumeRequest) (r : Result Status ⊤) (u v : S)
      → req.volume_id ≡ id
      → lacks_publish req ≡ false
      → os.create_dir_all req.target_path t ≡ (ok tt, u)
      → os.path_exists req.staging_target_path u ≡ true
      → client.mount
          (record {
            mount = some (record { src = req.staging_target_path; dst = req.target_path });
            flags =
                if wants_readonly req.volume_capability
                then to_i32 MountFlag.bind ∷ to_i32 MountFlag.read_only ∷ []
                else to_i32 MountFlag.bind ∷ [];
          })
          u
        ≡ (r, v)
      → node_publish_volume os (with_extension client req) s ≡ (passed_on r, v)
  unfolding node_publish_volume
  node_publish_volume_mounts req r u v same full made path_there mounting = ground arith

  -- Unstaging unmounts the staging path, and only if the volume's device exists.
  pub node_unstage_volume_unmounts :
      (req : NodeUnstageVolumeRequest) (r : Result Status ⊤) (u : S)
      → req.volume_id ≡ id
      → lacks_unstage req ≡ false
      → client.unmount (record { path = req.staging_target_path }) t ≡ (r, u)
      → node_unstage_volume os (with_extension client req) s ≡ (
          if os.path_exists device.path t then (passed_on r, u) else (
            fail (record {
              code = Code.failed_precondition;
              message =
                  "volume with id `" <> req.volume_id
                  <> "` does not have a valid mount path: is it active?";
            }),
            t,
          ))
  unfolding node_unstage_volume
  node_unstage_volume_unmounts req r u same full unmounting = ground arith

  -- A complete request to unpublish a volume that mountd knows unmounts the target path and then
  -- removes its directory. It succeeds exactly if the unmount does, whether or not the directory could be removed, and an unmount that fails
  -- leaves the directory.
  pub node_unpublish_volume_unmounts :
      (req : NodeUnpublishVolumeRequest) (r : Result Status ⊤) (u : S)
      → req.volume_id ≡ id
      → lacks_unpublish req ≡ false
      → client.unmount (record { path = req.target_path }) t ≡ (r, u)
      → node_unpublish_volume os (with_extension client req) s ≡ (elim r [
        | ok done ↦ (reply tt, (os.remove_dir req.target_path u).1)
        | err e ↦ (fail e, u)
      ])
  unfolding node_unpublish_volume
  node_unpublish_volume_unmounts req r u same full unmounting = ground arith
