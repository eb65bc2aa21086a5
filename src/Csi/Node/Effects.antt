-- ===== src/Csi/Node/Effects.antt =====
-- Which state a volume call of crates/csi/src/node.rs leaves: the one of the last call that it made.
use rlvm.Base.{◌≡◌, ◌⊎◌, String, some, inl, inr, arith, Bool-cases, ◌++◌, ◌∷◌, []}
use rlvm.Csi.Node.Handlers.{
  wants_readonly, readonly_flags, node_stage_volume, node_unstage_volume, node_publish_volume,
  node_unpublish_volume,
}
use rlvm.Csi.Node.Validation.{lacks_stage, lacks_unstage, lacks_publish, lacks_unpublish}
use rlvm.Csi.Spec.Node.{
  NodeStageVolumeRequest, NodeUnstageVolumeRequest, NodePublishVolumeRequest,
  NodeUnpublishVolumeRequest,
}
use rlvm.Host.{Os}
use rlvm.Mountd.Spec.{BlockDevice, MountFlag, MountRequest, to_i32, MountService}
use rlvm.Rpc.{ok, reply, with_extension, Result-cases}

module _ {S F : Type 0} (os : Os S F) (client : MountService S) where
  abbrev pub looked_up : String → S → S
  looked_up id s = (client.get_lvm_block_path (record { uuid = id }) s).1

  abbrev pub stage_mount : NodeStageVolumeRequest → BlockDevice → MountRequest
  stage_mount req device = record {
    mount = some (record { src = device.path; dst = req.staging_target_path });
    flags = readonly_flags (wants_readonly req.volume_capability);
  }

  abbrev pub publish_mount : NodePublishVolumeRequest → MountRequest
  publish_mount req = record {
    mount = some (record { src = req.staging_target_path; dst = req.target_path });
    flags = (to_i32 MountFlag.bind ∷ []) ++ readonly_flags (wants_readonly req.volume_capability);
  }

  pub node_stage_volume_state :
      (req : NodeStageVolumeRequest) (s : S)
      → let t = (node_stage_volume os (with_extension client req) s).1 in
        (t ≡ s)
        ⊎ (t ≡ looked_up req.volume_id s)
        ⊎ ((device : BlockDevice) × (t
              ≡ (client.mount (stage_mount req device) (looked_up req.volume_id s)).1))
  unfolding node_stage_volume
  node_stage_volume_state req s = elim (Bool-cases (lacks_stage req)) [
    | inl lacks ↦ inl (ground arith)
    | inr full ↦
        elim (Result-cases (client.get_lvm_block_path (record { uuid = req.volume_id }) s)) [
          | inr (e, u, failed) ↦ inr (inl (ground arith))
          | inl (device, u, found) ↦ elim (Bool-cases (os.path_exists device.path u)) [
            | inr gone ↦ inr (inl (ground arith))
            | inl there ↦ elim (Bool-cases (os.path_exists req.staging_target_path u)) [
              | inr gone ↦ inr (inl (ground arith))
              | inl ready ↦ inr (inr (device, ground arith))
            ]
          ]
        ]
  ]

  pub node_unstage_volume_state :
      (req : NodeUnstageVolumeRequest) (s : S)
      → let t = (node_unstage_volume os (with_extension client req) s).1 in
        (t ≡ s)
        ⊎ (t ≡ looked_up req.volume_id s)
        ⊎ (t
            ≡ (client.unmount
                (record { path = req.staging_target_path })
                (looked_up req.volume_id s)).1)
  unfolding node_unstage_volume
  node_unstage_volume_state req s = elim (Bool-cases (lacks_unstage req)) [
    | inl lacks ↦ inl (ground arith)
    | inr full ↦
        elim (Result-cases (client.get_lvm_block_path (record { uuid = req.volume_id }) s)) [
          | inr (e, u, failed) ↦ inr (inl (ground arith))
          | inl (device, u, found) ↦ elim (Bool-cases (os.path_exists device.path u)) [
            | inr gone ↦ inr (inl (ground arith))
            | inl there ↦ inr (inr (ground arith))
          ]
        ]
  ]

  pub node_publish_volume_state :
      (req : NodePublishVolumeRequest) (s : S)
      → let t = (node_publish_volume os (with_extension client req) s).1 in
        let u = looked_up req.volume_id s in
        (t ≡ s)
        ⊎ (t ≡ u)
        ⊎ (t ≡ (os.create_dir_all req.target_path u).1)
        ⊎ (t ≡ (client.mount (publish_mount req) (os.create_dir_all req.target_path u).1).1)
  unfolding node_publish_volume
  node_publish_volume_state req s = elim (Bool-cases (lacks_publish req)) [
    | inl lacks ↦ inl (ground arith)
    | inr full ↦
        elim (Result-cases (client.get_lvm_block_path (record { uuid = req.volume_id }) s)) [
          | inr (e, u, failed) ↦ inr (inl (ground arith))
          | inl (device, u, found) ↦ elim (Result-cases (os.create_dir_all req.target_path u)) [
            | inr (e, v, failed) ↦ inr (inr (inl (ground arith)))
            | inl (made, v, done) ↦ elim (Bool-cases (os.path_exists req.staging_target_path v)) [
              | inr gone ↦ inr (inr (inl (ground arith)))
              | inl there ↦ inr (inr (inr (ground arith)))
            ]
          ]
        ]
  ]

  pub node_unpublish_volume_state :
      (req : NodeUnpublishVolumeRequest) (s : S)
      → let t = (node_unpublish_volume os (with_extension client req) s).1 in
        let u = looked_up req.volume_id s in
        let v = (client.unmount (record { path = req.target_path }) u).1 in
        (t ≡ s) ⊎ (t ≡ u) ⊎ (t ≡ v) ⊎ (t ≡ (os.remove_dir req.target_path v).1)
  unfolding node_unpublish_volume
  node_unpublish_volume_state req s = elim (Bool-cases (lacks_unpublish req)) [
    | inl lacks ↦ inl (ground arith)
    | inr full ↦
        elim (Result-cases (client.get_lvm_block_path (record { uuid = req.volume_id }) s)) [
          | inr (e, u, failed) ↦ inr (inl (ground arith))
          | inl (device, u, found) ↦
              elim (Result-cases (client.unmount (record { path = req.target_path }) u)) [
                | inr (e, v, failed) ↦ inr (inr (inl (ground arith)))
                | inl (gone, v, done) ↦ inr (inr (inr (ground arith)))
              ]
        ]
  ]

  -- A volume that was unstaged with success has been unmounted.
  pub node_unstage_volume_reply :
      (req : NodeUnstageVolumeRequest) (s t : S)
      → node_unstage_volume os (with_extension client req) s ≡ (reply tt, t)
      → client.unmount (record { path = req.staging_target_path }) (looked_up req.volume_id s)
        ≡ (ok tt, t)
  unfolding node_unstage_volume
  node_unstage_volume_reply req s t h =
      elim (Result-cases (client.get_lvm_block_path (record { uuid = req.volume_id }) s)) [
        | inr (e, u, failed) ↦ ground arith
        | inl (device, u, found) ↦ ground arith
      ]

  -- A volume that was unpublished with success has been unmounted, before its directory is removed.
  pub node_unpublish_volume_reply :
      (req : NodeUnpublishVolumeRequest) (s t : S)
      → node_unpublish_volume os (with_extension client req) s ≡ (reply tt, t)
      → (v : S) × (client.unmount (record { path = req.target_path }) (looked_up req.volume_id s)
          ≡ (ok tt, v))
        × (t ≡ (os.remove_dir req.target_path v).1)
  unfolding node_unpublish_volume
  node_unpublish_volume_reply req s t h =
      elim (Result-cases (client.get_lvm_block_path (record { uuid = req.volume_id }) s)) [
        | inr (e, u, failed) ↦ ground arith
        | inl (device, u, found) ↦
            elim (Result-cases (client.unmount (record { path = req.target_path }) u)) [
              | inr (e, v, failed) ↦ ground arith
              | inl (gone, v, done) ↦ (v, ground arith, ground arith)
            ]
      ]
