-- ===== src/Csi/Node/Validation.antt =====
-- Which requests the four volume handlers of crates/csi/src/node.rs refuse unseen.
use rlvm.Base.{◌≡◌, ◌⊎◌, ⊤, String, inl, inr, true, false, Bool, ◌||◌, arith, Bool-cases}
use rlvm.Base.Text
use rlvm.Csi.Node.Handlers.{
  is_none, node_stage_volume, node_unstage_volume, node_publish_volume, node_unpublish_volume,
}
use rlvm.Csi.Spec.Node.{
  NodeStageVolumeRequest, NodeUnstageVolumeRequest, NodePublishVolumeRequest,
  NodeUnpublishVolumeRequest,
}
use rlvm.Host.{Os}
use rlvm.Mountd.Spec.{BlockDevice, MountService}
use rlvm.Rpc.{Code, FailsWith, Outcome, Status, Result-cases, ok, err, fail, with_extension}

-- A field that csi.proto requires and the handler checks is missing. Of a publication the handler
-- does not check `target_path`, which csi.proto requires too, and it checks `staging_target_path`,
-- which csi.proto leaves optional for a plugin that does not stage.
abbrev pub lacks_stage : NodeStageVolumeRequest → Bool
lacks_stage req =
    Text.is_empty req.volume_id
    || Text.is_empty req.staging_target_path
    || is_none req.volume_capability

abbrev pub lacks_unstage : NodeUnstageVolumeRequest → Bool
lacks_unstage req = Text.is_empty req.volume_id || Text.is_empty req.staging_target_path

abbrev pub lacks_publish : NodePublishVolumeRequest → Bool
lacks_publish req =
    Text.is_empty req.volume_id
    || Text.is_empty req.staging_target_path
    || is_none req.volume_capability

abbrev pub lacks_unpublish : NodeUnpublishVolumeRequest → Bool
lacks_unpublish req = Text.is_empty req.volume_id || Text.is_empty req.target_path

module _ {S F : Type 0} (os : Os S F) (client : MountService S) (s : S) where
  -- A request that lacks such a field fails as on an invalid argument, and leaves the state. One
  -- that does not goes on to ask mountd for the device: if mountd fails, the call fails with the
  -- same status, in the state that mountd left.
  abbrev pub IsChecked : Bool → String → Outcome Status ⊤ × S → Type 0
  IsChecked lacks id run =
      ((lacks ≡ true) × FailsWith Code.invalid_argument run × (run.1 ≡ s))
      ⊎ ((lacks ≡ false)
          × (device : BlockDevice) × (t : S) × (client.get_lvm_block_path (record { uuid = id }) s
              ≡ (ok device, t)))
      ⊎ ((lacks ≡ false)
          × (e : Status) × (t : S) × (client.get_lvm_block_path (record { uuid = id }) s
              ≡ (err e, t))
          × (run ≡ (fail e, t)))

  stage_validated :
      (req : NodeStageVolumeRequest)
      → IsChecked
          (lacks_stage req)
          req.volume_id
          (node_stage_volume os (with_extension client req) s)
  unfolding node_stage_volume
  stage_validated req = elim (Bool-cases (lacks_stage req)) [
    | inl lacking ↦ inl (lacking, ground arith, ground arith)
    | inr complete ↦
        elim (Result-cases (client.get_lvm_block_path (record { uuid = req.volume_id }) s)) [
          | inl (device, t, found) ↦ inr (inl (complete, device, t, found))
          | inr (e, t, failed) ↦ inr (inr (complete, e, t, failed, ground arith))
        ]
  ]

  unstage_validated :
      (req : NodeUnstageVolumeRequest)
      → IsChecked
          (lacks_unstage req)
          req.volume_id
          (node_unstage_volume os (with_extension client req) s)
  unfolding node_unstage_volume
  unstage_validated req = elim (Bool-cases (lacks_unstage req)) [
    | inl lacking ↦ inl (lacking, ground arith, ground arith)
    | inr complete ↦
        elim (Result-cases (client.get_lvm_block_path (record { uuid = req.volume_id }) s)) [
          | inl (device, t, found) ↦ inr (inl (complete, device, t, found))
          | inr (e, t, failed) ↦ inr (inr (complete, e, t, failed, ground arith))
        ]
  ]

  publish_validated :
      (req : NodePublishVolumeRequest) (target : String)
      → IsChecked
          (lacks_publish req)
          req.volume_id
          (node_publish_volume os (with_extension client (record req { target_path = target })) s)
  unfolding node_publish_volume
  publish_validated req target = elim (Bool-cases (lacks_publish req)) [
    | inl lacking ↦ inl (lacking, ground arith, ground arith)
    | inr complete ↦
        elim (Result-cases (client.get_lvm_block_path (record { uuid = req.volume_id }) s)) [
          | inl (device, t, found) ↦ inr (inl (complete, device, t, found))
          | inr (e, t, failed) ↦ inr (inr (complete, e, t, failed, ground arith))
        ]
  ]

  unpublish_validated :
      (req : NodeUnpublishVolumeRequest)
      → IsChecked
          (lacks_unpublish req)
          req.volume_id
          (node_unpublish_volume os (with_extension client req) s)
  unfolding node_unpublish_volume
  unpublish_validated req = elim (Bool-cases (lacks_unpublish req)) [
    | inl lacking ↦ inl (lacking, ground arith, ground arith)
    | inr complete ↦
        elim (Result-cases (client.get_lvm_block_path (record { uuid = req.volume_id }) s)) [
          | inl (device, t, found) ↦ inr (inl (complete, device, t, found))
          | inr (e, t, failed) ↦ inr (inr (complete, e, t, failed, ground arith))
        ]
  ]

  -- Of the four volume calls, one without a volume identifier, one to stage or publish without a
  -- staging path or a capability, one to unstage without a staging path, and one to unpublish
  -- without a target path fails as on an invalid argument and leaves the state. Any other goes on
  -- to ask mountd for the device, and if mountd fails, fails with its status; so does one to
  -- publish without a target path, as on any target path.
  pub node_requests_validated :
      (stage : NodeStageVolumeRequest) (unstage : NodeUnstageVolumeRequest)
      (publish : NodePublishVolumeRequest) (target : String)
      (unpublish : NodeUnpublishVolumeRequest)
      → IsChecked
          (lacks_stage stage)
          stage.volume_id
          (node_stage_volume os (with_extension client stage) s)
        × IsChecked
            (lacks_unstage unstage)
            unstage.volume_id
            (node_unstage_volume os (with_extension client unstage) s)
        × IsChecked (lacks_publish publish) publish.volume_id (
            node_publish_volume os
              (with_extension client (record publish { target_path = target }))
              s)
        × IsChecked
            (lacks_unpublish unpublish)
            unpublish.volume_id
            (node_unpublish_volume os (with_extension client unpublish) s)
  node_requests_validated stage unstage publish target unpublish = (
    stage_validated stage,
    unstage_validated unstage,
    publish_validated publish target,
    unpublish_validated unpublish,
  )
