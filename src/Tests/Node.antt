-- ===== src/Tests/Node.antt =====
-- The node's handlers and the probe, over small clients.
use rlvm.Base.{false, ◌≡◌, refl, String, true, none, some, [], ◌∷◌}
use rlvm.Csi.Identity.{Verifier, probe}
use rlvm.Csi.Identity.Probing.{probe_answers}
use rlvm.Csi.Node.Handlers.{
  node_stage_volume, node_unstage_volume, node_publish_volume, node_unpublish_volume,
}
use rlvm.Csi.Node.Mounts.{
  node_stage_volume_mounts, node_publish_volume_mounts, node_unpublish_volume_unmounts,
}
use rlvm.Csi.Node.Validation.{IsChecked, node_requests_validated}
use rlvm.Csi.Spec.Node.{
  NodeStageVolumeRequest, NodeUnstageVolumeRequest, NodePublishVolumeRequest,
  NodeUnpublishVolumeRequest,
}
use rlvm.Rpc.{ok, reply, with_extension}
use rlvm.Tests.Fixtures.{volumed, capability, free, with_data}
use rlvm.Tests.Host.{host, mountd, idle_mountd}
use rlvm.Volumed.Server.{get_free_bytes}

abbrev stage : String → NodeStageVolumeRequest
stage id = record {
  volume_id = id;
  publish_context = [];
  staging_target_path = "/stage";
  volume_capability = some capability;
  secrets = [];
  volume_context = [];
}

abbrev unstage : String → NodeUnstageVolumeRequest
unstage id = record { volume_id = id; staging_target_path = "/stage" }

abbrev publish : String → NodePublishVolumeRequest
publish id = record {
  volume_id = id;
  publish_context = [];
  staging_target_path = "/stage";
  target_path = "/target";
  volume_capability = some capability;
  readonly = true;
  secrets = [];
  volume_context = [];
}

abbrev unpublish : String → NodeUnpublishVolumeRequest
unpublish id = record { volume_id = id; target_path = "/target" }

node_stage_volume_mounts_run :
    node_stage_volume host (with_extension mountd (stage "BEEF")) [] ≡ (reply tt, "/stage" ∷ [])
node_stage_volume_mounts_run =
    node_stage_volume_mounts host mountd "BEEF" (record { path = "/dev/vg/BEEF" }) [] [] refl
      (stage "BEEF") (ok tt) ("/stage" ∷ []) refl refl refl refl refl

node_publish_volume_mounts_example :
    node_publish_volume host (with_extension mountd (publish "BEEF")) []
    ≡ (reply tt, "/target" ∷ [])
node_publish_volume_mounts_example =
    node_publish_volume_mounts host mountd "BEEF" (record { path = "/dev/vg/BEEF" }) [] [] refl
      (publish "BEEF") (ok tt) [] ("/target" ∷ []) refl refl refl refl refl

node_unpublish_volume_unmounts_run :
    node_unpublish_volume host (with_extension mountd (unpublish "BEEF")) ("/target" ∷ [])
    ≡ (reply tt, [])
node_unpublish_volume_unmounts_run =
    node_unpublish_volume_unmounts host mountd "BEEF" (record { path = "/dev/vg/BEEF" })
      ("/target" ∷ []) ("/target" ∷ []) refl (unpublish "BEEF") (ok tt) [] refl refl refl

-- Requests without a volume identifier, and one to publish without a target path.
node_requests_validated_example :
    IsChecked host mountd [] true "" (node_stage_volume host (with_extension mountd (stage "")) [])
    × IsChecked host mountd [] true ""
        (node_unstage_volume host (with_extension mountd (unstage "")) [])
    × IsChecked host mountd [] false "BEEF" (
        node_publish_volume host
          (with_extension mountd (record (publish "BEEF") { target_path = "" }))
          [])
    × IsChecked host mountd [] true ""
        (node_unpublish_volume host (with_extension mountd (unpublish "")) [])
node_requests_validated_example =
    node_requests_validated host mountd [] (stage "") (unstage "") (publish "BEEF") ""
      (unpublish "")

probe_with_volumed :
    (probe Verifier.controller (record { volumed = some volumed; mountd = none }) with_data
      ≡ (reply (record { ready = some true }), with_data))
    × (probe Verifier.node (record { volumed = none; mountd = some idle_mountd }) with_data
        ≡ (reply (record { ready = some true }), with_data))
unfolding get_free_bytes
probe_with_volumed =
    probe_answers volumed idle_mountd (ok (record { bytes_free = free })) with_data with_data refl
