-- ===== src/Tests/Unstaging.antt =====
-- The node over mountd, on a host that keeps a mount table: a volume is staged, published,
-- unpublished and unstaged.
use rlvm.Base.{◌≡◌, refl, List, [], ◌∷◌, arith}
use rlvm.Csi.Node.Handlers.{
  node_stage_volume, node_unstage_volume, node_publish_volume, node_unpublish_volume,
}
use rlvm.Csi.Spec.Node.{NodeUnstageVolumeRequest, NodeUnpublishVolumeRequest}
use rlvm.Host.Flags.{Bits, bits}
use rlvm.Host.Paths.{contains_path, same_path}
use rlvm.Mountd.Config.{ensure_interactable}
use rlvm.Mountd.Server.{mount, unmount, check_mount, perform_mount, get_lvm_block_path}
use rlvm.Mountd.Table.Calls.{IsSingle}
use rlvm.System.MountHost.{MountHost}
use rlvm.System.NodeCalls.{NodeCall, stage, publish, unpublish, after_all}
use rlvm.System.NodeCalls.Freed.{
  IsFree, node_mounts_once, node_unstage_volume-IsFree, node_unpublish_volume-IsFree,
}
use rlvm.Tests.Fixtures.{panicked}
use rlvm.Tests.Host.{Mounts, config}
use rlvm.Tests.Staging.{one_volume, stage_request, publish_request}
use rlvm.Tests.Table.{table_host, table_host-IsQuiet, table_host-HasTable}

abbrev mount_host : MountHost Mounts Bits
mount_host = record {
  os = table_host;
  quiet = table_host-IsQuiet;
  lvm = one_volume;
  fs = bits;
  config = config;
  panicked = panicked;
}

abbrev unpublish_request : NodeUnpublishVolumeRequest
unpublish_request = record { volume_id = "BEEF"; target_path = "/target" }

abbrev unstage_request : NodeUnstageVolumeRequest
unstage_request = record { volume_id = "BEEF"; staging_target_path = "/stage" }

-- Staged twice, published twice.
abbrev calls : List NodeCall
calls =
    stage stage_request
    ∷ stage stage_request
    ∷ publish publish_request
    ∷ publish publish_request
    ∷ []

mounted : after_all mount_host calls [] ≡ "/target" ∷ "/stage" ∷ []
unfolding node_stage_volume node_publish_volume get_lvm_block_path mount check_mount perform_mount
    ensure_interactable contains_path same_path
mounted = refl

node_mounts_once_example : IsSingle ("/target" ∷ "/stage" ∷ [])
unfolding node_stage_volume node_publish_volume get_lvm_block_path mount check_mount perform_mount
    ensure_interactable contains_path same_path
node_mounts_once_example =
    node_mounts_once mount_host table_host-HasTable (λ u s. refl) calls [] refl
      (λ path. omega arith)

node_unstage_volume-IsFree_example : IsFree mount_host table_host-HasTable (λ u s. refl) "/stage" []
unfolding node_stage_volume node_unstage_volume node_publish_volume node_unpublish_volume
    get_lvm_block_path mount unmount check_mount perform_mount ensure_interactable contains_path
    same_path
node_unstage_volume-IsFree_example =
    node_unstage_volume-IsFree mount_host table_host-HasTable (λ u s. refl)
      (stage stage_request ∷ publish publish_request ∷ unpublish unpublish_request ∷ []) [] refl
      (λ path. omega arith) unstage_request [] refl refl

node_unpublish_volume-IsFree_example :
    IsFree mount_host table_host-HasTable (λ u s. refl) "/target" ("/stage" ∷ [])
unfolding node_stage_volume node_publish_volume node_unpublish_volume get_lvm_block_path mount
    unmount check_mount perform_mount ensure_interactable contains_path same_path
node_unpublish_volume-IsFree_example =
    node_unpublish_volume-IsFree mount_host table_host-HasTable (λ u s. refl) calls [] refl
      (λ path. omega arith) unpublish_request ("/stage" ∷ []) refl refl
