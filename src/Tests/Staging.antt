-- ===== src/Tests/Staging.antt =====
-- The node over mountd, on a host in memory.
use rlvm.Base.{◌≡◌, refl, false, some, String, [], ◌∷◌, arith}
use rlvm.Base.Number.{decimal}
use rlvm.Csi.Node.Handlers.{node_stage_volume, node_publish_volume}
use rlvm.Csi.Spec.Node.{NodeStageVolumeRequest, NodePublishVolumeRequest}
use rlvm.Host.Flags.{Bits, bits}
use rlvm.Host.Paths.{contains_path, same_path}
use rlvm.Lvm.{Lvm, LvmError, LogicalVolume}
use rlvm.Mountd.Config.{ensure_interactable}
use rlvm.Mountd.Server.{mount, check_mount, perform_mount, get_lvm_block_path}
use rlvm.Mountd.Server.Mounted.{IsListed}
use rlvm.Mountd.Server.Mounting.{MayMount}
use rlvm.Mountd.Spec.{Mount}
use rlvm.Rpc.{ok, err, reply, with_extension}
use rlvm.System.MountHost.{MountHost, client}
use rlvm.System.Nodes.{node_stage_volume_changes, node_stage_volume_again}
use rlvm.System.Staged.{IsMounted, node_stage_volume-IsMounted, node_publish_volume-IsMounted}
use rlvm.Tests.Fixtures.{capability, panicked}
use rlvm.Tests.Host.{Mounts, host, host-IsQuiet, config}

abbrev the_volume : LogicalVolume String String
the_volume = record {
  uuid = "BEEF";
  name = "BEEF";
  capacity_bytes = 512;
  volume_group_name = "vg";
  path = "/dev/vg/BEEF";
}

-- One volume, which is always there.
abbrev pub one_volume : Lvm Mounts
one_volume = record {
  Name = String;
  Uuid = String;
  name_of = λ s. ok s;
  uuid_of = λ s. ok s;
  capacity_of = λ n. ok n;
  show_name = λ n. n;
  show_uuid = λ u. u;
  show_capacity = decimal;
  find_vg = λ n s. (ok (record { name = n; capacity_bytes = 512 }), s);
  list_lvs = λ vg s. (ok (the_volume ∷ []), s);
  add_lv = λ vg o s. (err (LvmError.command "no space"), s);
  remove_lv = λ vg n s. (err (LvmError.command "in use"), s);
  find_lv = λ vg n s. (ok the_volume, s);
  find_lv_by_uuid = λ u s. (ok the_volume, s);
}

abbrev mount_host : MountHost Mounts Bits
mount_host = record {
  os = host;
  quiet = host-IsQuiet;
  lvm = one_volume;
  fs = bits;
  config = config;
  panicked = panicked;
}

abbrev pub stage_request : NodeStageVolumeRequest
stage_request = record {
  volume_id = "BEEF";
  publish_context = [];
  staging_target_path = "/stage";
  volume_capability = some capability;
  secrets = [];
  volume_context = [];
}

abbrev pub publish_request : NodePublishVolumeRequest
publish_request = record {
  volume_id = "BEEF";
  publish_context = [];
  staging_target_path = "/stage";
  target_path = "/target";
  volume_capability = some capability;
  readonly = false;
  secrets = [];
  volume_context = [];
}

abbrev staging : Mount
staging = record { src = "/dev/vg/BEEF"; dst = "/stage" }

stage-IsListed : IsListed host "/stage"
unfolding contains_path same_path
stage-IsListed = record {
  after_mount = λ kind flags src s t h. ("/stage" ∷ s, ground arith, refl);
  after_chown = λ uid gid s t mounts listed h. ground arith;
}

target-IsListed : IsListed host "/target"
unfolding contains_path same_path
target-IsListed = record {
  after_mount = λ kind flags src s t h. ("/target" ∷ s, ground arith, refl);
  after_chown = λ uid gid s t mounts listed h. ground arith;
}

node_stage_volume-IsMounted_example : IsMounted mount_host "/stage" ("/stage" ∷ [])
unfolding node_stage_volume get_lvm_block_path mount check_mount perform_mount ensure_interactable
    contains_path same_path
node_stage_volume-IsMounted_example =
    node_stage_volume-IsMounted mount_host stage_request [] ("/stage" ∷ []) stage-IsListed refl

node_publish_volume-IsMounted_example : IsMounted mount_host "/target" ("/target" ∷ "/stage" ∷ [])
unfolding node_publish_volume get_lvm_block_path mount check_mount perform_mount ensure_interactable
    contains_path same_path
node_publish_volume-IsMounted_example =
    node_publish_volume-IsMounted mount_host publish_request ("/stage" ∷ [])
      ("/target" ∷ "/stage" ∷ []) target-IsListed refl

node_stage_volume_changes_example :
    MayMount host host-IsQuiet config staging [] [] × (contains_path [] "/stage" ≡ false)
unfolding node_stage_volume get_lvm_block_path mount check_mount perform_mount ensure_interactable
    contains_path same_path
node_stage_volume_changes_example =
    node_stage_volume_changes mount_host (record { path = "/dev/vg/BEEF" }) [] [] refl stage_request
      refl (λ h. ground arith)

node_stage_volume_again_run :
    node_stage_volume host (with_extension (client mount_host) stage_request) ("/stage" ∷ [])
    ≡ (reply tt, "/stage" ∷ [])
unfolding get_lvm_block_path ensure_interactable contains_path same_path
node_stage_volume_again_run =
    node_stage_volume_again mount_host (record { path = "/dev/vg/BEEF" }) ("/stage" ∷ [])
      ("/stage" ∷ []) refl stage_request refl refl refl refl
      (refl, refl, ground arith, ground arith, refl) refl
