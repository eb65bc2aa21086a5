-- ===== src/Tests/Provisioning.antt =====
-- A volume is created and staged, on one host in memory.
use rlvm.Base.{◌≡◌, refl, not, [], arith}
use rlvm.Base.Number.{digits, upper_hex}
use rlvm.Base.Text
use rlvm.Csi.Controller.Handlers.{create_volume}
use rlvm.Csi.Controller.Parts.{find_or_create, process_volume}
use rlvm.Csi.Node.Handlers.{node_stage_volume}
use rlvm.Host.{Os}
use rlvm.Host.Flags.{Bits, bits}
use rlvm.Host.Paths.{contains_path, same_path}
use rlvm.Lvm.Memory.{Disk, memory, volume}
use rlvm.Mountd.Config.{ensure_interactable}
use rlvm.Mountd.Server.{service}
use rlvm.Mountd.Server.Mounting.{IsQuiet}
use rlvm.Rpc.{ok, reply, with_extension}
use rlvm.System.Provisioning.{node_stage_volume-create_volume}
use rlvm.Tests.Fixtures.{
  platform, controller, panicked, managed, request, data_volume, with_data, gib,
}
use rlvm.Tests.Host.{host, config, metadata_of}
use rlvm.Tests.Staging.{stage_request}
use rlvm.Volumed.Server.{
  get_free_bytes, create_logical_volume, format_logical_volume, get_logical_volume,
}

-- The disk is the state, and no mount is kept.
abbrev pub disk_host : Os Disk Bits
disk_host = record {
  path_exists = λ path s. not (Text.same_text path "/nowhere");
  is_dir = λ path s. not (Text.same_text path "/dev/vg/BEEF");
  metadata = λ path s. (ok (metadata_of path), s);
  glob = host.glob;
  mountpaths = λ s. (ok [], s);
  mount = λ fs flags src dst s. (ok tt, s);
  unmount = λ path s. (ok tt, s);
  chown = λ path uid gid s. (ok tt, s);
  create_dir_all = λ path s. (ok tt, s);
  remove_dir = λ path s. (ok tt, s);
}

disk_host-IsQuiet : IsQuiet disk_host
disk_host-IsQuiet = record { metadata_state = λ path s. refl; mountpaths_state = λ s. refl }

node_stage_volume-create_volume_example :
    node_stage_volume disk_host
      (with_extension (service disk_host memory bits config panicked) stage_request)
      with_data
    ≡ (reply tt, with_data)
unfolding create_volume find_or_create get_free_bytes get_logical_volume create_logical_volume
    format_logical_volume upper_hex digits ensure_interactable contains_path same_path
node_stage_volume-create_volume_example =
    node_stage_volume-create_volume managed platform controller disk_host disk_host-IsQuiet bits
      config request [] with_data (process_volume controller data_volume) (volume "BEEF" gib) refl
      refl refl stage_request with_data with_data with_data [] refl refl refl refl refl refl refl
      (refl, refl, ground arith, ground arith, refl) refl refl
