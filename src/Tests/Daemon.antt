-- ===== src/Tests/Daemon.antt =====
-- The program of volumed, over a disk in memory.
use Prim.Native.Nat.{min}
use rlvm.Base.{◌≡◌, ◌<◌, ◌+◌, ⊤, refl, String, some, [], arith}
use rlvm.Host.{Startup, Cli}
use rlvm.Lvm.{VolumeGroup}
use rlvm.Lvm.Memory.{Disk, memory, the_group}
use rlvm.Rpc.{Replies, ok, err, fail, reply, with_extension}
use rlvm.Tests.Fixtures.{config, mkfs, panicked, free, with_data}
use rlvm.Volumed.Main.{load, main}
use rlvm.Volumed.Main.Starting.{load_accepted, main_overcommitted, main_cleanup}
use rlvm.Volumed.Server.{Config, free_bytes, get_free_bytes}
use rlvm.Volumed.Server.FreeBytes.{get_free_bytes_exact}
use rlvm.Volumed.Spec.{empty, VolumeService}

-- The disk has a volume of 1 GiB, which the answer does not count.
get_free_bytes_exact_example :
    (get_free_bytes memory config (with_extension the_group empty) with_data
      ≡ (reply (record { bytes_free = free }), with_data))
    × (free + min 1_073_741_824 10_737_418_240 ≡ 10_737_418_240)
get_free_bytes_exact_example = get_free_bytes_exact memory config the_group with_data (omega arith)

abbrev args : Cli
args = record { config = "/etc/volumed"; socket_path = "/run/volumed" }

-- A host whose only file holds the given configuration.
abbrev host : Config → Startup Disk ⊤ Config (VolumeService Disk)
host cfg = record {
  open_file = λ path s. (ok tt, s);
  read_config = λ file. ok cfg;
  bind = λ path s. (ok tt, s);
  set_handler = λ s. (ok tt, s);
  serve = λ service s. (err "the socket was closed", with_data);
  remove_file = λ path s. (ok tt, s);
}

load_accepted_example :
    (file : ⊤) × (u : Disk) × (vg : VolumeGroup String) × ((host config).open_file "/etc/volumed" []
      ≡ (ok file, u))
    × ((host config).read_config file ≡ ok config)
    × (memory.name_of "vg" ≡ ok "vg")
    × (memory.find_vg "vg" u ≡ (ok vg, []))
    × (1_073_741_824 < vg.capacity_bytes)
    × (free_bytes config vg.capacity_bytes + 1_073_741_824 ≡ vg.capacity_bytes)
unfolding load
load_accepted_example =
    load_accepted memory mkfs panicked (host config) args [] [] config "vg" 1_073_741_824 refl refl

abbrev greedy : Config
greedy = record { volume_group = "vg"; spare_bytes = some 10_737_418_240 }

main_overcommitted_run :
    let end = main memory mkfs panicked (host greedy) args [] in ¬ Replies end × (end.1 ≡ [])
main_overcommitted_run =
    main_overcommitted memory mkfs panicked (host greedy) args [] [] [] tt greedy "vg" the_group
      refl refl refl refl refl

served_until_closed :
    main memory mkfs panicked (host config) args [] ≡ (fail "the socket was closed", with_data)
unfolding load
served_until_closed =
    main_cleanup memory mkfs panicked (host config) args [] [] [] [] with_data (config, "vg")
      (err "the socket was closed") refl refl refl refl
