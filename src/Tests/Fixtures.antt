-- ===== src/Tests/Fixtures.antt =====
-- The parameters of the programs at concrete values: a platform, a configuration, a disk in memory,
-- and volumed over it.
use rlvm.Base.{if◌then◌else◌, refl, arith, ℕ, true, some, none, [], ◌∷◌}
use rlvm.Base.Int.{ℤ, pos}
use rlvm.Base.Text
use rlvm.Csi.Controller.Parts.{Platform, RlvmController}
use rlvm.Csi.Spec.Controller.{CreateVolumeRequest}
use rlvm.Csi.Spec.Messages.{VolumeCapability, AccessType}
use rlvm.Lvm.Memory.{Disk, memory, memory-IsLawful, the_group}
use rlvm.System.Managed.{IsStable, Managed}
use rlvm.Rpc.{Status, internal, not_found, ok}
use rlvm.Volumed.Main.{service}
use rlvm.Volumed.Server.{Config, Mkfs}
use rlvm.Volumed.Spec.{LogicalVolume, VolumeService}

-- "data" hashes to a number of its own.
abbrev pub platform : Platform
platform = record {
  hash = λ s. if Text.same_text s "data" then 48879 else 57005;
  show_status = λ e. e.message;
  debug_volume = λ lv. lv.name;
  overflow_checks = true;
}

abbrev pub controller : RlvmController
controller = record { node_id = "n1" }

-- 1 GiB of the group's 10 GiB are kept free.
abbrev pub config : Config
config = record { volume_group = "vg"; spare_bytes = some 1_073_741_824 }

abbrev pub mkfs : Mkfs Disk
mkfs = λ path disk. (ok (record { success = true; stderr = "" }), disk)

abbrev pub panicked : Status
panicked = internal "the handler panicked"

abbrev pub volumed : VolumeService Disk
volumed = service memory mkfs panicked config "vg"

abbrev pub capability : VolumeCapability
capability = record {
  access_mode = some (record { mode = pos 1 });
  access_type = some AccessType.block;
}

-- Access by several nodes.
abbrev pub multi_node : VolumeCapability
multi_node = record {
  access_mode = some (record { mode = pos 5 });
  access_type = some AccessType.block;
}

abbrev pub gib : ℕ
gib = 1_073_741_824

-- A request for a volume of that many bytes, with the name "data".
abbrev pub sized : ℤ → CreateVolumeRequest
sized bytes = record {
  name = "data";
  capacity_range = some (record { required_bytes = bytes; limit_bytes = pos 0 });
  volume_capabilities = capability ∷ [];
  parameters = [];
  secrets = [];
  volume_content_source = none;
  accessibility_requirements = none;
}

abbrev pub request : CreateVolumeRequest
request = sized (pos gib)

-- What the group has without the spare bytes.
abbrev pub free : ℕ
free = 9_663_676_416

-- The volume of the request, on a disk that has no other one.
abbrev pub data_volume : LogicalVolume
data_volume = record { uuid = "BEEF"; name = "BEEF"; capacity_bytes = gib; volume_group = "vg" }

abbrev pub with_data : Disk
with_data = ("BEEF", gib) ∷ []

abbrev pub missing_data : Status
missing_data = not_found "BEEF"

pub memory-IsStable : IsStable memory mkfs "vg" the_group
memory-IsStable = record {
  group = λ s. refl;
  fits = omega arith;
  format = λ path s lv found. found;
}

abbrev pub managed : Managed Disk
managed = record {
  lvm = memory;
  laws = memory-IsLawful;
  mkfs = mkfs;
  panicked = panicked;
  config = config;
  resource = "vg";
  vg = the_group;
  stable = memory-IsStable;
}
