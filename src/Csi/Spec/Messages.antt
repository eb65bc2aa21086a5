-- ===== src/Csi/Spec/Messages.antt =====
-- The messages of protos/csi.proto that several services share.
use Prim.Native.String.{String}
use rlvm.Base.{ℕ, Option, List, if◌then◌else◌}
use rlvm.Base.Int.{ℤ, pos, ◌==◌ as int_eq}

-- `map<string, string>`, a `HashMap`: each key is listed once.
abbrev pub Map : Type 0
Map = List (String × String)

-- `VolumeCapability.AccessMode.Mode`
pub data Mode : Type 0 where
  unknown single_node_writer single_node_reader_only multi_node_reader_only : Mode
  multi_node_single_writer multi_node_multi_writer : Mode
  single_node_single_writer single_node_multi_writer : Mode

-- `mode as i32`
abbrev pub mode_number : Mode → ℕ
mode_number unknown = 0
mode_number single_node_writer = 1
mode_number single_node_reader_only = 2
mode_number multi_node_reader_only = 3
mode_number multi_node_single_writer = 4
mode_number multi_node_multi_writer = 5
mode_number single_node_single_writer = 6
mode_number single_node_multi_writer = 7

-- The enum is an `i32` on the wire.
pub record AccessMode : Type 0 where
  pub mode : ℤ

-- The getter `mode()`: a number that is no mode reads as the default, `UNKNOWN`.
abbrev pub mode_of : AccessMode → Mode
mode_of a =
    if int_eq a.mode (pos 1)
    then single_node_writer
    else if int_eq a.mode (pos 2)
    then single_node_reader_only
    else if int_eq a.mode (pos 3)
    then multi_node_reader_only
    else if int_eq a.mode (pos 4)
    then multi_node_single_writer
    else if int_eq a.mode (pos 5)
    then multi_node_multi_writer
    else if int_eq a.mode (pos 6)
    then single_node_single_writer
    else if int_eq a.mode (pos 7)
    then single_node_multi_writer
    else unknown

pub record MountVolume : Type 0 where
  pub fs_type : String
  pub mount_flags : List String
  pub volume_mount_group : String

pub data AccessType : Type 0 where
  block : AccessType
  mount : MountVolume → AccessType

pub record VolumeCapability : Type 0 where
  pub access_mode : Option AccessMode
  pub access_type : Option AccessType

pub record Topology : Type 0 where
  pub segments : Map

pub data VolumeContentSource : Type 0 where
  snapshot : String → VolumeContentSource
  volume : String → VolumeContentSource

pub record Volume : Type 0 where
  pub capacity_bytes : ℤ
  pub volume_id : String
  pub volume_context : Map
  pub content_source : Option VolumeContentSource
  pub accessible_topology : List Topology
