-- ===== src/Mountd/Spec.antt =====
-- The messages of protos/mountd.proto and the three calls of its service.
use rlvm.Base.{⊤, String, Option, none, some, List, if◌then◌else◌}
use rlvm.Base.Int.{ℤ, pos, ◌==◌}
use rlvm.Rpc.{Call, Status}

pub record BlockDevice : Type 0 where
  pub path : String

pub record Mount : Type 0 where
  pub src : String
  pub dst : String

pub data MountFlag : Type 0 where
  unknown read_only bind : MountFlag

-- `flag.into()`, to the `i32` of the wire.
abbrev pub to_i32 : MountFlag → ℤ
to_i32 MountFlag.unknown = pos 0
to_i32 MountFlag.read_only = pos 1
to_i32 MountFlag.bind = pos 2

-- `MountFlag::from_i32`
abbrev pub from_i32 : ℤ → Option MountFlag
from_i32 n =
    if n == pos 0
    then some MountFlag.unknown
    else if n == pos 1
    then some MountFlag.read_only
    else if n == pos 2
    then some MountFlag.bind
    else none

pub record MountRequest : Type 0 where
  pub mount : Option Mount
  pub flags : List ℤ

pub record UnmountRequest : Type 0 where
  pub path : String

pub record GetLvmBlockPathRequest : Type 0 where
  pub uuid : String

-- `MountService`, as a client calls it. `MountResponse` and `UnmountResponse` have no field.
pub record MountService (S : Type 0) : Type 0 where
  pub get_lvm_block_path : GetLvmBlockPathRequest → Call S Status BlockDevice
  pub mount : MountRequest → Call S Status ⊤
  pub unmount : UnmountRequest → Call S Status ⊤
