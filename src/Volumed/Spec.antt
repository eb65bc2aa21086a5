-- ===== src/Volumed/Spec.antt =====
-- The messages of protos/volumed.proto and the six calls of its service.
use Prim.Native.String.{String}
use rlvm.Base.{ℕ, List, Option}
use rlvm.Rpc.{Call, Status}

pub data Empty : Type 0 where
  empty : Empty

pub record LogicalVolume : Type 0 where
  pub uuid : String
  pub name : String
  pub capacity_bytes : ℕ
  pub volume_group : String

pub record GetLvListResponse : Type 0 where
  pub volumes : List LogicalVolume

pub record GetFreeBytesResponse : Type 0 where
  pub bytes_free : ℕ

pub record CreateLvRequest : Type 0 where
  pub name : String
  pub capacity : ℕ
  pub tags : List String

pub record DeleteLvRequest : Type 0 where
  pub name : String

pub record FormatLvRequest : Type 0 where
  pub name : String

-- The `oneof` of `GetLVRequest`.
pub data Identifier : Type 0 where
  name : String → Identifier
  uuid : String → Identifier

pub record GetLvRequest : Type 0 where
  pub identifier : Option Identifier

-- `VolumeService`, as a client calls it.
pub record VolumeService (S : Type 0) : Type 0 where
  pub get_lv_list : Empty → Call S Status GetLvListResponse
  pub get_free_bytes : Empty → Call S Status GetFreeBytesResponse
  pub create_logical_volume : CreateLvRequest → Call S Status LogicalVolume
  pub format_logical_volume : FormatLvRequest → Call S Status Empty
  pub delete_logical_volume : DeleteLvRequest → Call S Status Empty
  pub get_logical_volume : GetLvRequest → Call S Status LogicalVolume
