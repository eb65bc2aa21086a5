-- ===== src/Lvm.antt =====
-- The library lvm2_cmd, as volumed and mountd use it: its types, its functions over the state of
-- the host, and the error that each reports by what it prints.
pub mod Laws
pub mod Memory
use Prim.Native.String.{String}
use rlvm.Base.{ℕ, ⊤, Bool, List}
use rlvm.Rpc.{Result, Call}

-- `LVMError`: the two variants that the servers tell apart, and all others.
pub data LvmError : Type 0 where
  not_found command other : String → LvmError

-- What `to_string` prints of it.
abbrev pub error_text : LvmError → String
error_text (not_found text) = text
error_text (command text) = text
error_text (other text) = text

module _ (Name : Type 0) where
  pub record VolumeGroup : Type 0 where
    pub name : Name
    pub capacity_bytes : ℕ

  pub record LvCreateOptions : Type 0 where
    pub activate : Bool
    pub capacity_bytes : ℕ
    pub name : Name
    pub tags : List String

pub record LogicalVolume (Name Uuid : Type 0) : Type 0 where
  pub uuid : Uuid
  pub name : Name
  pub capacity_bytes : ℕ
  pub volume_group_name : Name
  pub path : String

-- `Name` is `ResourceName` and `Uuid` is `ResourceUUID`; the first three functions are the
-- `try_into` of the source, and the three after them the `to_string`.
pub record Lvm (S : Type 0) : Type 1 where
  pub Name : Type 0
  pub Uuid : Type 0
  pub name_of : String → Result String Name
  pub uuid_of : String → Result String Uuid
  pub capacity_of : ℕ → Result String ℕ
  pub show_name : Name → String
  pub show_uuid : Uuid → String
  pub show_capacity : ℕ → String
  -- `VolumeGroup::from_id`, `list_lvs`, `add_lv`, `remove_lv`
  pub find_vg : Name → Call S LvmError (VolumeGroup Name)
  pub list_lvs : VolumeGroup Name → Call S LvmError (List (LogicalVolume Name Uuid))
  pub add_lv : VolumeGroup Name → LvCreateOptions Name → Call S LvmError (LogicalVolume Name Uuid)
  pub remove_lv : VolumeGroup Name → Name → Call S LvmError ⊤
  -- `LogicalVolume::from_id`, of a group and a volume, and `LogicalVolume::from_uuid`
  pub find_lv : Name → Name → Call S LvmError (LogicalVolume Name Uuid)
  pub find_lv_by_uuid : Uuid → Call S LvmError (LogicalVolume Name Uuid)
