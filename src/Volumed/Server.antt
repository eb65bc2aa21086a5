-- ===== src/Volumed/Server.antt =====
-- crates/volumed/src/server.rs: the handlers of `VolumedServer`, over any lvm2_cmd and mkfs.xfs.
-- The group that a handler works on is the request's extension, put there by `vg_injector`.
pub mod FreeBytes
pub mod Volumes
use rlvm.Base.{ℕ, String, ◌<>◌, Bool, true, not, Option, none, some, map}
use rlvm.Base.Int.{try_u64, checked_sub}
use rlvm.Lvm
use rlvm.Lvm.{LvmError, VolumeGroup, LvCreateOptions, Lvm}
use rlvm.Rpc.{
  Status, invalid_argument, not_found, internal, Call, Action, Request, ◌>>=◌, ◌>>◌, pure, or_raise,
  unwrap, check, attempt, raise_if,
}
use rlvm.Volumed.Spec.{
  Empty, empty, LogicalVolume, GetLvListResponse, GetFreeBytesResponse, CreateLvRequest,
  DeleteLvRequest, FormatLvRequest, Identifier, GetLvRequest,
}

pub record Config : Type 0 where
  pub volume_group : String
  pub spare_bytes : Option ℕ

-- `std::process::Output` of mkfs.xfs: whether it succeeded, and its standard error as text.
pub record CommandOutput : Type 0 where
  pub success : Bool
  pub stderr : String

-- `mkfs.xfs -f path`, or the error by which the command could not be run.
abbrev pub Mkfs : Type 0 → Type 0
Mkfs S = String → Call S String CommandOutput

abbrev pub out_of_range_integer : String
out_of_range_integer = "out of range integral type conversion attempted"

abbrev pub map_lvm_error : LvmError → Status
map_lvm_error (LvmError.not_found text) = not_found text
map_lvm_error (LvmError.command text) = invalid_argument text
map_lvm_error (LvmError.other text) = internal text

abbrev pub unwrap_or : {A : Type 0} → Option A → A → A
unwrap_or none d = d
unwrap_or (some a) d = a

-- The bytes that `get_free_bytes` reports of a group, before the cast to `u64`.
abbrev pub free_bytes : Config → ℕ → ℕ
free_bytes config capacity = unwrap_or (checked_sub capacity (unwrap_or config.spare_bytes 0)) 0

module _ {S : Type 0} (lvm : Lvm S) where
  -- `From<LogicalVolume> for LV`
  abbrev pub to_message : Lvm.LogicalVolume lvm.Name lvm.Uuid → LogicalVolume
  to_message lv = record {
    uuid = lvm.show_uuid lv.uuid;
    name = lvm.show_name lv.name;
    capacity_bytes = unwrap_or (try_u64 lv.capacity_bytes) 0;
    volume_group = lvm.show_name lv.volume_group_name;
  }

  abbrev pub Incoming : Type 0 → Type 0
  Incoming A = Request (VolumeGroup lvm.Name) A

  unfoldable pub get_lv_list : Incoming Empty → Action S GetLvListResponse
  get_lv_list request = do
    vg ← unwrap request.extension
    lvs ← attempt (lvm.list_lvs vg) map_lvm_error
    pure (record { volumes = map to_message lvs })

  unfoldable pub get_free_bytes : Config → Incoming Empty → Action S GetFreeBytesResponse
  get_free_bytes config request = do
    vg ← unwrap request.extension
    bytes ←
        or_raise (try_u64 (free_bytes config vg.capacity_bytes))
          (internal ("could not cast capacity into a u64: " <> out_of_range_integer))
    pure (record { bytes_free = bytes })

  unfoldable pub create_logical_volume : Incoming CreateLvRequest → Action S LogicalVolume
  create_logical_volume request = do
    vg ← unwrap request.extension
    let req = request.message
    capacity ← check (lvm.capacity_of req.capacity) invalid_argument
    name ← check (lvm.name_of req.name) invalid_argument
    lv ←
        attempt
          (lvm.add_lv vg
            (record { activate = true; capacity_bytes = capacity; name = name; tags = req.tags }))
          map_lvm_error
    pure (to_message lv)

  unfoldable pub delete_logical_volume : Incoming DeleteLvRequest → Action S Empty
  delete_logical_volume request = do
    vg ← unwrap request.extension
    let req = request.message
    name ← check (lvm.name_of req.name) invalid_argument
    attempt (lvm.remove_lv vg name) map_lvm_error
    pure empty

  unfoldable pub format_logical_volume : Mkfs S → Incoming FormatLvRequest → Action S Empty
  format_logical_volume mkfs request = do
    vg ← unwrap request.extension
    let req = request.message
    name ← check (lvm.name_of req.name) invalid_argument
    lv ← attempt (lvm.find_lv vg.name name) map_lvm_error
    cmd ← attempt (mkfs lv.path) (λ text. internal ("could not run mkfs.xfs command: " <> text))
    raise_if (not cmd.success)
        (internal ("could not format volume `" <> lvm.show_name name <> "`: " <> cmd.stderr))
    pure empty

  -- The `match id` of `get_logical_volume`.
  abbrev pub find_by_identifier :
      VolumeGroup lvm.Name → Identifier → Action S (Lvm.LogicalVolume lvm.Name lvm.Uuid)
  find_by_identifier vg (Identifier.uuid text) = do
    uuid ← check (lvm.uuid_of text) invalid_argument
    attempt (lvm.find_lv_by_uuid uuid) map_lvm_error
  find_by_identifier vg (Identifier.name text) = do
    name ← check (lvm.name_of text) invalid_argument
    attempt (lvm.find_lv vg.name name) map_lvm_error

  unfoldable pub get_logical_volume : Incoming GetLvRequest → Action S LogicalVolume
  get_logical_volume request = do
    vg ← unwrap request.extension
    id ←
        or_raise request.message.identifier (invalid_argument "missing required field `identifier`")
    lv ← find_by_identifier vg id
    pure (to_message lv)
