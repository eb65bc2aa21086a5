-- ===== src/Mountd/Server.antt =====
-- crates/mountd/src/server.rs: the handlers of `MountdServer`, over any host and any lvm2_cmd.
pub mod Flags
pub mod Mounting
pub mod Ownership
pub mod Mounted
pub mod Phases
use rlvm.Base.{
  ⊤, String, ◌<>◌, Bool, false, not, Option, none, some, List, [], ◌∷◌, map, any, if◌then◌else◌,
}
use rlvm.Base.Int.{ℤ, ◌==◌}
use rlvm.Base.Number.{decimal}
use rlvm.Base.Text
use rlvm.Host.{Os, FlagSet}
use rlvm.Host.Paths.{contains_path}
use rlvm.Lvm.{LvmError, Lvm}
use rlvm.Mountd.Config.{Config, get_owner_pair, ensure_interactable}
use rlvm.Mountd.Spec.{
  BlockDevice, MountFlag, to_i32, from_i32, MountRequest, UnmountRequest, GetLvmBlockPathRequest,
  MountService,
}
use rlvm.Rpc.{
  Status, invalid_argument, not_found, permission_denied, failed_precondition, internal, Program,
  Action, reply, fail, panic, ◌>>=◌, ◌>>◌, pure, gets, or_raise, check, attempt, raise_if, answer,
}

-- `result.map_err(f)?`, of code that is not a single call.
abbrev pub map_fail : {S D E A : Type 0} → (D → E) → Program S D A → Program S E A
map_fail f m s =
    let (r, s') = m s in
    elim r [ reply a ↦ (reply a, s') | fail e ↦ (fail (f e), s') | panic ↦ (panic, s') ]

abbrev pub block_path_error : LvmError → Status
block_path_error (LvmError.not_found text) = not_found text
block_path_error (LvmError.command text) = internal text
block_path_error (LvmError.other text) = internal text

-- `collect()` into a result: the flags, unless one is unknown.
abbrev pub known_flags : List ℤ → Option (List MountFlag)
known_flags [] = some []
known_flags (n ∷ ns) = elim (from_i32 n) [
  | none ↦ none
  | some flag ↦ elim (known_flags ns) [ none ↦ none | some flags ↦ some (flag ∷ flags) ]
]

abbrev pub asks_readonly : List ℤ → Bool
asks_readonly flags = any (λ n. n == to_i32 MountFlag.read_only) flags

module _ {F : Type 0} (flag_set : FlagSet F) where
  -- `From<MountFlag> for MountFlags`
  abbrev pub to_mount_flags : MountFlag → F
  to_mount_flags MountFlag.unknown = flag_set.empty
  to_mount_flags MountFlag.bind = flag_set.bind
  to_mount_flags MountFlag.read_only = flag_set.rdonly

  -- `MountFlags::from_iter`
  abbrev pub join_flags : List F → F
  join_flags [] = flag_set.empty
  join_flags (f ∷ fs) = flag_set.union f (join_flags fs)

  -- The flags of a mount: those asked for, with NODEV and NOSUID always.
  unfoldable pub mount_flags : List MountFlag → F
  mount_flags flags =
      flag_set.union (join_flags (map to_mount_flags flags))
        (join_flags (flag_set.nodev ∷ flag_set.nosuid ∷ []))

module _ {S F : Type 0} (os : Os S F) where
  abbrev pub mounted_paths : Action S (List String)
  mounted_paths = attempt os.mountpaths (λ text. internal ("could not get mountpoints: " <> text))

  unfoldable pub get_lvm_block_path : Lvm S → GetLvmBlockPathRequest → Action S BlockDevice
  get_lvm_block_path lvm req = do
    uuid ← check (lvm.uuid_of req.uuid) invalid_argument
    lv ← attempt (lvm.find_lv_by_uuid uuid) block_path_error
    pure (record { path = lv.path })

  -- `mount` once the mount point is known to be free.
  unfoldable pub perform_mount : FlagSet F → Config → String → String → List ℤ → Action S ⊤
  perform_mount flag_set config src dst asked = do
    mapped ← or_raise (known_flags asked) (invalid_argument "invalid mount flag")
    attempt (os.mount "xfs" (mount_flags flag_set mapped) src dst)
        (λ text. internal ("could not mount request: " <> text))
    let owner = get_owner_pair config
    attempt (os.chown dst owner.0 owner.1) (λ text. internal (
        "could not chown mount for specified user ("
        <> decimal owner.0
        <> ":"
        <> decimal owner.1
        <> "): "
        <> text))

  -- The two access checks of `mount`, and that the destination is a directory.
  unfoldable pub check_mount : Config → String → String → List ℤ → Action S ⊤
  check_mount config src dst asked = do
    map_fail
        (λ text.
          permission_denied
            ("specified source `" <> src <> "` cannot be mounted by current config: " <> text))
        (ensure_interactable os config src false)
    map_fail
        (λ text.
          permission_denied
            ("specified destination `" <> dst <> "` cannot be mounted by current config: " <> text))
        (ensure_interactable os config dst (asks_readonly asked))
    dst_is_dir ← gets (os.is_dir dst)
    raise_if (not dst_is_dir) (failed_precondition ("mount dst is not a directory: " <> dst))

  unfoldable pub mount : FlagSet F → Config → MountRequest → Action S ⊤
  mount flag_set config req = do
    mounts ← mounted_paths
    paths ← or_raise req.mount (invalid_argument "missing required `mount` arg")
    raise_if (Text.is_empty paths.src) (invalid_argument "missing required field `src` in mount")
    raise_if (Text.is_empty paths.dst) (invalid_argument "missing required field `dst` in mount")
    check_mount config paths.src paths.dst req.flags
    if contains_path mounts paths.dst
        then pure tt
        else perform_mount flag_set config paths.src paths.dst req.flags

  unfoldable pub unmount : Config → UnmountRequest → Action S ⊤
  unmount config req = do
    mounts ← mounted_paths
    raise_if (Text.is_empty req.path) (invalid_argument "missing required field `path` in unmount")
    if not (contains_path mounts req.path) then pure tt else do
      map_fail
          (λ text. permission_denied (
            "specified mountpoint `" <> req.path <> "` cannot be unmounted by current config: "
            <> text))
          (ensure_interactable os config req.path false)
      attempt (os.unmount req.path) (λ text. internal ("could not unmount endpoint: " <> text))

  -- `MountdServer`, as its clients call it.
  abbrev pub service : Lvm S → FlagSet F → Config → Status → MountService S
  service lvm flag_set config panicked = record {
    get_lvm_block_path = λ m. answer panicked (get_lvm_block_path lvm m);
    mount = λ m. answer panicked (mount flag_set config m);
    unmount = λ m. answer panicked (unmount config m);
  }
