-- ===== src/Mountd/Table/Steps.antt =====
-- The mount table as an abstract view: what a call of `mount` or `unmount` of
-- crates/mountd/src/server.rs may make of it, with its outcome.
use rlvm.Base.{◌+◌, ◌-◌, ◌≡◌, ⊤, String, ◌<>◌, true, false, none, some, List, if◌then◌else◌}
use rlvm.Base.Int.{ℤ}
use rlvm.Base.Number.{decimal}
use rlvm.Base.Text
use rlvm.Host.{Os, FlagSet}
use rlvm.Host.Paths.{same_path, contains_path}
use rlvm.Mountd.Config.{Config, ensure_interactable}
use rlvm.Mountd.Server.{mount, unmount, mount_flags, known_flags}
use rlvm.Mountd.Server.Mounting.{IsQuiet, MayMount}
use rlvm.Mountd.Spec.{Mount, MountFlag}
use rlvm.Mountd.Table.{HasTable, mounts_on}
use rlvm.Rpc.{Status, invalid_argument, Outcome, Replies, reply, fail, internal, ok, err}

-- The message of `mount` when the owner cannot be set.
abbrev pub chown_message : Config → String → String
chown_message config text =
    "could not chown mount for specified user ("
    <> decimal config.for_user.uid
    <> ":"
    <> decimal config.for_group.gid
    <> "): "
    <> text

module _ {S F : Type 0} (os : Os S F) (quiet : IsQuiet os) (tab : HasTable os) (config : Config)
    (fs : FlagSet F) where
  -- How many mounts each path has is the same, one more, or one less.
  abbrev pub Kept : S → S → Type 0
  Kept s t = (path : String) → mounts_on path (tab.table t) ≡ mounts_on path (tab.table s)

  abbrev pub Added : String → S → S → Type 0
  Added dst s t =
      (path : String)
      → mounts_on path (tab.table t)
        ≡ mounts_on path (tab.table s) + (if same_path dst path then 1 else 0)

  abbrev pub Taken : String → S → S → Type 0
  Taken dst s t =
      (path : String)
      → mounts_on path (tab.table t)
        ≡ mounts_on path (tab.table s) - (if same_path dst path then 1 else 0)

  module _ (paths : Mount) (asked : List ℤ) (s : S) where
    -- What `mount` makes of the table, and its outcome.
    pub data MountStep (r : Outcome Status ⊤) (t : S) : Type 0 where
      not_allowed :
          (e : Status)
          → ¬ MayMount os quiet config paths asked s
          → r ≡ fail e
          → t ≡ s
          → MountStep r t
      already :
          MayMount os quiet config paths asked s
          → contains_path (tab.table s) paths.dst ≡ true
          → r ≡ reply tt
          → t ≡ s
          → MountStep r t
      unknown_flag :
          (e : Status)
          → contains_path (tab.table s) paths.dst ≡ false
          → known_flags asked ≡ none
          → r ≡ fail e
          → t ≡ s
          → MountStep r t
      not_mounted :
          (flags : List MountFlag) (text : String)
          → MayMount os quiet config paths asked s
          → contains_path (tab.table s) paths.dst ≡ false
          → os.mount "xfs" (mount_flags fs flags) paths.src paths.dst s ≡ (err text, t)
          → r ≡ fail (internal ("could not mount request: " <> text))
          → Kept s t
          → MountStep r t
      unowned :
          (flags : List MountFlag) (u : S) (text : String)
          → MayMount os quiet config paths asked s
          → contains_path (tab.table s) paths.dst ≡ false
          → os.mount "xfs" (mount_flags fs flags) paths.src paths.dst s ≡ (ok tt, u)
          → os.chown paths.dst config.for_user.uid config.for_group.gid u ≡ (err text, t)
          → r ≡ fail (internal (chown_message config text))
          → Added paths.dst s t
          → MountStep r t
      mounted :
          (flags : List MountFlag) (u : S)
          → MayMount os quiet config paths asked s
          → contains_path (tab.table s) paths.dst ≡ false
          → os.mount "xfs" (mount_flags fs flags) paths.src paths.dst s ≡ (ok tt, u)
          → os.chown paths.dst config.for_user.uid config.for_group.gid u ≡ (ok tt, t)
          → r ≡ reply tt
          → Added paths.dst s t
          → MountStep r t

    abbrev pub MountRefines : Type 0
    MountRefines =
        (r : Outcome Status ⊤) × (t : S) × (mount os fs config
            (record { mount = some paths; flags = asked }) s
          ≡ (r, t))
        × MountStep r t

  module _ (path : String) (s : S) where
    -- What `unmount` makes of the table, and its outcome.
    pub data UnmountStep (r : Outcome Status ⊤) (t : S) : Type 0 where
      no_path :
          Text.is_empty path ≡ true
          → r ≡ fail (invalid_argument "missing required field `path` in unmount")
          → t ≡ s
          → UnmountStep r t
      nothing_there :
          Text.is_empty path ≡ false
          → contains_path (tab.table s) path ≡ false
          → r ≡ reply tt
          → t ≡ s
          → UnmountStep r t
      not_allowed :
          (e : Status)
          → contains_path (tab.table s) path ≡ true
          → ¬ Replies (ensure_interactable os config path false s)
          → r ≡ fail e
          → t ≡ s
          → UnmountStep r t
      not_unmounted :
          (text : String)
          → contains_path (tab.table s) path ≡ true
          → Replies (ensure_interactable os config path false s)
          → os.unmount path s ≡ (err text, t)
          → r ≡ fail (internal ("could not unmount endpoint: " <> text))
          → Kept s t
          → UnmountStep r t
      unmounted :
          contains_path (tab.table s) path ≡ true
          → Replies (ensure_interactable os config path false s)
          → os.unmount path s ≡ (ok tt, t)
          → r ≡ reply tt
          → Taken path s t
          → UnmountStep r t

    abbrev pub UnmountRefines : Type 0
    UnmountRefines =
        (r : Outcome Status ⊤) × (t : S) × (unmount os config (record { path = path }) s ≡ (r, t))
        × UnmountStep r t
