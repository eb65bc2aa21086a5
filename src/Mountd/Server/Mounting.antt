-- ===== src/Mountd/Server/Mounting.antt =====
-- When `mount` and `unmount` of crates/mountd/src/server.rs change anything, and what they
-- checked before.
use rlvm.Base.{◌≡◌, ◌≢◌, String, Bool, true, false, some, List, inl, inr, arith}
use rlvm.Base.Int.{ℤ}
use rlvm.Base.Text
use rlvm.Host.{Os, FlagSet}
use rlvm.Host.Paths.{contains_path}
use rlvm.Mountd.Config.{Config, ensure_interactable}
use rlvm.Mountd.Server.{mount, unmount, check_mount, perform_mount, asks_readonly}
use rlvm.Mountd.Spec.{Mount}
use rlvm.Rpc.{Replies, reply, fail, ok, Status, Code, Outcome-cases}

-- Reading metadata and listing the mount points change nothing.
pub record IsQuiet {S F : Type 0} (os : Os S F) : Type 0 where
  pub metadata_state : (path : String) (s : S) → (os.metadata path s).1 ≡ s
  pub mountpaths_state : (s : S) → (os.mountpaths s).1 ≡ s

module _ {S F : Type 0} (os : Os S F) (quiet : IsQuiet os) (config : Config) where
  pub ensure_interactable_state :
      (path : String) (readonly : Bool) (s : S)
      → (ensure_interactable os config path readonly s).1 ≡ s
  unfolding ensure_interactable
  ensure_interactable_state path readonly s = ground (arith, quiet.metadata_state path s)

  pub check_mount_state :
      (src dst : String) (asked : List ℤ) (s : S) → (check_mount os config src dst asked s).1 ≡ s
  unfolding check_mount
  check_mount_state src dst asked s = ground (
    arith,
    ensure_interactable_state src false s,
    ensure_interactable_state dst (asks_readonly asked) s,
  )

  pub check_mount-reply :
      (src dst : String) (asked : List ℤ) (s t : S)
      → check_mount os config src dst asked s ≡ (reply tt, t)
      → Replies (ensure_interactable os config src false s)
        × Replies (ensure_interactable os config dst (asks_readonly asked) s)
        × (os.is_dir dst s ≡ true)
  unfolding check_mount
  check_mount-reply src dst asked s t h = ground (
    arith,
    ensure_interactable_state src false s,
    ensure_interactable_state dst (asks_readonly asked) s,
  )

  -- What must hold of the request and the host for a mount to be made.
  abbrev pub MayMount : Mount → List ℤ → S → Type 0
  MayMount paths asked s =
      (Text.is_empty paths.src ≡ false)
      × (Text.is_empty paths.dst ≡ false)
      × Replies (ensure_interactable os config paths.src false s)
      × Replies (ensure_interactable os config paths.dst (asks_readonly asked) s)
      × (os.is_dir paths.dst s ≡ true)

  pub check_mount-Replies :
      (paths : Mount) (asked : List ℤ) (s : S)
      → MayMount paths asked s
      → check_mount os config paths.src paths.dst asked s ≡ (reply tt, s)
  unfolding check_mount
  check_mount-Replies paths asked s may = ground (
    arith,
    ensure_interactable_state paths.src false s,
    ensure_interactable_state paths.dst (asks_readonly asked) s,
  )

  module _ (fs : FlagSet F) (paths : Mount) (asked : List ℤ) (s : S) (mounts : List String)
      (listed : os.mountpaths s ≡ (ok mounts, s)) where
    -- On a host where reading metadata changes nothing, and that lists its mount points: a call of
    -- `mount` that changed the state had a source and a destination, which both passed the access
    -- check in the state it began in; the destination was a directory there, and no mount point.
    pub mount_changes :
        (mount os fs config (record { mount = some paths; flags = asked }) s).1 ≢ s
        → MayMount paths asked s × (contains_path mounts paths.dst ≡ false)
    unfolding mount
    mount_changes changed =
        let same = check_mount_state paths.src paths.dst asked s in
        elim (Outcome-cases (check_mount os config paths.src paths.dst asked s)) [
          | inr other ↦ absurd (changed (ground (arith, same)))
          | inl (u, t, checked) ↦
              let (src_ok, dst_ok, dir) = check_mount-reply paths.src paths.dst asked s t checked in
              (
                (ground (arith, same), ground (arith, same), src_ok, dst_ok, dir),
                ground (arith, same),
              )
        ]

    -- On such a host a call of `mount` whose error is not an internal one has changed nothing.
    pub mount_refused :
        (e : Status) (t : S)
        → mount os fs config (record { mount = some paths; flags = asked }) s ≡ (fail e, t)
        → e.code ≢ Code.internal
        → t ≡ s
    unfolding mount perform_mount
    mount_refused e t failed kind = ground (arith, check_mount_state paths.src paths.dst asked s)

    -- On a destination that is a mount point already, an allowed call succeeds and does nothing:
    -- not even the owner of the destination is set.
    pub mount_again :
        MayMount paths asked s
        → contains_path mounts paths.dst ≡ true
        → mount os fs config (record { mount = some paths; flags = asked }) s ≡ (reply tt, s)
    unfolding mount
    mount_again may mounted = ground (arith, check_mount-Replies paths asked s may)

  -- A path that is no mount point is unmounted with success and without effect, whether or not
  -- the configuration allows it.
  pub unmount_skips :
      (path : String) (mounts : List String) (s : S)
      → Text.is_empty path ≡ false
      → os.mountpaths s ≡ (ok mounts, s)
      → contains_path mounts path ≡ false
      → unmount os config (record { path = path }) s ≡ (reply tt, s)
  unfolding unmount
  unmount_skips path mounts s given listed free = ground arith

  -- On a host where reading metadata changes nothing, and that lists its mount points, a call of
  -- `unmount` that changed the state was for a mount point to which the configuration gives access.
  pub unmount_changes :
      (path : String) (mounts : List String) (s : S)
      → os.mountpaths s ≡ (ok mounts, s)
      → (unmount os config (record { path = path }) s).1 ≢ s
      → Replies (ensure_interactable os config path false s) × (contains_path mounts path ≡ true)
  unfolding unmount
  unmount_changes path mounts s listed changed =
      ground (arith, ensure_interactable_state path false s)
