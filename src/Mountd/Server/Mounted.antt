-- ===== src/Mountd/Server/Mounted.antt =====
-- What a successful `mount` of crates/mountd/src/server.rs leaves behind.
use rlvm.Base.{ℕ, ◌≡◌, String, true, some, List, inl, inr, arith, Bool-cases, Option-cases}
use rlvm.Base.Int.{ℤ}
use rlvm.Host.{Os, FlagSet}
use rlvm.Host.Paths.{contains_path}
use rlvm.Mountd.Config.{Config}
use rlvm.Mountd.Server.{mount, perform_mount, mount_flags, known_flags}
use rlvm.Mountd.Server.Mounting.{IsQuiet, check_mount_state}
use rlvm.Mountd.Spec.{Mount, MountFlag}
use rlvm.Rpc.{ok, reply, Result-cases}

-- The mount table lists the path as it is written: it is there after a mount on it, and a change
-- of its owner leaves the table.
pub record IsListed {S F : Type 0} (os : Os S F) (path : String) : Type 0 where
  pub after_mount :
      (kind : String) (flags : F) (src : String) (s t : S)
      → os.mount kind flags src path s ≡ (ok tt, t)
      → (mounts : List String) × (os.mountpaths t ≡ (ok mounts, t))
        × (contains_path mounts path ≡ true)
  pub after_chown :
      (uid gid : ℕ) (s t : S) (mounts : List String)
      → os.mountpaths s ≡ (ok mounts, s)
      → os.chown path uid gid s ≡ (ok tt, t)
      → os.mountpaths t ≡ (ok mounts, t)

module _ {S F : Type 0} (os : Os S F) (quiet : IsQuiet os) (config : Config) (fs : FlagSet F) where
  perform_mount-reply :
      (src dst : String) (asked : List ℤ) (s t : S)
      → perform_mount os fs config src dst asked s ≡ (reply tt, t)
      → (flags : List MountFlag) × (u : S) × (known_flags asked ≡ some flags)
        × (os.mount "xfs" (mount_flags fs flags) src dst s ≡ (ok tt, u))
        × (os.chown dst config.for_user.uid config.for_group.gid u ≡ (ok tt, t))
  unfolding perform_mount
  perform_mount-reply src dst asked s t h = elim (Option-cases (known_flags asked)) [
    | inl unknown ↦ ground arith
    | inr (flags, known) ↦ elim (Result-cases (os.mount "xfs" (mount_flags fs flags) src dst s)) [
      | inr (e, u, failed) ↦ ground arith
      | inl (done, u, mounted) ↦
          elim (Result-cases (os.chown dst config.for_user.uid config.for_group.gid u)) [
            | inr (e, v, failed) ↦ ground arith
            | inl (owned, v, chowned) ↦ (flags, u, known, ground arith, ground arith)
          ]
    ]
  ]

  -- On a host where reading metadata and listing the mount points change nothing, and whose mount
  -- table lists the destination as it is written: after a successful call of `mount` the
  -- destination is a mount point, whether it was one before or not.
  pub mount_mounted :
      (paths : Mount) (asked : List ℤ) (s t : S)
      → IsListed os paths.dst
      → mount os fs config (record { mount = some paths; flags = asked }) s ≡ (reply tt, t)
      → (mounts : List String) × (os.mountpaths t ≡ (ok mounts, t))
        × (contains_path mounts paths.dst ≡ true)
  unfolding mount
  mount_mounted paths asked s t there h = elim (Result-cases (os.mountpaths s)) [
    | inr (e, u, failed) ↦ ground arith
    | inl (mounts, u, listed) ↦
        let same : u ≡ s = ground (arith, quiet.mountpaths_state s) in
        elim (Bool-cases (contains_path mounts paths.dst)) [
          | inl mounted ↦ (
            mounts,
            ground (arith, check_mount_state os quiet config paths.src paths.dst asked u),
            mounted,
          )
          | inr free ↦
              let run : perform_mount os fs config paths.src paths.dst asked s ≡ (reply tt, t) =
                ground (arith, check_mount_state os quiet config paths.src paths.dst asked u) in
              let (flags, v, known, done, owned) =
                perform_mount-reply paths.src paths.dst asked s t run in
              let (later, listing, has) =
                there.after_mount "xfs" (mount_flags fs flags) paths.src s v done in
              (
                later,
                there.after_chown config.for_user.uid config.for_group.gid v t later listing owned,
                has,
              )
        ]
  ]
