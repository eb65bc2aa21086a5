-- ===== src/Mountd/Server/Ownership.antt =====
-- The end of `mount` of crates/mountd/src/server.rs: the mount and the change of its owner.
use rlvm.Base.{◌≡◌, String, ◌<>◌, true, false, some, List, arith}
use rlvm.Base.Int.{ℤ}
use rlvm.Host.{Os, FlagSet}
use rlvm.Host.Paths.{contains_path}
use rlvm.Mountd.Config.{Config}
use rlvm.Mountd.Server.{mount, perform_mount, mount_flags, known_flags}
use rlvm.Mountd.Server.Mounting.{IsQuiet, MayMount, check_mount-Replies, mount_again}
use rlvm.Mountd.Spec.{Mount, MountFlag}
use rlvm.Base.Number.{decimal}
use rlvm.Rpc.{internal, Code, FailsWith, reply, fail, ok, err}

module _ {S F : Type 0} (os : Os S F) (quiet : IsQuiet os) (config : Config) (fs : FlagSet F)
    (paths : Mount) (asked : List ℤ) (flags : List MountFlag) (s u v : S) (mounts : List String)
    (listed : os.mountpaths s ≡ (ok mounts, s)) (may : MayMount os quiet config paths asked s)
    (free : contains_path mounts paths.dst ≡ false) (known : known_flags asked ≡ some flags)
    (mounted : os.mount "xfs" (mount_flags fs flags) paths.src paths.dst s ≡ (ok tt, u)) where
  -- An allowed call of `mount`, with known flags, on a destination that is no mount point, mounts
  -- with the computed flags and then gives the destination to the user and the group of the
  -- configuration; if both succeed it is answered with success.
  pub mount_owned :
      os.chown paths.dst config.for_user.uid config.for_group.gid u ≡ (ok tt, v)
      → mount os fs config (record { mount = some paths; flags = asked }) s ≡ (reply tt, v)
  unfolding mount perform_mount
  mount_owned owned = ground (arith, check_mount-Replies os quiet config paths asked s may)

  mount_failed_owner :
      (e : String)
      → os.chown paths.dst config.for_user.uid config.for_group.gid u ≡ (err e, v)
      → mount os fs config (record { mount = some paths; flags = asked }) s ≡ (
        fail (
            internal (
              "could not chown mount for specified user ("
              <> decimal config.for_user.uid
              <> ":"
              <> decimal config.for_group.gid
              <> "): "
              <> e)),
        v,
      )
  unfolding mount perform_mount
  mount_failed_owner e unowned =
      ground (arith, check_mount-Replies os quiet config paths asked s may)

  -- If on such a call the mount succeeds but the owner cannot be set, the answer is an internal
  -- error, and the state is the one that setting the owner left. If the destination is a mount
  -- point in it, and access is still allowed, the same call again succeeds and does nothing.
  pub mount_unowned :
      (e : String) (later : List String)
      → os.chown paths.dst config.for_user.uid config.for_group.gid u ≡ (err e, v)
      → os.mountpaths v ≡ (ok later, v)
      → contains_path later paths.dst ≡ true
      → MayMount os quiet config paths asked v
      → let first = mount os fs config (record { mount = some paths; flags = asked }) s in
        FailsWith Code.internal first
        × (first.1 ≡ v)
        × (mount os fs config (record { mount = some paths; flags = asked }) first.1
            ≡ (reply tt, v))
  mount_unowned e later unowned relisted there may_again =
      let run = mount_failed_owner e unowned in
      (
        ground (arith, run),
        ground (arith, run),
        rw run (mount_again os quiet config fs paths asked v later relisted may_again there),
      )
