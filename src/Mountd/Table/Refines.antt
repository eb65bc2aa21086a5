-- ===== src/Mountd/Table/Refines.antt =====
-- mountd's two calls that change the mount table, against the abstract view.
use rlvm.Base.{◌≡◌, String, true, List}
use rlvm.Base.Int.{ℤ}
use rlvm.Host.{Os, FlagSet}
use rlvm.Mountd.Config.{Config}
use rlvm.Mountd.Server.Mounting.{IsQuiet}
use rlvm.Mountd.Spec.{Mount}
use rlvm.Mountd.Table.{HasTable}
use rlvm.Mountd.Table.Mounting.{mount-MountRefines}
use rlvm.Mountd.Table.Steps.{MountRefines, UnmountRefines}
use rlvm.Mountd.Table.Unmounting.{unmount-UnmountRefines}

-- On a host that keeps a mount table: every call of `mount` with a source and a destination, and
-- every call of `unmount`, is a step of the abstract view, if the table lists the destination and
-- the path as they are written. `mount` fails and leaves the state if the paths are not allowed, or
-- if the destination is free and a flag is unknown. It succeeds and leaves the state if it is
-- allowed and the destination is a mount point. Else the host is asked to mount: if it fails so does
-- the call, and no path has more mounts or fewer; if it does not, the destination has one mount
-- more, and the call succeeds exactly if the owner could be set. `unmount` fails and leaves the
-- state without a path, or if the path is a mount point to which access is not given; it succeeds
-- and leaves the state if the path is none; else the host is asked to unmount: if it fails so does
-- the call, and no path has more mounts or fewer; if not the call succeeds, and the path has one
-- mount less.
pub mountd-Refines :
    {S F : Type 0} (os : Os S F) (quiet : IsQuiet os) (tab : HasTable os) (config : Config)
    (fs : FlagSet F) (paths : Mount) (asked : List ℤ) (path : String) (s : S)
    → tab.plain paths.dst ≡ true
    → tab.plain path ≡ true
    → MountRefines os quiet tab config fs paths asked s
      × UnmountRefines os quiet tab config fs path s
mountd-Refines os quiet tab config fs paths asked path s plain_dst plain = (
  mount-MountRefines os quiet tab config fs paths asked s plain_dst,
  unmount-UnmountRefines os quiet tab config fs path s plain,
)
