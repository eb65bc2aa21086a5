-- ===== src/System/MountHost.antt =====
-- The host of mountd: what the node's calls of it stand on.
use rlvm.Host.{Os, FlagSet}
use rlvm.Lvm.{Lvm}
use rlvm.Mountd.Config.{Config}
use rlvm.Mountd.Server.{service}
use rlvm.Mountd.Server.Mounting.{IsQuiet}
use rlvm.Mountd.Spec.{MountService}
use rlvm.Rpc.{Status}

-- The host, where reading metadata and listing the mount points change nothing, lvm2_cmd, the mount
-- flags, mountd's configuration, and the status of a call that panics.
pub record MountHost (S F : Type 0) : Type 1 where
  pub os : Os S F
  pub quiet : IsQuiet os
  pub lvm : Lvm S
  pub fs : FlagSet F
  pub config : Config
  pub panicked : Status

-- mountd on that host, as its clients call it.
abbrev pub client : {S F : Type 0} → MountHost S F → MountService S
client host = service host.os host.lvm host.fs host.config host.panicked
