-- ===== src/Mountd/Server/Phases.antt =====
-- `mount` of crates/mountd/src/server.rs cut where it has looked and not yet acted: the server runs
-- its handlers on several threads, and nothing keeps one from acting in between.
use rlvm.Base.{ℕ, zero, suc, ◌≡◌, ⊤, if◌then◌else◌, arith}
use rlvm.Base.Text
use rlvm.Host.{Os, FlagSet}
use rlvm.Host.Paths.{contains_path}
use rlvm.Mountd.Config.{Config}
use rlvm.Mountd.Server.{mount, mounted_paths, check_mount, perform_mount}
use rlvm.Mountd.Spec.{Mount, MountRequest}
use rlvm.Rpc.{
  Status, invalid_argument, Action, Outcome, reply, fail, panic, ◌>>=◌, ◌>>◌, pure, or_raise,
  raise_if,
}

-- Where a request stands: before everything, when the mount is allowed and its destination was
-- found free, and at its end.
pub data MountPhase : Type 0 where
  waiting : MountPhase
  allowed : (paths : Mount) → MountPhase
  over : (r : Outcome Status ⊤) → MountPhase

abbrev pub halt : {S : Type 0} → Outcome Status MountPhase × S → MountPhase × S
halt (reply phase, s) = (phase, s)
halt (fail e, s) = (over (fail e), s)
halt (panic, s) = (over panic, s)

module _ {S F : Type 0} (os : Os S F) (flag_set : FlagSet F) (config : Config) where
  abbrev pub look : MountRequest → Action S MountPhase
  look req = do
    mounts ← mounted_paths os
    paths ← or_raise req.mount (invalid_argument "missing required `mount` arg")
    raise_if (Text.is_empty paths.src) (invalid_argument "missing required field `src` in mount")
    raise_if (Text.is_empty paths.dst) (invalid_argument "missing required field `dst` in mount")
    check_mount os config paths.src paths.dst req.flags
    if contains_path mounts paths.dst then pure (over (reply tt)) else pure (allowed paths)

  -- A request that has ended stays as it is.
  unfoldable pub advance_mount : MountRequest → MountPhase → S → MountPhase × S
  advance_mount req waiting s = halt (look req s)
  advance_mount req (allowed paths) s =
      let (r, t) = perform_mount os flag_set config paths.src paths.dst req.flags s in (over r, t)
  advance_mount req (over r) s = (over r, s)

  abbrev pub run : ℕ → MountRequest → MountPhase → S → MountPhase × S
  run zero req phase s = (phase, s)
  run (suc n) req phase s = let (next, t) = advance_mount req phase s in run n req next t

  -- A mount that is not interleaved with other requests does what the handler does: its phases are
  -- the handler, cut into at most two parts.
  pub run-mount :
      (req : MountRequest) (s : S)
      → run 2 req waiting s
        ≡ (over (mount os flag_set config req s).0, (mount os flag_set config req s).1)
  unfolding advance_mount mount
  run-mount req s = ground arith
