-- ===== src/Mountd/Main.antt =====
-- crates/mountd/src/main.rs: the start of the program.
use rlvm.Base.{⊤, String, ◌<>◌}
use rlvm.Host.{Startup, Cli}
use rlvm.Mountd.Config.{Config}
use rlvm.Mountd.Spec.{MountService}
use rlvm.Rpc.{Program, ◌>>=◌, ◌>>◌, check, attempt, forward, expect}

module _ {S File : Type 0} (host : Startup S File Config (MountService S)) where
  -- `service` is what `MountdServer::new(cfg)` serves.
  unfoldable pub main : (Config → MountService S) → Cli → Program S String ⊤
  main service args = do
    cfg_file ←
        attempt (host.open_file args.config)
          (λ text. "could not open config file " <> args.config <> ": " <> text)
    cfg ←
        check (host.read_config cfg_file)
          (λ text. "invalid config at " <> args.config <> ": " <> text)
    forward (host.bind args.socket_path)
    expect host.set_handler
    forward (host.serve (service cfg))
    forward (host.remove_file args.socket_path)
