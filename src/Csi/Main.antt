-- ===== src/Csi/Main.antt =====
-- crates/csi/src/bin: the start of the two programs of the plugin. `connect` reaches the socket of
-- volumed or mountd, and yields a client.
use rlvm.Base.{⊤, String, none, some}
use rlvm.Csi.Controller.Parts.{Platform}
use rlvm.Csi.Identity.{Verifier}
use rlvm.Csi.Services.{
  ControllerService, NodeService, IdentityService, controller_service, node_service,
  identity_service,
}
use rlvm.Host.{Os, Startup}
use rlvm.Mountd.Spec.{MountService}
use rlvm.Rpc.{Status, Call, Program, ◌>>=◌, ◌>>◌, forward, expect}
use rlvm.Volumed.Spec.{VolumeService}

-- `node_id` is the UUID as it prints, and `daemon_socket` is `volumed_socket` or `mountd_socket`.
pub record Cli : Type 0 where
  pub node_id : String
  pub socket_path : String
  pub daemon_socket : String

module _ {S File Config : Type 0} (panicked : Status) where
  unfoldable pub controller_main :
      Startup S File Config (ControllerService S × IdentityService S)
      → (String → Call S String (VolumeService S))
      → Platform
      → Cli
      → Program S String ⊤
  controller_main host connect platform args = do
    forward (host.bind args.socket_path)
    expect host.set_handler
    client ← expect (connect args.daemon_socket)
    forward (
        host.serve (
          controller_service panicked platform (record { node_id = args.node_id }) client,
          identity_service panicked Verifier.controller
              (record { volumed = some client; mountd = none }),
        ))
    forward (host.remove_file args.socket_path)

  unfoldable pub node_main :
      {F : Type 0}
      → Startup S File Config (NodeService S × IdentityService S)
      → (String → Call S String (MountService S))
      → Os S F
      → Cli
      → Program S String ⊤
  node_main host connect os args = do
    forward (host.bind args.socket_path)
    expect host.set_handler
    client ← expect (connect args.daemon_socket)
    forward (
        host.serve (
          node_service panicked os (record { node_id = args.node_id }) client,
          identity_service panicked Verifier.node (record { volumed = none; mountd = some client }),
        ))
    forward (host.remove_file args.socket_path)
