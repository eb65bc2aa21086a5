-- ===== src/Csi/Identity.antt =====
-- crates/csi/src/identity.rs: the handlers of `RLVMIdentity` and its two verifiers. A request
-- carries the client of its own program: volumed's for the controller, mountd's for the node.
pub mod Probing
use rlvm.Base.{⊤, Bool, true, Option, none, some, [], ◌∷◌}
use rlvm.Csi.Spec.Identity.{
  GetPluginInfoResponse, ServiceType, PluginCapability, GetPluginCapabilitiesResponse,
  ProbeResponse,
}
use rlvm.Mountd.Spec.{MountService}
use rlvm.Rpc.{Result, ok, err, Action, ◌>>=◌, pure, settle, unwrap}
use rlvm.Volumed.Spec.{empty, VolumeService}

pub data Verifier : Type 0 where
  controller node : Verifier

-- The clients among the extensions of a request.
pub record Extensions (S : Type 0) : Type 0 where
  pub volumed : Option (VolumeService S)
  pub mountd : Option (MountService S)

-- `result.map(|_| true).ok()`
abbrev pub succeeded : {E A : Type 0} → Result E A → Option Bool
succeeded (ok a) = some true
succeeded (err e) = none

module _ {S : Type 0} where
  unfoldable pub verify : Verifier → Extensions S → Action S (Option Bool)
  verify Verifier.controller extensions = do
    client ← unwrap extensions.volumed
    result ← settle (client.get_free_bytes empty)
    pure (succeeded result)
  verify Verifier.node extensions = do client ← unwrap extensions.mountd; pure (some true)

  unfoldable pub get_plugin_info : ⊤ → Action S GetPluginInfoResponse
  get_plugin_info request =
      pure (record { name = "org.github.rlvm"; vendor_version = "0.1.0"; manifest = [] })

  unfoldable pub get_plugin_capabilities : ⊤ → Action S GetPluginCapabilitiesResponse
  get_plugin_capabilities request = pure (record {
    capabilities =
        PluginCapability.service ServiceType.controller_service
        ∷ PluginCapability.service ServiceType.volume_accessibility_constraints
        ∷ [];
  })

  unfoldable pub probe : Verifier → Extensions S → Action S ProbeResponse
  unfolding verify
  probe verifier extensions = do ready ← verify verifier extensions; pure (record { ready = ready })
