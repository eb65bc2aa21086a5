-- ===== src/Volumed/Main.antt =====
-- crates/volumed/src/main.rs: the start of the program, its interceptor, and the service that the
-- two make of the handlers. Files, sockets, the YAML reader and the serving loop are external.
pub mod Wiring
pub mod Starting
use rlvm.Base.{ℕ, ⊤, String, ◌<>◌, Bool, false, none, some, leb}
use rlvm.Base.Number.{decimal}
use rlvm.Host.{Startup, Cli}
use rlvm.Lvm.{Lvm, VolumeGroup, error_text}
use rlvm.Rpc.{
  Status, internal, Program, Action, Request, ◌>>=◌, ◌>>◌, pure, check, attempt, forward, expect,
  raise_if, answer,
}
use rlvm.Volumed.Spec.{VolumeService}
use rlvm.Volumed.Server.{
  Config, Mkfs, get_lv_list, get_free_bytes, create_logical_volume, delete_logical_volume,
  format_logical_volume, get_logical_volume,
}

-- `if let Some(spare_bytes) = … { if *vg.capacity_bytes <= *spare_bytes … }`
abbrev pub is_overcommitted : Config → ℕ → Bool
is_overcommitted config capacity = elim (config.spare_bytes) [
  | none ↦ false
  | some spare ↦ leb capacity spare
]

abbrev pub spare_text : Config → String
spare_text config = elim (config.spare_bytes) [ none ↦ "" | some spare ↦ decimal spare ]

module _ {S : Type 0} (lvm : Lvm S) where
  abbrev pub vg_injector :
      {A : Type 0}
      → Config
      → lvm.Name
      → Request (VolumeGroup lvm.Name) A
      → Action S (Request (VolumeGroup lvm.Name) A)
  vg_injector config resource req = do
    info ←
        attempt (lvm.find_vg resource)
          (λ _. internal ("volume group not found: " <> config.volume_group))
    pure (record req { extension = some info })

  -- One call of the server: the interceptor, then the handler.
  abbrev pub intercepted :
      {A B : Type 0}
      → Config
      → lvm.Name
      → (Request (VolumeGroup lvm.Name) A → Action S B)
      → A
      → Action S B
  intercepted config resource handler message = do
    req ← vg_injector config resource (record { extension = none; message = message })
    handler req

  module _ {File : Type 0} (host : Startup S File Config (VolumeService S)) where
    -- What `main` does before it binds the socket.
    unfoldable pub load : Cli → Program S String (Config × lvm.Name)
    load args = do
      cfg_file ←
          attempt (host.open_file args.config)
            (λ text. "could not open config file " <> args.config <> ": " <> text)
      cfg ←
          check (host.read_config cfg_file)
            (λ text. "invalid config at " <> args.config <> ": " <> text)
      resource ← check (lvm.name_of cfg.volume_group) (λ text. text)
      vg ← attempt (lvm.find_vg resource) (λ e.
          "could not find specified volume group `"
          <> lvm.show_name resource
          <> "`: "
          <> error_text e)
      raise_if (is_overcommitted cfg vg.capacity_bytes) (
          "capacity of managed volume ("
          <> lvm.show_capacity vg.capacity_bytes
          <> ") is not larger than the requested spare_bytes ("
          <> spare_text cfg
          <> ")")
      pure (cfg, resource)

  module _ (mkfs : Mkfs S) (panicked : Status) where
    -- `VolumedServer` behind the interceptor, as its clients call it.
    abbrev pub service : Config → lvm.Name → VolumeService S
    service config resource = record {
      get_lv_list = λ m. answer panicked (intercepted config resource (get_lv_list lvm) m);
      get_free_bytes =
          λ m. answer panicked (intercepted config resource (get_free_bytes lvm config) m);
      create_logical_volume =
          λ m. answer panicked (intercepted config resource (create_logical_volume lvm) m);
      format_logical_volume =
          λ m. answer panicked (intercepted config resource (format_logical_volume lvm mkfs) m);
      delete_logical_volume =
          λ m. answer panicked (intercepted config resource (delete_logical_volume lvm) m);
      get_logical_volume =
          λ m. answer panicked (intercepted config resource (get_logical_volume lvm) m);
    }

    module _ {File : Type 0} (host : Startup S File Config (VolumeService S)) where
      unfoldable pub main : Cli → Program S String ⊤
      main args = do
        loaded ← load host args
        forward (host.bind args.socket_path)
        expect host.set_handler
        forward (host.serve (service loaded.0 loaded.1))
        forward (host.remove_file args.socket_path)
