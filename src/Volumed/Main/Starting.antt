-- ===== src/Volumed/Main/Starting.antt =====
-- What the start of volumed (crates/volumed/src/main.rs) has checked before it serves.
use rlvm.Base.{ℕ, ◌≡◌, ◌+◌, ◌<◌, ⊤, String, true, some, inl, inr, arith}
use rlvm.Host.{Startup, Cli}
use rlvm.Lvm.{Lvm, VolumeGroup}
use rlvm.Rpc.{Status, Result, Replies, ok, err, reply, fail, Result-cases, pure_Result-cases}
use rlvm.Volumed.Main.{is_overcommitted, service, load, main}
use rlvm.Volumed.Server.{Config, Mkfs, free_bytes}
use rlvm.Volumed.Spec.{VolumeService}

module _ {S File : Type 0} (lvm : Lvm S) (mkfs : Mkfs S) (panicked : Status)
    (host : Startup S File Config (VolumeService S)) (args : Cli) where
  -- A configuration with spare bytes that was accepted is what the file of the command line holds,
  -- the name that volumed manages is that of the configuration's group, LVM had a group of that
  -- name, and the spare bytes are fewer than its capacity: of the whole capacity they leave at
  -- least one byte, and `free_bytes` is exactly what they leave.
  pub load_accepted :
      (s t : S) (cfg : Config) (resource : lvm.Name) (spare : ℕ)
      → load lvm host args s ≡ (reply (cfg, resource), t)
      → cfg.spare_bytes ≡ some spare
      → (file : File) × (u : S) × (vg : VolumeGroup lvm.Name) × (host.open_file args.config s
          ≡ (ok file, u))
        × (host.read_config file ≡ ok cfg)
        × (lvm.name_of cfg.volume_group ≡ ok resource)
        × (lvm.find_vg resource u ≡ (ok vg, t))
        × (spare < vg.capacity_bytes)
        × (free_bytes cfg vg.capacity_bytes + spare ≡ vg.capacity_bytes)
  unfolding load
  load_accepted s t cfg resource spare h has = elim (Result-cases (host.open_file args.config s)) [
    | inr (e, u, failed) ↦ ground arith
    | inl (file, u, opened) ↦ elim (pure_Result-cases (host.read_config file)) [
      | inr (e, failed) ↦ ground arith
      | inl (cfg', parsed) ↦ elim (pure_Result-cases (lvm.name_of cfg'.volume_group)) [
        | inr (e, failed) ↦ ground arith
        | inl (name, named) ↦ elim (Result-cases (lvm.find_vg name u)) [
          | inr (e, v, failed) ↦ ground arith
          | inl (vg, v, seen) ↦ (
            file,
            u,
            vg,
            opened,
            ground arith,
            ground arith,
            ground arith,
            ground arith,
            ground arith,
          )
        ]
      ]
    ]
  ]

  -- A configuration whose spare bytes take the whole capacity is refused before the socket is
  -- bound: the state is the one after the group was looked up.
  pub main_overcommitted :
      (s t u : S) (file : File) (cfg : Config) (resource : lvm.Name) (vg : VolumeGroup lvm.Name)
      → host.open_file args.config s ≡ (ok file, t)
      → host.read_config file ≡ ok cfg
      → lvm.name_of cfg.volume_group ≡ ok resource
      → lvm.find_vg resource t ≡ (ok vg, u)
      → is_overcommitted cfg vg.capacity_bytes ≡ true
      → let end = main lvm mkfs panicked host args s in ¬ Replies end × (end.1 ≡ u)
  unfolding main load
  main_overcommitted s t u file cfg resource vg opened parsed named seen over =
      (λ r. ground arith, ground arith)

  -- Once the configuration is accepted and the socket bound, the file of the socket is removed
  -- exactly if serving ends without an error; if it ends with one the program fails with that
  -- error, and the file stays.
  pub main_cleanup :
      (s t u v w : S) (loaded : Config × lvm.Name) (r : Result String ⊤)
      → load lvm host args s ≡ (reply loaded, t)
      → host.bind args.socket_path t ≡ (ok tt, u)
      → host.set_handler u ≡ (ok tt, v)
      → host.serve (service lvm mkfs panicked loaded.0 loaded.1) v ≡ (r, w)
      → main lvm mkfs panicked host args s ≡ (elim r [
        | ok done ↦ elim (host.remove_file args.socket_path w).0 [
          | ok removed ↦ (reply tt, (host.remove_file args.socket_path w).1)
          | err e ↦ (fail e, (host.remove_file args.socket_path w).1)
        ]
        | err e ↦ (fail e, w)
      ])
  unfolding main
  main_cleanup s t u v w loaded r accepted bound handled served = ground arith
