-- ===== src/Tests/Table.antt =====
-- A host that keeps a table of its mounts, from which an unmount takes the last one on its path.
use rlvm.Base.{
  ℕ, ⊤, ◌+◌, ◌-◌, ◌≡◌, refl, sym, ◌∙◌, ap, String, List, true, false, some, [], ◌∷◌, if◌then◌else◌,
  arith, inl, inr, Bool-cases,
}
use rlvm.Base.Int.{pos}
use rlvm.Host.{Os}
use rlvm.Host.Flags.{Bits, bits}
use rlvm.Host.Paths.{same_path, same_path-same, same_path-same_left, contains_path}
use rlvm.Mountd.Config.{ensure_interactable}
use rlvm.Mountd.Server.{unmount, mount, check_mount, perform_mount}
use rlvm.Mountd.Server.Mounting.{IsQuiet}
use rlvm.Interleaving.{serve}
use rlvm.Mountd.Server.Phases.{run, waiting, over, advance_mount, run-mount}
use rlvm.Mountd.Spec.{Mount}
use rlvm.Mountd.Table.Doubled.{order, double_mount}
use rlvm.Mountd.Table.{HasTable, mounts_on}
use rlvm.Mountd.Table.Calls.{
  MountCall, mounting, IsSingle, after_all, mountd_mounts_once, unmount_frees,
}
use rlvm.Mountd.Table.Refines.{mountd-Refines}
use rlvm.Mountd.Table.Steps.{MountRefines, UnmountRefines}
use rlvm.Rpc.{Result, ok, err, reply}
use rlvm.Tests.Host.{Mounts, host, config}

abbrev taken_off : String → Mounts → Mounts
taken_off path [] = []
taken_off path (m ∷ ms) = let rest = taken_off path ms in if same_path m path then ms else m ∷ rest

abbrev pub table_host : Os Mounts Bits
table_host = record {
  path_exists = host.path_exists;
  is_dir = host.is_dir;
  metadata = host.metadata;
  glob = host.glob;
  mountpaths = host.mountpaths;
  mount = host.mount;
  unmount = λ path s. (ok tt, taken_off path s);
  chown = λ path uid gid s. (ok tt, s);
  create_dir_all = host.create_dir_all;
  remove_dir = host.remove_dir;
}

pub mounts_on-taken_off :
    (dst : String) (table : Mounts) (path : String)
    → mounts_on path (taken_off dst table)
      ≡ mounts_on path table - (if same_path dst path then 1 else 0)
mounts_on-taken_off dst [] path = ground arith
mounts_on-taken_off dst (m ∷ ms) path = elim (Bool-cases (same_path m dst)) [
  | inl here ↦ ground (arith, same_path-same_left m dst path here)
  | inr other ↦ elim (Bool-cases (same_path dst path)) [
    | inl there ↦ ground (arith, same_path-same dst path m there, mounts_on-taken_off dst ms path)
    | inr away ↦ ground (arith, mounts_on-taken_off dst ms path)
  ]
]

pub table_host-IsQuiet : IsQuiet table_host
table_host-IsQuiet = record { metadata_state = λ path s. refl; mountpaths_state = λ s. refl }

pub mounts_on-mount :
    (dst : String) (s t : Mounts) (path : String)
    → dst ∷ s ≡ t
    → mounts_on path t ≡ mounts_on path s + (if same_path dst path then 1 else 0)
mounts_on-mount dst s t path h = ground (arith, ap (mounts_on path) h)

pub not_failed : {s t : Mounts} {e : String} → ◌≡◌ {A = Result String ⊤} (ok tt) (err e) → t ≡ s
not_failed h = ground arith

abbrev pub table_host-HasTable : HasTable table_host
table_host-HasTable = record {
  table = λ s. s;
  plain = λ path. true;
  listed = λ s. refl;
  mounted = λ kind flags src dst s t plain h path. mounts_on-mount dst s t path (ap (λ p. p.1) h);
  not_mounted = λ kind flags src dst e s t h. not_failed (ap (λ p. p.0) h);
  unmounted = λ dst s t plain h path.
      ap (mounts_on path) (sym (ap (λ p. p.1) h)) ∙ mounts_on-taken_off dst s path;
  not_unmounted = λ dst e s t h. not_failed (ap (λ p. p.0) h);
  chown_table = λ path uid gid s. refl;
  create_dir_all_table = λ path s. refl;
  remove_dir_table = λ path s. refl;
}

abbrev once : List MountCall
once =
    mounting
      (record { mount = some (record { src = "/dev/vg/BEEF"; dst = "/mnt" }); flags = pos 1 ∷ [] })
    ∷ mounting (record {
      mount = some (record { src = "/dev/vg/BEEF"; dst = "/mnt/" });
      flags = pos 1 ∷ [];
    })
    ∷ []

-- The second mount finds the first.
mounted_once :
    after_all table_host table_host-IsQuiet table_host-HasTable config bits once [] ≡ "/mnt" ∷ []
unfolding mount check_mount perform_mount ensure_interactable contains_path same_path
mounted_once = refl

mountd_mounts_once_run : IsSingle ("/mnt" ∷ [])
unfolding mount check_mount perform_mount ensure_interactable contains_path same_path
mountd_mounts_once_run =
    mountd_mounts_once table_host table_host-IsQuiet table_host-HasTable config bits once [] refl
      (λ path. omega arith)

unmount_frees_run : (table_host.mountpaths [] ≡ (ok [], [])) × (contains_path [] "/mnt/." ≡ false)
unfolding mount check_mount perform_mount ensure_interactable contains_path same_path unmount
unmount_frees_run =
    unmount_frees table_host table_host-IsQuiet table_host-HasTable config bits once [] refl
      (λ path. omega arith) "/mnt/." [] refl refl

abbrev twice : Mount
twice = record { src = "/dev/vg/BEEF"; dst = "/mnt" }

run-mount_run :
    run table_host bits config 2 (record { mount = some twice; flags = [] }) waiting []
    ≡ (over (reply tt), "/mnt" ∷ [])
unfolding mount check_mount perform_mount ensure_interactable contains_path same_path
run-mount_run = run-mount table_host bits config (record { mount = some twice; flags = [] }) []

double_mount_example :
    let end =
      serve
        (λ (i : ℕ).
          advance_mount table_host bits config (record { mount = some twice; flags = [] }))
        order
        (record { state = []; tasks = λ i. waiting }) in
    (end.tasks 0 ≡ over (reply tt))
    × (end.tasks 1 ≡ over (reply tt))
    × (mounts_on "/mnt" end.state ≡ 2)
    × (contains_path ("/mnt" ∷ []) "/mnt" ≡ true)
unfolding unmount ensure_interactable contains_path same_path
double_mount_example =
    double_mount table_host table_host-IsQuiet table_host-HasTable config bits twice [] [] []
      ("/mnt" ∷ []) ("/mnt" ∷ []) ("/mnt" ∷ "/mnt" ∷ []) ("/mnt" ∷ "/mnt" ∷ []) ("/mnt" ∷ []) refl
      (refl, refl, ground arith, ground arith, refl) refl refl refl refl refl refl refl

mountd-Refines_example :
    MountRefines table_host table_host-IsQuiet table_host-HasTable config bits twice []
      ("/stage" ∷ [])
    × UnmountRefines table_host table_host-IsQuiet table_host-HasTable config bits "/stage"
        ("/stage" ∷ [])
mountd-Refines_example =
    mountd-Refines table_host table_host-IsQuiet table_host-HasTable config bits twice [] "/stage"
      ("/stage" ∷ []) refl refl

-- The steps that these calls are.
stepped :
    (mount table_host bits config (record { mount = some twice; flags = [] }) ("/stage" ∷ [])
      ≡ (reply tt, "/mnt" ∷ "/stage" ∷ []))
    × (unmount table_host config (record { path = "/stage" }) ("/stage" ∷ []) ≡ (reply tt, []))
unfolding mount check_mount perform_mount ensure_interactable contains_path same_path unmount
stepped = (refl, refl)
