-- ===== src/Tests/Mounting.antt =====
-- mountd on a host in memory.
use rlvm.Base.{◌≡◌, refl, String, true, false, some, [], ◌∷◌, any, arith}
use rlvm.Base.Int.{pos, ◌==◌}
use rlvm.Base.Number.{decimal, digits}
use rlvm.Host.{Metadata}
use rlvm.Host.Flags.{bits, bits-IsFlagSet}
use rlvm.Host.Paths.{contains_path, same_path}
use rlvm.Mountd.Config.{ensure_interactable}
use rlvm.Mountd.Config.Access.{ensure_interactable_readonly}
use rlvm.Mountd.Server.{mount, unmount, check_mount, perform_mount, mount_flags, asks_readonly}
use rlvm.Mountd.Server.Flags.{mount_flags_exact}
use rlvm.Mountd.Server.Mounting.{MayMount, mount_changes, mount_refused, unmount_changes}
use rlvm.Mountd.Server.Ownership.{mount_owned, mount_unowned}
use rlvm.Mountd.Spec.{Mount, MountFlag, MountRequest, to_i32}
use rlvm.Rpc.{Code, FailsWith, Replies, Status, reply, permission_denied}
use rlvm.Tests.Host.{Mounts, host, host-IsQuiet, config}

abbrev to : String → Mount
to path = record { src = "/dev/vg/BEEF"; dst = path }

abbrev request : String → MountRequest
request path = record { mount = some (to path); flags = pos 1 ∷ [] }

mount_changes_example :
    MayMount host host-IsQuiet config (to "/mnt") (pos 1 ∷ []) ("/home" ∷ [])
    × (contains_path ("/home" ∷ []) "/mnt" ≡ false)
unfolding mount check_mount perform_mount ensure_interactable contains_path same_path
mount_changes_example =
    mount_changes host host-IsQuiet config bits (to "/mnt") (pos 1 ∷ []) ("/home" ∷ [])
      ("/home" ∷ []) refl (λ h. ground arith)

mount_flags_exact_example :
    (bits.contains (mount_flags bits (MountFlag.bind ∷ [])) bits.nodev ≡ true)
    × (bits.contains (mount_flags bits (MountFlag.bind ∷ [])) bits.nosuid ≡ true)
    × (bits.contains (mount_flags bits (MountFlag.bind ∷ [])) bits.rdonly
        ≡ asks_readonly (pos 2 ∷ []))
    × (bits.contains (mount_flags bits (MountFlag.bind ∷ [])) bits.bind
        ≡ any (λ n. n == to_i32 MountFlag.bind) (pos 2 ∷ []))
mount_flags_exact_example =
    mount_flags_exact bits (pos 2 ∷ []) (MountFlag.bind ∷ []) bits-IsFlagSet refl

abbrev owned : Metadata
owned = record { uid = 1000; gid = 1000; readonly = false }

sealed_path_refused : ¬ Replies (ensure_interactable host config "/sealed" true [])
sealed_path_refused =
    ensure_interactable_readonly host config "/sealed" true []
      (record { uid = 1000; gid = 1000; readonly = true }) [] refl refl

abbrev May : (path : String) → Mounts → Type 0
May path s = MayMount host host-IsQuiet config (to path) (pos 1 ∷ []) s

May-mnt : May "/mnt" []
unfolding ensure_interactable
May-mnt = (refl, refl, ground arith, ground arith, refl)

May-broken : (s : Mounts) → May "/broken" s
unfolding ensure_interactable
May-broken s = (refl, refl, ground arith, ground arith, refl)

mount_owned_run : mount host bits config (request "/mnt") [] ≡ (reply tt, "/mnt" ∷ [])
unfolding contains_path
mount_owned_run =
    mount_owned host host-IsQuiet config bits (to "/mnt") (pos 1 ∷ []) (MountFlag.read_only ∷ []) []
      ("/mnt" ∷ []) ("/mnt" ∷ []) [] refl May-mnt refl refl refl refl

mount_unowned_example :
    let first = mount host bits config (request "/broken") [] in
    FailsWith Code.internal first
    × (first.1 ≡ "/broken" ∷ [])
    × (mount host bits config (request "/broken") first.1 ≡ (reply tt, "/broken" ∷ []))
unfolding contains_path same_path
mount_unowned_example =
    mount_unowned host host-IsQuiet config bits (to "/broken") (pos 1 ∷ [])
      (MountFlag.read_only ∷ []) [] ("/broken" ∷ []) ("/broken" ∷ []) [] refl (May-broken []) refl
      refl refl "not permitted" ("/broken" ∷ []) refl refl refl (May-broken ("/broken" ∷ []))

abbrev refusal : Status
refusal =
    permission_denied
      "specified destination `/foreign` cannot be mounted by current config: mountpoint is not owned by kube:kube -> /foreign (0:1000)"

refused_mount : ◌≡◌ {A = Mounts} [] []
unfolding mount check_mount ensure_interactable digits decimal
refused_mount =
    mount_refused host host-IsQuiet config bits (to "/foreign") (pos 1 ∷ []) [] [] refl refusal []
      refl (λ h. ground arith)

unmount_changes_run :
    Replies (ensure_interactable host config "/mnt" false ("/mnt" ∷ []))
    × (contains_path ("/mnt" ∷ []) "/mnt" ≡ true)
unfolding unmount ensure_interactable contains_path same_path
unmount_changes_run =
    unmount_changes host host-IsQuiet config "/mnt" ("/mnt" ∷ []) ("/mnt" ∷ []) refl
      (λ h. ground arith)
