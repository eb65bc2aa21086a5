-- ===== src/Tests/Mixed.antt =====
-- A creation and deletions of the same volume, served at the same time.
use rlvm.Base.{
  ℕ, ◌≡◌, ◌⊎◌, refl, Bool, true, false, some, [], ◌∷◌, List, ◌==◌, if◌then◌else◌, arith,
}
use rlvm.Base.Number.{digits, upper_hex}
use rlvm.Csi.Controller.CreateVolume.Phases.{start, done, advance}
use rlvm.Csi.Controller.DeleteVolume.Phases.{begun, ended, advance_delete, run, run-delete_volume}
use rlvm.Csi.Controller.Handlers.{create_volume, delete_volume}
use rlvm.Csi.Controller.Parts.{find_or_create, process_volume, hash_resource}
use rlvm.Csi.Spec.Controller.{CreateVolumeResponse, DeleteVolumeRequest}
use rlvm.Lvm.Memory.{Disk, memory, volume}
use rlvm.Rpc.{Code, Status, reply, ok, err, with_extension}
use rlvm.System.Mixed.{Task, creating, deleting, IsFresh, turn}
use rlvm.Interleaving.{World, Reach, here, serve, serve-Reach}
use rlvm.System.Mixed.Ending.{HasEnded, mixed_ends}
use rlvm.System.Mixed.Safety.{Creator, IsThere, mixed_no_stray, mixed-create_volume}
use rlvm.System.Mixed.Stale.{order, waiting, stale_deletion}
use rlvm.Tests.Fixtures.{
  platform, controller, managed, volumed, request, data_volume, with_data, gib,
}
use rlvm.Tests.Refinement.{no_volumes, no_volumes-Represents}
use rlvm.Tests.Separate.{memory-IsSeparate}
use rlvm.Volumed.Server.{
  get_free_bytes, create_logical_volume, delete_logical_volume, format_logical_volume,
  get_logical_volume,
}
use rlvm.Volumed.Spec.{Identifier}

abbrev deletion : DeleteVolumeRequest
deletion = record { volume_id = "BEEF"; secrets = [] }

abbrev beginning : World Disk Task
beginning = waiting deletion request []

choice-IsFresh :
    (b : Bool) → IsFresh (if b then creating request start else deleting deletion begun)
choice-IsFresh true = tt
choice-IsFresh false = tt

beginning-IsFresh : (i : ℕ) → IsFresh (beginning.tasks i)
beginning-IsFresh i = choice-IsFresh (i == 2)

-- The creation comes up to its format, between the first deletion's lookup and the others.
abbrev some_order : List ℕ
some_order = 2 ∷ 2 ∷ 0 ∷ 2 ∷ []

abbrev formatting : World Disk Task
formatting = serve (turn platform controller volumed) some_order beginning

reached : Reach (turn platform controller volumed) beginning formatting
reached = serve-Reach (turn platform controller volumed) some_order beginning beginning here

abbrev response : CreateVolumeResponse
response = record { volume = some (process_volume controller data_volume) }

mixed_no_stray_example :
    (memory.find_lv "vg" "BEEF" [] ≡ (ok (volume "BEEF" gib), []))
    ⊎ Creator managed memory-IsSeparate platform controller beginning.tasks "BEEF"
unfolding advance advance_delete get_free_bytes get_logical_volume create_logical_volume upper_hex
    digits
mixed_no_stray_example =
    mixed_no_stray managed memory-IsSeparate platform controller
      (λ name. (hash_resource platform name, refl)) no_volumes beginning formatting
      no_volumes-Represents beginning-IsFresh reached "BEEF" (volume "BEEF" gib) refl

mixed-create_volume_example :
    IsThere managed memory-IsSeparate platform controller request with_data
unfolding advance advance_delete get_free_bytes get_logical_volume create_logical_volume
    format_logical_volume upper_hex digits
mixed-create_volume_example =
    mixed-create_volume managed memory-IsSeparate platform controller
      (λ name. (hash_resource platform name, refl)) no_volumes beginning formatting
      no_volumes-Represents beginning-IsFresh reached 2 request response (λ h. ground arith) refl

mixed_ends_example :
    HasEnded ((serve (turn platform controller volumed) (2 ∷ 0 ∷ 2 ∷ 2 ∷ 2 ∷ []) beginning).tasks 2)
mixed_ends_example =
    mixed_ends platform controller volumed (2 ∷ 0 ∷ 2 ∷ 2 ∷ 2 ∷ []) 2 beginning (omega arith)

run-delete_volume_run : run volumed 2 deletion begun with_data ≡ (
  ended (delete_volume platform controller (with_extension volumed deletion) with_data).0,
  (delete_volume platform controller (with_extension volumed deletion) with_data).1,
)
run-delete_volume_run = run-delete_volume volumed platform controller deletion with_data

stale_deletion_example :
    let end = serve (turn platform controller volumed) order (waiting deletion request with_data) in
    (end.tasks 0 ≡ deleting deletion (ended (reply tt)))
    × (end.tasks 1 ≡ deleting deletion (ended (reply tt)))
    × (end.tasks 2 ≡ creating request (done (reply response)))
    × (missing : Status) × (volumed.get_logical_volume
          (record { identifier = some (Identifier.name (hash_resource platform request.name)) })
          end.state
        ≡ (err missing, end.state))
    × (missing.code ≡ Code.not_found)
unfolding create_volume delete_volume find_or_create get_free_bytes get_logical_volume
    create_logical_volume delete_logical_volume format_logical_volume upper_hex digits
stale_deletion_example =
    stale_deletion managed platform controller deletion request data_volume response "BEEF"
      with_data [] with_data [] refl refl refl refl refl refl refl
