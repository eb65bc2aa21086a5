-- ===== src/Tests/Concurrent.antt =====
-- Two requests for the same volume, served at the same time.
use rlvm.Base.{ℕ, ◌≡◌, refl, arith, some, [], ◌∷◌, List}
use rlvm.Base.Number.{digits, upper_hex}
use rlvm.Csi.Controller.CreateVolume.Phases.{Phase, start, done, advance, run-create_volume, run}
use rlvm.Csi.Controller.Handlers.{create_volume}
use rlvm.Csi.Controller.Parts.{process_volume, hash_resource}
use rlvm.Csi.Spec.Controller.{CreateVolumeRequest, CreateVolumeResponse}
use rlvm.Lvm.Laws.{Volume}
use rlvm.Lvm.Memory.{Disk, memory, volume}
use rlvm.Rpc.{Status, Outcome, reply, ok, with_extension}
use rlvm.System.Concurrent.{creation, beginning}
use rlvm.Interleaving.{World, Reach, here, serve, serve-Reach}
use rlvm.System.Concurrent.Ending.{concurrent-create_volume_ends}
use rlvm.System.Concurrent.Safety.{
  concurrent-create_volume, concurrent_keeps, concurrent-create_volume_same,
}
use rlvm.Tests.Fixtures.{
  managed, platform, controller, volumed, request, data_volume, with_data, gib,
}
use rlvm.Tests.Refinement.{no_volumes, no_volumes-Represents, one_volume, one_volume-Represents}
use rlvm.Tests.Separate.{memory-IsSeparate}
use rlvm.Volumed.Server.{
  get_free_bytes, create_logical_volume, format_logical_volume, get_logical_volume, to_message,
}

-- All requests are for the volume of name "data".
abbrev requests : ℕ → CreateVolumeRequest
requests i = request

-- Request 0 has looked up the name before request 1 begins, which then finds the volume.
abbrev order : List ℕ
order = 0 ∷ 1 ∷ 0 ∷ 0 ∷ 1 ∷ 0 ∷ 1 ∷ 1 ∷ []

abbrev idle : Disk → World Disk Phase
idle s = beginning platform controller volumed requests s

abbrev served : World Disk Phase
served = serve (creation platform controller volumed requests) order (idle [])

abbrev response : CreateVolumeResponse
response = record { volume = some (process_volume controller data_volume) }

both_replied :
    (served.tasks 0 ≡ done (reply response))
    × (served.tasks 1 ≡ done (reply response))
    × (served.state ≡ with_data)
unfolding advance get_free_bytes get_logical_volume create_logical_volume format_logical_volume
    upper_hex digits
both_replied = (refl, refl, refl)

reached : Reach (creation platform controller volumed requests) (idle []) served
reached = serve-Reach (creation platform controller volumed requests) order (idle []) (idle []) here

concurrent-create_volume_example :
    (lv : Volume memory) × (memory.find_lv "vg" "BEEF" with_data ≡ (ok lv, with_data))
    × (response ≡ record { volume = some (process_volume controller (to_message memory lv)) })
unfolding advance get_free_bytes get_logical_volume create_logical_volume format_logical_volume
    upper_hex digits
concurrent-create_volume_example =
    concurrent-create_volume managed memory-IsSeparate platform controller requests
      (λ i. hash_resource platform request.name) (λ i. refl) no_volumes [] served 1 response
      no_volumes-Represents reached refl

concurrent-create_volume_same_example : response ≡ response
unfolding advance get_free_bytes get_logical_volume create_logical_volume format_logical_volume
    upper_hex digits
concurrent-create_volume_same_example =
    concurrent-create_volume_same managed memory-IsSeparate platform controller requests
      (λ i. hash_resource platform request.name) (λ i. refl) no_volumes [] served 0 1 response
      response no_volumes-Represents reached refl refl refl

-- A disk that has the volume.
abbrev later : World Disk Phase
later = serve (creation platform controller volumed requests) order (idle with_data)

concurrent_keeps_example :
    memory.find_lv "vg" "BEEF" later.state ≡ (ok (volume "BEEF" gib), later.state)
unfolding upper_hex digits
concurrent_keeps_example =
    concurrent_keeps managed memory-IsSeparate platform controller requests
      (λ i. hash_resource platform request.name) (λ i. refl) one_volume with_data later "BEEF"
      (volume "BEEF" gib) one_volume-Represents
      (serve-Reach (creation platform controller volumed requests) order (idle with_data)
        (idle with_data) here)
      refl

concurrent-create_volume_ends_run :
    (r : Outcome Status CreateVolumeResponse) × (served.tasks 1 ≡ done r)
concurrent-create_volume_ends_run =
    concurrent-create_volume_ends platform controller volumed requests order 1 (idle [])
      (omega arith)

run-create_volume_run : run platform controller volumed request 4 start [] ≡ (
  done (create_volume platform controller (with_extension volumed request) []).0,
  (create_volume platform controller (with_extension volumed request) []).1,
)
run-create_volume_run = run-create_volume platform controller volumed request []
