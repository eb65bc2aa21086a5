-- ===== src/Tests/Creation.antt =====
-- `create_volume` of the controller, over volumed in memory.
use rlvm.Base.{◌≡◌, refl, [], inr, arith}
use rlvm.Base.Int.{pos}
use rlvm.Base.Number.{digits, upper_hex}
use rlvm.Csi.Controller.CreateVolume.Accepted.{
  formatted, create_volume_new, create_volume_reformats, create_volume_conflict,
}
use rlvm.Csi.Controller.CreateVolume.Refused.{create_volume_malformed, create_volume_out_of_range}
use rlvm.Csi.Controller.Handlers.{create_volume}
use rlvm.Csi.Spec.Controller.{CreateVolumeRequest}
use rlvm.Rpc.{Code, FailsWith, ok, with_extension}
use rlvm.Tests.Fixtures.{
  platform, controller, volumed, request, sized, free, data_volume, with_data, missing_data,
}
use rlvm.Volumed.Server.{
  get_free_bytes, create_logical_volume, format_logical_volume, get_logical_volume,
}
use rlvm.Volumed.Spec.{empty}

abbrev nameless : CreateVolumeRequest
nameless = record request { name = "" }

abbrev huge : CreateVolumeRequest
huge = sized (pos 20_000_000_000)

create_volume_malformed_run :
    FailsWith Code.invalid_argument
      (create_volume platform controller (with_extension volumed nameless) [])
    × ((create_volume platform controller (with_extension volumed nameless) []).1 ≡ [])
create_volume_malformed_run = create_volume_malformed platform controller volumed nameless [] refl

create_volume_out_of_range_run :
    FailsWith Code.out_of_range
      (create_volume platform controller (with_extension volumed huge) with_data)
    × ((create_volume platform controller (with_extension volumed huge) with_data).1 ≡ with_data)
unfolding get_free_bytes
create_volume_out_of_range_run =
    create_volume_out_of_range platform controller volumed huge with_data free with_data refl refl
      (inr (omega arith))

create_volume_new_run :
    create_volume platform controller (with_extension volumed request) []
    ≡ (formatted controller data_volume (ok empty), with_data)
unfolding get_free_bytes get_logical_volume create_logical_volume format_logical_volume upper_hex
    digits
create_volume_new_run =
    create_volume_new platform controller volumed request free [] [] refl refl (omega arith)
      (omega arith) missing_data data_volume (ok empty) [] with_data with_data refl refl refl refl

create_volume_reformats_run :
    create_volume platform controller (with_extension volumed request) with_data
    ≡ (formatted controller data_volume (ok empty), with_data)
unfolding get_free_bytes get_logical_volume format_logical_volume upper_hex digits
create_volume_reformats_run =
    create_volume_reformats platform controller volumed request free with_data with_data refl refl
      (omega arith) (omega arith) data_volume (ok empty) with_data with_data refl refl refl

create_volume_conflict_run :
    FailsWith Code.already_exists (
      create_volume platform controller
        (with_extension volumed (sized (pos 2_147_483_648)))
        with_data)
    × ((create_volume platform controller
          (with_extension volumed (sized (pos 2_147_483_648)))
          with_data).1
        ≡ with_data)
unfolding get_free_bytes get_logical_volume upper_hex digits
create_volume_conflict_run =
    create_volume_conflict platform controller volumed (sized (pos 2_147_483_648)) free with_data
      with_data refl refl (omega arith) (omega arith) data_volume with_data refl (λ h. omega arith)
