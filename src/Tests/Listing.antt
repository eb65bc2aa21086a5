-- ===== src/Tests/Listing.antt =====
-- The other calls of the controller, over volumed in memory.
use rlvm.Base.{◌≡◌, ◌⊎◌, refl, some, none, Option, String, ◌↔◌, List, [], ◌∷◌, arith}
use rlvm.Base.Int.{pos, negsuc}
use rlvm.Base.Number.{decimal, digits, ParseIntError, parse_usize}
use rlvm.Csi.Controller.Capacity.{IsShorted, get_capacity_exact}
use rlvm.Csi.Controller.DeleteVolume.{
  missing_volume_id, delete_volume_found, delete_volume_lookup_error,
  validate_volume_capabilities_ignores,
}
use rlvm.Csi.Controller.Handlers.{
  list_volumes, get_capacity, delete_volume, validate_volume_capabilities,
}
use rlvm.Csi.Controller.ListVolumes.{
  entry, start_of-decimal, list_volumes_limited, list_volumes_unlimited, list_volumes_loops,
  list_volumes_bad_arguments, list_volumes_overflow,
}
use rlvm.Csi.Controller.Names.{hash_resource_iff}
use rlvm.Csi.Controller.Parts.{min_volume_size_bytes, get_host_topology, hash_resource, start_of}
use rlvm.Csi.Spec.Controller.{
  ListVolumesResponse, GetCapacityRequest, DeleteVolumeRequest, ValidateVolumeCapabilitiesRequest,
  no_capacity,
}
use rlvm.Csi.Spec.Messages.{Topology, VolumeCapability}
use rlvm.Rpc.{Code, FailsWith, ok, reply, fail, panic, aborted, invalid_argument, with_extension}
use rlvm.Tests.Fixtures.{
  platform, controller, volumed, capability, multi_node, free, data_volume, with_data, missing_data,
}
use rlvm.Volumed.Server.{get_lv_list, get_free_bytes, get_logical_volume, delete_logical_volume}
use rlvm.Volumed.Spec.{empty}

largest_token :
    start_of "18446744073709551615" with_data ≡ (reply 18_446_744_073_709_551_615, with_data)
unfolding decimal digits
largest_token = start_of-decimal 18_446_744_073_709_551_615 with_data (omega arith)

list_volumes_limited_example :
    list_volumes platform controller
      (with_extension volumed (record { max_entries = pos 1; starting_token = "1" }))
      (("B", 512) ∷ with_data)
    ≡ (
      reply (record {
        entries =
            entry controller
              (record { uuid = "B"; name = "B"; capacity_bytes = 512; volume_group = "vg" })
            ∷ [];
        next_token = "";
      }),
      ("B", 512) ∷ with_data,
    )
unfolding get_lv_list parse_usize
list_volumes_limited_example =
    list_volumes_limited platform controller volumed 0 1 "1" (("B", 512) ∷ with_data)
      (("B", 512) ∷ with_data)
      (record { uuid = "B"; name = "B"; capacity_bytes = 512; volume_group = "vg" }
        ∷ data_volume
        ∷ [])
      refl refl (omega arith)

list_volumes_unlimited_run :
    list_volumes platform controller
      (with_extension volumed (record { max_entries = pos 0; starting_token = "1" }))
      with_data
    ≡ (reply (record { entries = entry controller data_volume ∷ []; next_token = "" }), with_data)
unfolding get_lv_list parse_usize
list_volumes_unlimited_run =
    list_volumes_unlimited platform controller volumed 1 "1" with_data with_data (data_volume ∷ [])
      refl refl (omega arith) (omega arith)

abbrev page : ListVolumesResponse
page = record { entries = entry controller data_volume ∷ []; next_token = "0" }

list_volumes_loops_example :
    (list_volumes platform controller
        (with_extension volumed (record { max_entries = pos 0; starting_token = "" }))
        with_data
      ≡ (reply page, with_data))
    × (list_volumes platform controller
          (with_extension volumed (record { max_entries = pos 0; starting_token = "0" }))
          with_data
        ≡ (reply page, with_data))
unfolding get_lv_list
list_volumes_loops_example =
    list_volumes_loops platform controller volumed with_data data_volume [] refl (omega arith)

list_volumes_bad_arguments_run :
    (list_volumes platform controller
        (with_extension volumed (record { max_entries = negsuc 0; starting_token = "x" }))
        []
      ≡ (
        fail (
            invalid_argument
              "`max_entries` must be a valid positive integer: out of range integral type conversion attempted"),
        [],
      ))
    × (list_volumes platform controller
          (with_extension volumed (record { max_entries = pos 1; starting_token = "x" }))
          []
        ≡ (
          fail (
              aborted
                "`starting_token` must be a valid positive integer: invalid digit found in string"),
          [],
        ))
unfolding parse_usize
list_volumes_bad_arguments_run =
    list_volumes_bad_arguments platform controller volumed 0 "x" (pos 1) ParseIntError.invalid_digit
      [] refl refl (λ h. ground arith)

list_volumes_overflow_example :
    list_volumes platform controller
      (with_extension volumed
        (record { max_entries = pos 1; starting_token = "18446744073709551615" }))
      with_data
    ≡ (panic, with_data)
unfolding get_lv_list parse_usize
list_volumes_overflow_example =
    list_volumes_overflow platform controller volumed 1 18_446_744_073_709_551_615
      "18446744073709551615" with_data with_data (data_volume ∷ []) refl refl (omega arith) refl

abbrev capacity_query : List VolumeCapability → Option Topology → GetCapacityRequest
capacity_query caps topology = record {
  volume_capabilities = caps;
  parameters = [];
  accessible_topology = topology;
}

own_host :
    get_capacity platform controller
      (with_extension volumed (capacity_query [] (some (get_host_topology controller))))
      []
    ≡ (reply no_capacity, [])
unfolding get_capacity
own_host = refl

-- Another host, asked for a mode of one node.
abbrev elsewhere : GetCapacityRequest
elsewhere = capacity_query (capability ∷ []) (some (record { segments = ("host", "n2") ∷ [] }))

get_capacity_exact_example :
    (IsShorted platform controller volumed elsewhere []
      × (get_capacity platform controller (with_extension volumed elsewhere) []
          ≡ (reply no_capacity, [])))
    ⊎ ((¬ IsShorted platform controller volumed elsewhere [])
        × (get_capacity platform controller (with_extension volumed elsewhere) [] ≡ (
          reply (record {
            available_capacity = pos free;
            maximum_volume_size = none;
            minimum_volume_size = some (pos min_volume_size_bytes);
          }),
          [],
        )))
unfolding get_free_bytes
get_capacity_exact_example =
    get_capacity_exact platform controller volumed elsewhere [] (ok (record { bytes_free = free }))
      [] refl

abbrev deletion : String → DeleteVolumeRequest
deletion id = record { volume_id = id; secrets = [] }

abbrev query : String → List VolumeCapability → ValidateVolumeCapabilitiesRequest
query id caps = record {
  volume_id = id;
  volume_context = [];
  volume_capabilities = caps;
  parameters = [];
  secrets = [];
}

no_identifier :
    FailsWith Code.invalid_argument
      (delete_volume platform controller (with_extension volumed (deletion "")) [])
    × ((delete_volume platform controller (with_extension volumed (deletion "")) []).1 ≡ [])
    × FailsWith Code.invalid_argument
        (validate_volume_capabilities platform controller (with_extension volumed (query "" [])) [])
    × ((validate_volume_capabilities platform controller
          (with_extension volumed (query "" []))
          []).1
        ≡ [])
no_identifier =
    missing_volume_id platform controller volumed [] (deletion "") (query "" []) refl refl

delete_volume_found_run :
    delete_volume platform controller (with_extension volumed (deletion "BEEF")) with_data
    ≡ (reply tt, [])
unfolding get_logical_volume delete_logical_volume
delete_volume_found_run =
    delete_volume_found platform controller volumed with_data (deletion "BEEF") data_volume
      (ok empty) with_data [] refl refl refl

delete_volume_lookup_error_run :
    delete_volume platform controller (with_extension volumed (deletion "BEEF")) [] ≡ (reply tt, [])
unfolding get_logical_volume
delete_volume_lookup_error_run =
    delete_volume_lookup_error platform controller volumed [] (deletion "BEEF") missing_data [] refl
      refl

validate_volume_capabilities_ignores_example :
    validate_volume_capabilities platform controller
      (with_extension volumed (query "BEEF" (capability ∷ [])))
      with_data
    ≡ validate_volume_capabilities platform controller
        (with_extension volumed (query "BEEF" (multi_node ∷ [])))
        with_data
validate_volume_capabilities_ignores_example =
    validate_volume_capabilities_ignores platform controller volumed with_data
      (query "BEEF" (capability ∷ [])) (query "BEEF" (multi_node ∷ [])) refl refl refl

hash_resource_iff_run :
    (hash_resource platform "data" ≡ hash_resource platform "logs")
    ↔ (platform.hash "data" ≡ platform.hash "logs")
hash_resource_iff_run = hash_resource_iff platform "data" "logs" (omega arith) (omega arith)
