-- ===== src/Tests/Lifecycle.antt =====
-- The life of a volume, over volumed in memory.
use rlvm.Base.{◌≡◌, refl, some, []}
use rlvm.Base.Number.{digits, upper_hex}
use rlvm.Csi.Controller.Handlers.{create_volume, delete_volume}
use rlvm.Csi.Controller.Parts.{hash_resource, process_volume, find_or_create}
use rlvm.Lvm.Memory.{memory, memory-IsLawful, the_group}
use rlvm.Rpc.{Code, FailsWith, Status, ok, err, reply, with_extension}
use rlvm.System.Volumes.{delete_volume-create_volume, create_volume_twice}
use rlvm.Tests.Fixtures.{managed, platform, controller, volumed, request, data_volume, with_data}
use rlvm.Volumed.Server.{
  get_free_bytes, create_logical_volume, delete_logical_volume, format_logical_volume,
  get_logical_volume,
}
use rlvm.Volumed.Server.Volumes.{get-create, get-delete}
use rlvm.Volumed.Spec.{empty, Identifier, CreateLvRequest}

created :
    create_volume platform controller (with_extension volumed request) []
    ≡ (reply (record { volume = some (process_volume controller data_volume) }), with_data)
unfolding create_volume find_or_create get_free_bytes get_logical_volume create_logical_volume
    format_logical_volume upper_hex digits
created = refl

delete_volume-create_volume_example :
    (missing : Status) × (volumed.get_logical_volume
        (record { identifier = some (Identifier.name (hash_resource platform request.name)) })
        []
      ≡ (err missing, []))
    × (missing.code ≡ Code.not_found)
unfolding delete_volume get_logical_volume delete_logical_volume
delete_volume-create_volume_example =
    delete_volume-create_volume managed platform controller request []
      (process_volume controller data_volume) [] with_data [] created refl refl

create_volume_twice_example :
    create_volume platform controller (with_extension volumed request) with_data
    ≡ (reply (record { volume = some (process_volume controller data_volume) }), with_data)
unfolding get_logical_volume format_logical_volume upper_hex digits
create_volume_twice_example =
    create_volume_twice managed platform controller request
      (record { volume = some (process_volume controller data_volume) }) data_volume empty []
      with_data with_data created refl refl refl

abbrev new_volume : CreateLvRequest
new_volume = record { name = "BEEF"; capacity = 1_073_741_824; tags = [] }

get-create_run :
    (get_logical_volume memory
        (with_extension the_group (record { identifier = some (Identifier.name "BEEF") }))
        with_data
      ≡ (reply data_volume, with_data))
    × (get_logical_volume memory
          (with_extension the_group (record { identifier = some (Identifier.uuid "BEEF") }))
          with_data
        ≡ (reply data_volume, with_data))
    × (n : memory.Name) × (memory.name_of "BEEF" ≡ ok n)
    × (data_volume.name ≡ memory.show_name n)
unfolding create_logical_volume
get-create_run =
    get-create memory memory-IsLawful the_group new_volume [] with_data data_volume refl

get-delete_run :
    let answer =
      get_logical_volume memory
        (with_extension the_group (record { identifier = some (Identifier.name "BEEF") }))
        [] in
    FailsWith Code.not_found answer × (answer.1 ≡ [])
unfolding delete_logical_volume
get-delete_run =
    get-delete memory memory-IsLawful the_group (record { name = "BEEF" }) with_data [] refl
