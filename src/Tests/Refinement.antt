-- ===== src/Tests/Refinement.antt =====
-- The controller over volumed in memory, against the store of its volumes.
use rlvm.Base.{◌≡◌, ◌⊎◌, refl, Bool, true, false, none, some, [], ◌∷◌, List, String, if◌then◌else◌}
use rlvm.Base.Number.{digits, upper_hex}
use rlvm.Base.Text
use rlvm.Csi.Controller.Handlers.{create_volume}
use rlvm.Csi.Controller.Parts.{find_or_create, hash_resource}
use rlvm.Lvm.{LvmError}
use rlvm.Lvm.Memory.{memory, volume, find}
use rlvm.Rpc.{ok, err}
use rlvm.System.Calls.{ControllerCall, create}
use rlvm.System.Calls.History.{Creates, controller_no_stray, controller_keeps}
use rlvm.System.Creating.{create_volume-Refines}
use rlvm.System.Creating.Steps.{Refines}
use rlvm.System.Deleting.{DeleteRefines, delete_volume-DeleteRefines}
use rlvm.System.Store.{Store, Shows, Represents}
use rlvm.Tests.Fixtures.{managed, platform, controller, request, with_data, gib}
use rlvm.Tests.Separate.{memory-IsSeparate}
use rlvm.Volumed.Server.{
  get_free_bytes, create_logical_volume, format_logical_volume, get_logical_volume,
}

abbrev pub no_volumes : Store managed
no_volumes n = none

pub no_volumes-Represents : Represents managed [] no_volumes
no_volumes-Represents n = (err (LvmError.not_found n), refl, (n, refl))

create_volume-Refines_example :
    Refines managed memory-IsSeparate platform controller request "BEEF" [] no_volumes
unfolding upper_hex digits
create_volume-Refines_example =
    create_volume-Refines managed memory-IsSeparate platform controller request "BEEF" [] no_volumes
      refl no_volumes-Represents

-- The store of a disk with one volume.
abbrev pub one_volume : Store managed
one_volume n = if Text.same_text "BEEF" n then some (volume n gib) else none

one_volume-Shows :
    (b : Bool) (n : String)
    → Shows managed
        (if b then some (volume n gib) else none)
        (if b then ok (volume n gib) else err (LvmError.not_found n))
one_volume-Shows true n = refl
one_volume-Shows false n = (n, refl)

pub one_volume-Represents : Represents managed with_data one_volume
one_volume-Represents n = (find n with_data, refl, one_volume-Shows (Text.same_text "BEEF" n) n)

delete_volume-DeleteRefines_example :
    DeleteRefines managed memory-IsSeparate platform controller
      (record { volume_id = "BEEF"; secrets = [] })
      with_data
      one_volume
delete_volume-DeleteRefines_example =
    delete_volume-DeleteRefines managed memory-IsSeparate platform controller
      (record { volume_id = "BEEF"; secrets = [] }) with_data one_volume one_volume-Represents

-- The volume is made, and made again.
abbrev calls : List ControllerCall
calls = create request ∷ create request ∷ []

controller_no_stray_example :
    (memory.find_lv "vg" "BEEF" [] ≡ (ok (volume "BEEF" gib), []))
    ⊎ Creates managed memory-IsSeparate platform controller calls "BEEF"
unfolding create_volume find_or_create get_free_bytes get_logical_volume create_logical_volume
    format_logical_volume upper_hex digits
controller_no_stray_example =
    controller_no_stray managed memory-IsSeparate platform controller
      (λ name. (hash_resource platform name, refl)) calls [] no_volumes no_volumes-Represents "BEEF"
      (volume "BEEF" gib) refl

controller_keeps_example :
    memory.find_lv "vg" "BEEF" with_data ≡ (ok (volume "BEEF" gib), with_data)
unfolding create_volume find_or_create get_free_bytes get_logical_volume create_logical_volume
    format_logical_volume upper_hex digits
controller_keeps_example =
    controller_keeps managed memory-IsSeparate platform controller
      (λ name. (hash_resource platform name, refl)) calls with_data one_volume one_volume-Represents
      "BEEF" (volume "BEEF" gib) refl refl
