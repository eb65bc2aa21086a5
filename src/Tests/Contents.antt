-- ===== src/Tests/Contents.antt =====
-- The list of volumes against the store, on a disk with one volume.
use rlvm.Base.{
  ◌≡◌, ◌↔◌, refl, sym, ◌∙◌, ap, none, some, [], ◌∷◌, List, String, inl, inr, arith, Bool-cases,
}
use rlvm.Base.Int.{pos}
use rlvm.Base.Number.{digits, upper_hex}
use rlvm.Base.Text
use rlvm.Csi.Controller.Handlers.{create_volume, list_volumes}
use rlvm.Csi.Controller.Parts.{find_or_create, process_volume}
use rlvm.Csi.Spec.Controller.{ListVolumesResponse, VolumeEntry}
use rlvm.Lvm.Laws.{Volume}
use rlvm.Lvm.Memory.{memory, the_group, volume, find}
use rlvm.Rpc.{ok, reply, with_extension}
use rlvm.System.Listing.{IsIn, IsListed, IsEntry, list_volumes-IsEntry, list_volumes-create_volume}
use rlvm.Tests.Fixtures.{
  managed, platform, controller, volumed, request, data_volume, with_data, gib,
}
use rlvm.Tests.Refinement.{no_volumes, no_volumes-Represents, one_volume, one_volume-Represents}
use rlvm.Tests.Separate.{memory-IsSeparate}
use rlvm.Volumed.Server.{
  get_free_bytes, create_logical_volume, format_logical_volume, get_logical_volume,
}
use text.Mathlib.TextEquality.{eq_iff}

abbrev only : List (Volume memory)
only = volume "BEEF" gib ∷ []

found_name :
    (n : String) (lv : Volume memory)
    → find n with_data ≡ ok lv
    → (n ≡ "BEEF") × (lv ≡ volume n gib)
found_name n lv h = elim (Bool-cases (Text.same_text "BEEF" n)) [
  | inl same ↦ (sym ((eq_iff "BEEF" n).0 same), ground arith)
  | inr other ↦ ground arith
]

only-listed :
    (lv : Volume memory)
    → (memory.find_lv "vg" lv.name with_data ≡ (ok lv, with_data)) ↔ IsIn lv only
only-listed lv = (
  λ h.
      let (name, whole) = found_name lv.name lv (ap (λ p. p.0) h) in
      inl (whole ∙ ap (λ n. volume n gib) name),
  λ h. elim h [
    | inl e ↦ ap (λ x. (find x.name with_data, with_data)) e ∙ ap (λ x. (ok x, with_data)) (sym e)
    | inr none_left ↦ absurd none_left
  ],
)

only-IsListed : IsListed memory the_group with_data only
only-IsListed = record { listed = refl; complete = only-listed; few = omega arith }

list_volumes-IsEntry_example :
    (page : ListVolumesResponse) × (list_volumes platform controller
        (with_extension volumed (record { max_entries = pos 0; starting_token = "" }))
        with_data
      ≡ (reply page, with_data))
    × ((e : VolumeEntry) → IsIn e page.entries ↔ IsEntry managed platform controller one_volume e)
list_volumes-IsEntry_example =
    list_volumes-IsEntry managed platform controller with_data one_volume only one_volume-Represents
      only-IsListed

list_volumes-create_volume_example :
    (page : ListVolumesResponse) × (list_volumes platform controller
        (with_extension volumed (record { max_entries = pos 0; starting_token = "" }))
        with_data
      ≡ (reply page, with_data))
    × IsIn
        (record { volume = some (process_volume controller data_volume); status = none })
        page.entries
unfolding create_volume find_or_create get_free_bytes get_logical_volume create_logical_volume
    format_logical_volume upper_hex digits
list_volumes-create_volume_example =
    list_volumes-create_volume managed platform controller memory-IsSeparate request "BEEF" []
      with_data no_volumes (record { volume = some (process_volume controller data_volume) }) only
      refl no_volumes-Represents refl only-IsListed
