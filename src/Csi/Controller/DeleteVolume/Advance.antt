-- ===== src/Csi/Controller/DeleteVolume/Advance.antt =====
-- What each part of `delete_volume` does, by the answer of its call.
use rlvm.Base.{◌≡◌, true, false, some, arith}
use rlvm.Base.Text
use rlvm.Csi.Controller.DeleteVolume.{deleted}
use rlvm.Csi.Controller.DeleteVolume.Phases.{begun, holding, ended, advance_delete}
use rlvm.Csi.Spec.Controller.{DeleteVolumeRequest}
use rlvm.Rpc.{Status, Result, ok, err, reply, fail, invalid_argument}
use rlvm.Volumed.Spec.{Empty, LogicalVolume, Identifier, VolumeService}

module _ {S : Type 0} (client : VolumeService S) (req : DeleteVolumeRequest) (s t : S) where
  pub advance_delete-unnamed :
      Text.is_empty req.volume_id ≡ true
      → advance_delete client req begun s
        ≡ (ended (fail (invalid_argument "missing required field `volume_id`")), s)
  unfolding advance_delete
  advance_delete-unnamed missing = ground arith

  pub advance_delete-not_found :
      (e : Status)
      → Text.is_empty req.volume_id ≡ false
      → client.get_logical_volume (record { identifier = some (Identifier.uuid req.volume_id) }) s
        ≡ (err e, t)
      → advance_delete client req begun s ≡ (ended (reply tt), t)
  unfolding advance_delete
  advance_delete-not_found e given lookup = ground arith

  pub advance_delete-found :
      (m : LogicalVolume)
      → Text.is_empty req.volume_id ≡ false
      → client.get_logical_volume (record { identifier = some (Identifier.uuid req.volume_id) }) s
        ≡ (ok m, t)
      → advance_delete client req begun s ≡ (holding m, t)
  unfolding advance_delete
  advance_delete-found m given lookup = ground arith

  pub advance_delete-deleted :
      (m : LogicalVolume) (a : Result Status Empty)
      → client.delete_logical_volume (record { name = m.name }) s ≡ (a, t)
      → advance_delete client req (holding m) s ≡ (ended (deleted a), t)
  unfolding advance_delete
  advance_delete-deleted m (ok done) run = ground arith
  advance_delete-deleted m (err e) run = ground arith
