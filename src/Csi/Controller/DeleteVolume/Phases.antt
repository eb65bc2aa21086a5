-- ===== src/Csi/Controller/DeleteVolume/Phases.antt =====
-- `delete_volume` of crates/csi/src/controller.rs cut at its `await` points: what one request does
-- between two calls of volumed.
use rlvm.Base.{ℕ, zero, suc, ◌≡◌, ⊤, some, arith}
use rlvm.Base.Text
use rlvm.Csi.Controller.Handlers.{delete_volume}
use rlvm.Csi.Controller.Parts.{Platform, RlvmController}
use rlvm.Csi.Spec.Controller.{DeleteVolumeRequest}
use rlvm.Rpc.{
  Status, invalid_argument, ok, err, Action, Outcome, reply, fail, panic, ◌>>=◌, ◌>>◌, pure, settle,
  forward, raise_if, with_extension,
}
use rlvm.Volumed.Spec.{LogicalVolume, Identifier, VolumeService}

-- Where a request stands: before the lookup, before the deletion of the volume that was found, and
-- at its end.
pub data DeletePhase : Type 0 where
  begun : DeletePhase
  holding : (volume : LogicalVolume) → DeletePhase
  ended : (r : Outcome Status ⊤) → DeletePhase

abbrev pub stop : {S : Type 0} → Outcome Status DeletePhase × S → DeletePhase × S
stop (reply phase, s) = (phase, s)
stop (fail e, s) = (ended (fail e), s)
stop (panic, s) = (ended panic, s)

module _ {S : Type 0} (client : VolumeService S) where
  abbrev pub find : DeleteVolumeRequest → Action S DeletePhase
  find req = do
    raise_if (Text.is_empty req.volume_id) (invalid_argument "missing required field `volume_id`")
    lv ←
        settle
          (client.get_logical_volume (record { identifier = some (Identifier.uuid req.volume_id) }))
    elim lv [ ok volume ↦ pure (holding volume) | err e ↦ pure (ended (reply tt)) ]

  abbrev pub remove : LogicalVolume → Action S ⊤
  remove volume = do forward (client.delete_logical_volume (record { name = volume.name })); pure tt

  -- From one `await` to the next. A request that has ended stays as it is.
  unfoldable pub advance_delete : DeleteVolumeRequest → DeletePhase → S → DeletePhase × S
  advance_delete req begun s = stop (find req s)
  advance_delete req (holding volume) s = (ended (remove volume s).0, (remove volume s).1)
  advance_delete req (ended r) s = (ended r, s)

  abbrev pub run : ℕ → DeleteVolumeRequest → DeletePhase → S → DeletePhase × S
  run zero req phase s = (phase, s)
  run (suc n) req phase s = let (next, t) = advance_delete req phase s in run n req next t

  -- A deletion that is not interleaved with other requests does what the handler does: its phases
  -- are the handler, cut into at most two parts.
  pub run-delete_volume :
      (platform : Platform) (c : RlvmController) (req : DeleteVolumeRequest) (s : S)
      → run 2 req begun s ≡ (
        ended (delete_volume platform c (with_extension client req) s).0,
        (delete_volume platform c (with_extension client req) s).1,
      )
  unfolding advance_delete delete_volume
  run-delete_volume platform c req s = ground arith
