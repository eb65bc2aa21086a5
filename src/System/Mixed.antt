-- ===== src/System/Mixed.antt =====
-- Requests to create and to delete volumes that are served at the same time: the handlers of the
-- controller are interleaved at their calls of volumed.
pub mod Stepped
pub mod Safety
pub mod Ending
pub mod Stale
use rlvm.Base.{ℕ, ⊤}
use rlvm.Csi.Controller.CreateVolume.Phases.{Phase, start, advance}
use rlvm.Csi.Controller.DeleteVolume.Phases.{DeletePhase, begun, advance_delete}
use rlvm.Csi.Controller.Parts.{Platform, RlvmController}
use rlvm.Csi.Spec.Controller.{CreateVolumeRequest, DeleteVolumeRequest}
use rlvm.Volumed.Spec.{VolumeService}

-- A request, and where it stands.
pub data Task : Type 0 where
  creating : CreateVolumeRequest → Phase → Task
  deleting : DeleteVolumeRequest → DeletePhase → Task

abbrev pub IsFresh : Task → Type 0
IsFresh (creating req start) = ⊤
IsFresh (deleting req begun) = ⊤
IsFresh task = ⊥

module _ {S : Type 0} (platform : Platform) (c : RlvmController) (client : VolumeService S) where
  -- One request runs up to its next call.
  abbrev pub step_task : Task → S → Task × S
  step_task (creating req phase) s =
      let (next, t) = advance platform c client req phase s in (creating req next, t)
  step_task (deleting req phase) s =
      let (next, t) = advance_delete client req phase s in (deleting req next, t)

  abbrev pub turn : ℕ → Task → S → Task × S
  turn i task s = step_task task s
