-- ===== src/System/Concurrent.antt =====
-- Requests to create volumes that are served at the same time: the handlers of the controller are
-- interleaved at their calls of volumed.
pub mod Invariant
pub mod Safety
pub mod Ending
use rlvm.Base.{ℕ}
use rlvm.Csi.Controller.CreateVolume.Phases.{Phase, start, advance}
use rlvm.Csi.Controller.Parts.{Platform, RlvmController}
use rlvm.Csi.Spec.Controller.{CreateVolumeRequest}
use rlvm.Interleaving.{World}
use rlvm.Volumed.Spec.{VolumeService}

module _ {S : Type 0} (platform : Platform) (c : RlvmController) (client : VolumeService S)
    (reqs : ℕ → CreateVolumeRequest) where
  -- Request `i` runs up to its next call.
  abbrev pub creation : ℕ → Phase → S → Phase × S
  creation i phase s = advance platform c client (reqs i) phase s

  -- No request has begun. One that was never made stays at its start.
  abbrev pub beginning : S → World S Phase
  beginning s = record { state = s; tasks = λ i. start }
