-- ===== src/System/Mixed/Ending.antt =====
-- Requests to create and to delete volumes that are served at the same time all come to their end.
use rlvm.Base.{ℕ, ◌-◌, ◌≤◌, ◌≡◌, ⊤, some, inl, inr, List, arith, Bool-cases}
use rlvm.Base.Text
use rlvm.Csi.Controller.CreateVolume.Phases.{done}
use rlvm.Csi.Controller.DeleteVolume.Phases.{DeletePhase, begun, holding, ended, advance_delete}
use rlvm.Csi.Controller.Parts.{Platform, RlvmController}
use rlvm.Csi.Spec.Controller.{DeleteVolumeRequest}
use rlvm.Rpc.{Result-cases}
use rlvm.System.Concurrent.Ending.{calls_left, calls_left-le, advance-calls_left}
use rlvm.System.Mixed.{Task, creating, deleting, step_task, turn}
use rlvm.Interleaving.{World, count, serve, serve-left}
use rlvm.Volumed.Spec.{Identifier, VolumeService}

-- The parts that a request has still to run.
abbrev pub parts_left : Task → ℕ
parts_left (creating req phase) = calls_left phase
parts_left (deleting req begun) = 2
parts_left (deleting req (holding m)) = 1
parts_left (deleting req (ended r)) = 0

-- The request has its outcome.
abbrev pub HasEnded : Task → Type 0
HasEnded (creating req (done r)) = ⊤
HasEnded (deleting req (ended r)) = ⊤
HasEnded task = ⊥

parts_left-le : (task : Task) → parts_left task ≤ 4
parts_left-le (creating req phase) = calls_left-le phase
parts_left-le (deleting req begun) = omega arith
parts_left-le (deleting req (holding m)) = omega arith
parts_left-le (deleting req (ended r)) = omega arith

no_parts-HasEnded : (task : Task) → parts_left task ≡ 0 → HasEnded task
no_parts-HasEnded (creating req (done r)) h = tt
no_parts-HasEnded (creating req phase) h = absurd (omega arith)
no_parts-HasEnded (deleting req begun) h = absurd (omega arith)
no_parts-HasEnded (deleting req (holding m)) h = absurd (omega arith)
no_parts-HasEnded (deleting req (ended r)) h = tt

module _ {S : Type 0} (platform : Platform) (c : RlvmController) (client : VolumeService S) where
  advance_delete-parts_left :
      (req : DeleteVolumeRequest) (phase : DeletePhase) (s : S)
      → parts_left (deleting req (advance_delete client req phase s).0)
        ≤ parts_left (deleting req phase) - 1
  unfolding advance_delete
  advance_delete-parts_left req begun s = elim (Bool-cases (Text.is_empty req.volume_id)) [
    | inl unnamed ↦ ground arith
    | inr given ↦
        elim (Result-cases (
          client.get_logical_volume (record { identifier = some (Identifier.uuid req.volume_id) })
            s)) [ inl (m, t, seen) ↦ ground arith | inr (e, t, missing) ↦ ground arith ]
  ]
  advance_delete-parts_left req (holding m) s = omega arith
  advance_delete-parts_left req (ended r) s = omega arith

  step-parts_left :
      (task : Task) (s : S)
      → parts_left (step_task platform c client task s).0 ≤ parts_left task - 1
  step-parts_left (creating req phase) s =
      advance-calls_left platform c client (λ i. req) req phase s
  step-parts_left (deleting req phase) s = advance_delete-parts_left req phase s

  -- Whatever the order in which requests to create and to delete volumes run, and whatever volumed
  -- answers: a request that has run four times has ended.
  pub mixed_ends :
      (is : List ℕ) (i : ℕ) (v : World S Task)
      → 4 ≤ count i is
      → HasEnded ((serve (turn platform c client) is v).tasks i)
  mixed_ends is i v often = no_parts-HasEnded ((serve (turn platform c client) is v).tasks i) (
      omega (
        arith,
        serve-left (turn platform c client) parts_left (λ i task s. step-parts_left task s) is i v,
        parts_left-le (v.tasks i),
      ))
