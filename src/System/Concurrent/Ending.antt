-- ===== src/System/Concurrent/Ending.antt =====
-- Requests that are served at the same time all come to their end.
use rlvm.Base.{ℕ, ◌-◌, ◌≤◌, ◌≡◌, refl, inl, inr, List, arith}
use rlvm.Csi.Controller.CreateVolume.Phases.{
  Phase, start, checked, missing, ready, done, advance, begin,
}
use rlvm.Csi.Controller.Parts.{Platform, RlvmController}
use rlvm.Csi.Spec.Controller.{CreateVolumeRequest, CreateVolumeResponse}
use rlvm.Rpc.{Status, Outcome, Outcome-cases}
use rlvm.System.Concurrent.{creation}
use rlvm.Interleaving.{World, count, serve, serve-left}
use rlvm.Volumed.Spec.{VolumeService}

-- The calls that a request may still make.
abbrev pub calls_left : Phase → ℕ
calls_left start = 4
calls_left (checked capacity) = 3
calls_left (missing capacity) = 2
calls_left (ready volume) = 1
calls_left (done r) = 0

pub calls_left-le : (p : Phase) → calls_left p ≤ 4
calls_left-le p = ground arith

pub ended :
    (p : Phase) → calls_left p ≡ 0 → (r : Outcome Status CreateVolumeResponse) × (p ≡ done r)
ended start h = absurd (omega arith)
ended (checked k) h = absurd (omega arith)
ended (missing k) h = absurd (omega arith)
ended (ready m) h = absurd (omega arith)
ended (done r) h = (r, refl)

module _ {S : Type 0} (platform : Platform) (c : RlvmController) (client : VolumeService S)
    (reqs : ℕ → CreateVolumeRequest) where
  pub advance-calls_left :
      (req : CreateVolumeRequest) (p : Phase) (s : S)
      → calls_left (advance platform c client req p s).0 ≤ calls_left p - 1
  unfolding advance
  advance-calls_left req start s = elim (Outcome-cases (begin platform c client req s)) [
    | inl (k, t, run) ↦ ground arith
    | inr (inl (e, t, run)) ↦ ground arith
    | inr (inr (t, run)) ↦ ground arith
  ]
  advance-calls_left req (checked k) s = ground arith
  advance-calls_left req (missing k) s = ground arith
  advance-calls_left req (ready m) s = ground arith
  advance-calls_left req (done r) s = omega arith

  -- Whatever the order in which requests to create volumes run, and whatever volumed answers: a
  -- request that has run four times has ended.
  pub concurrent-create_volume_ends :
      (is : List ℕ) (i : ℕ) (v : World S Phase)
      → 4 ≤ count i is
      → (r : Outcome Status CreateVolumeResponse) × ((serve
              (creation platform c client reqs)
              is
              v).tasks
            i
          ≡ done r)
  concurrent-create_volume_ends is i v often =
      ended ((serve (creation platform c client reqs) is v).tasks i) (
        omega (
          arith,
          serve-left (creation platform c client reqs) calls_left
              (λ i p s. advance-calls_left (reqs i) p s) is i v,
          calls_left-le (v.tasks i),
        ))
