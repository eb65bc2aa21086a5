-- ===== src/Csi/Identity/Probing.antt =====
-- What `probe` of crates/csi/src/identity.rs tells.
use rlvm.Base.{◌≡◌, some, none, true, arith}
use rlvm.Csi.Identity.{Verifier, succeeded, probe}
use rlvm.Mountd.Spec.{MountService}
use rlvm.Rpc.{Result, Status, reply}
use rlvm.Volumed.Spec.{empty, GetFreeBytesResponse, VolumeService}

-- The controller is ready exactly if volumed answers a call for the free bytes, and a failing
-- volumed makes the probe answer nothing instead of failing; the node is always ready, and asks
-- mountd nothing.
pub probe_answers :
    {S : Type 0} (volumed : VolumeService S) (mountd : MountService S)
    (r : Result Status GetFreeBytesResponse) (s t : S)
    → volumed.get_free_bytes empty s ≡ (r, t)
    → (probe Verifier.controller (record { volumed = some volumed; mountd = none }) s
        ≡ (reply (record { ready = succeeded r }), t))
      × (probe Verifier.node (record { volumed = none; mountd = some mountd }) s
          ≡ (reply (record { ready = some true }), s))
unfolding probe
probe_answers volumed mountd r s t answered = (ground arith, ground arith)
