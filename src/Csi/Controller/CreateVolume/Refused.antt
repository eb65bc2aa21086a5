-- ===== src/Csi/Controller/CreateVolume/Refused.antt =====
-- The requests that `create_volume` refuses, and what it has done by then.
use rlvm.Base.{ℕ, ◌≡◌, ◌<◌, ◌⊎◌, true, false, arith}
use rlvm.Csi.Controller.CreateVolume.{
  is_valid_request, requested_bytes, capacity_of-requested_bytes,
}
use rlvm.Csi.Controller.Handlers.{create_volume}
use rlvm.Csi.Controller.Parts.{Platform, RlvmController, min_volume_size_bytes}
use rlvm.Csi.Spec.Controller.{CreateVolumeRequest}
use rlvm.Rpc.{Code, FailsWith, ok, with_extension}
use rlvm.Volumed.Spec.{empty, VolumeService}

module _ {S : Type 0} (platform : Platform) (c : RlvmController) (client : VolumeService S)
    (req : CreateVolumeRequest) (s : S) where
  -- A request that is not well formed (no name, no capability, or a negative bound) is refused as
  -- an invalid argument before volumed is called.
  pub create_volume_malformed :
      is_valid_request req ≡ false
      → let answer = create_volume platform c (with_extension client req) s in
        FailsWith Code.invalid_argument answer × (answer.1 ≡ s)
  unfolding create_volume
  create_volume_malformed h = ground arith

  -- A well-formed request for less than the smallest size, or for more than volumed reports free,
  -- is out of range. Whether the volume exists already is not looked up, and volumed has been
  -- asked for the free bytes only.
  pub create_volume_out_of_range :
      (total : ℕ) (t : S)
      → is_valid_request req ≡ true
      → client.get_free_bytes empty s ≡ (ok (record { bytes_free = total }), t)
      → (requested_bytes req.capacity_range < min_volume_size_bytes)
        ⊎ (total < requested_bytes req.capacity_range)
      → let answer = create_volume platform c (with_extension client req) s in
        FailsWith Code.out_of_range answer × (answer.1 ≡ t)
  unfolding create_volume
  create_volume_out_of_range total t valid free outside =
      ground (arith, capacity_of-requested_bytes req.capacity_range s)
