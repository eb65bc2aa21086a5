-- ===== src/Csi/Controller/CreateVolume/Accepted.antt =====
-- What `create_volume` does with a well-formed request that is within the bounds: the volume that
-- it finds or makes, and the format at the end.
use rlvm.Base.{◌≡◌, ◌≤◌, ◌≢◌, ℕ, true, some, [], ◌∷◌, ◌<>◌, arith}
use rlvm.Csi.Controller.CreateVolume.{
  is_valid_request, requested_bytes, capacity_of-requested_bytes,
}
use rlvm.Csi.Controller.Handlers.{create_volume}
use rlvm.Csi.Controller.Parts.{
  Platform, RlvmController, min_volume_size_bytes, hash_resource, process_volume, find_or_create,
}
use rlvm.Csi.Spec.Controller.{CreateVolumeRequest, CreateVolumeResponse}
use rlvm.Rpc.{Code, FailsWith, Result, Outcome, Status, ok, err, fail, reply, with_extension}
use rlvm.Volumed.Spec.{Empty, empty, LogicalVolume, Identifier, VolumeService}

-- The handler's last step: the volume is the answer if it could be formatted.
abbrev pub formatted :
    RlvmController → LogicalVolume → Result Status Empty → Outcome Status CreateVolumeResponse
formatted c lv (ok e) = reply (record { volume = some (process_volume c lv) })
formatted c lv (err e) = fail e

module _ {S : Type 0} (platform : Platform) (c : RlvmController) (client : VolumeService S)
    (req : CreateVolumeRequest) (total : ℕ) (s t : S) (valid : is_valid_request req ≡ true)
    (free : client.get_free_bytes empty s ≡ (ok (record { bytes_free = total }), t))
    (big : min_volume_size_bytes ≤ requested_bytes req.capacity_range)
    (small : requested_bytes req.capacity_range ≤ total) where
  -- On a well-formed request within the bounds, if volumed has no volume of the hashed name, and
  -- creates one under that name, with the requested capacity and a tag that keeps the original
  -- name, that volume is formatted, and is the answer if the format succeeds.
  pub create_volume_new :
      (missing : Status) (lv : LogicalVolume) (r : Result Status Empty) (u v w : S)
      → client.get_logical_volume
          (record { identifier = some (Identifier.name (hash_resource platform req.name)) })
          t
        ≡ (err missing, u)
      → missing.code ≡ Code.not_found
      → client.create_logical_volume
          (record {
            name = hash_resource platform req.name;
            capacity = requested_bytes req.capacity_range;
            tags = ("name=" <> req.name) ∷ [];
          })
          u
        ≡ (ok lv, v)
      → client.format_logical_volume (record { name = hash_resource platform req.name }) v ≡ (r, w)
      → create_volume platform c (with_extension client req) s ≡ (formatted c lv r, w)
  unfolding create_volume find_or_create
  create_volume_new missing lv r u v w lookup code created format =
      ground (arith, capacity_of-requested_bytes req.capacity_range s)

  -- On a well-formed request within the bounds, if the volume exists with the requested capacity it
  -- is formatted again, whatever is on it, and is the answer if the format succeeds.
  pub create_volume_reformats :
      (old : LogicalVolume) (r : Result Status Empty) (u w : S)
      → client.get_logical_volume
          (record { identifier = some (Identifier.name (hash_resource platform req.name)) })
          t
        ≡ (ok old, u)
      → old.capacity_bytes ≡ requested_bytes req.capacity_range
      → client.format_logical_volume (record { name = hash_resource platform req.name }) u ≡ (r, w)
      → create_volume platform c (with_extension client req) s ≡ (formatted c old r, w)
  unfolding create_volume find_or_create
  create_volume_reformats old r u w lookup same format =
      ground (arith, capacity_of-requested_bytes req.capacity_range s)

  -- On a well-formed request within the bounds, if the volume exists with another capacity the
  -- answer is that it already exists, and nothing has been created or formatted.
  pub create_volume_conflict :
      (old : LogicalVolume) (u : S)
      → client.get_logical_volume
          (record { identifier = some (Identifier.name (hash_resource platform req.name)) })
          t
        ≡ (ok old, u)
      → old.capacity_bytes ≢ requested_bytes req.capacity_range
      → let answer = create_volume platform c (with_extension client req) s in
        FailsWith Code.already_exists answer × (answer.1 ≡ u)
  unfolding create_volume find_or_create
  create_volume_conflict old u lookup differ =
      ground (arith, capacity_of-requested_bytes req.capacity_range s)

  -- If the volume is not there and cannot be created, the handler fails with the status of the
  -- creation.
  pub create_volume_not_created :
      (missing e : Status) (u v : S)
      → client.get_logical_volume
          (record { identifier = some (Identifier.name (hash_resource platform req.name)) })
          t
        ≡ (err missing, u)
      → missing.code ≡ Code.not_found
      → client.create_logical_volume
          (record {
            name = hash_resource platform req.name;
            capacity = requested_bytes req.capacity_range;
            tags = ("name=" <> req.name) ∷ [];
          })
          u
        ≡ (err e, v)
      → create_volume platform c (with_extension client req) s ≡ (fail e, v)
  unfolding create_volume find_or_create
  create_volume_not_created missing e u v lookup code failed =
      ground (arith, capacity_of-requested_bytes req.capacity_range s)

  -- If the volume cannot be looked up, for another reason than that it is not there, the handler
  -- fails with the status of the lookup, and nothing has been created or formatted.
  pub create_volume_lookup_error :
      (e : Status) (u : S)
      → client.get_logical_volume
          (record { identifier = some (Identifier.name (hash_resource platform req.name)) })
          t
        ≡ (err e, u)
      → e.code ≢ Code.not_found
      → create_volume platform c (with_extension client req) s ≡ (fail e, u)
  unfolding create_volume find_or_create
  create_volume_lookup_error e u lookup other =
      ground (arith, capacity_of-requested_bytes req.capacity_range s)
