-- ===== src/Csi/Controller/DeleteVolume.antt =====
-- What `delete_volume` and `validate_volume_capabilities` of crates/csi/src/controller.rs do with
-- the volume that they look up.
pub mod Phases
pub mod Advance
use rlvm.Base.{inl, inr, ◌≡◌, true, false, ⊤, some, is_empty, arith}
use rlvm.Base.Text
use rlvm.Csi.Controller.Handlers.{delete_volume, validate_volume_capabilities}
use rlvm.Csi.Controller.Parts.{Platform, RlvmController}
use rlvm.Csi.Spec.Controller.{DeleteVolumeRequest, ValidateVolumeCapabilitiesRequest}
use rlvm.Rpc.{
  Result-cases, Code, FailsWith, Result, Outcome, Status, ok, err, reply, fail, with_extension,
}
use rlvm.Volumed.Spec.{Empty, LogicalVolume, Identifier, VolumeService}

-- The handler's last step: the status of the deletion is passed on.
abbrev pub deleted : Result Status Empty → Outcome Status ⊤
deleted (ok e) = reply tt
deleted (err e) = fail e

module _ {S : Type 0} (platform : Platform) (c : RlvmController) (client : VolumeService S)
    (s : S) where
  -- Without an identifier both handlers fail as on an invalid argument, and do nothing.
  pub missing_volume_id :
      (req : DeleteVolumeRequest) (query : ValidateVolumeCapabilitiesRequest)
      → Text.is_empty req.volume_id ≡ true
      → Text.is_empty query.volume_id ≡ true
      → FailsWith Code.invalid_argument (delete_volume platform c (with_extension client req) s)
        × ((delete_volume platform c (with_extension client req) s).1 ≡ s)
        × FailsWith Code.invalid_argument
            (validate_volume_capabilities platform c (with_extension client query) s)
        × ((validate_volume_capabilities platform c (with_extension client query) s).1 ≡ s)
  unfolding delete_volume validate_volume_capabilities
  missing_volume_id req query e f = (ground arith, ground arith, ground arith, ground arith)

  -- A volume that the identifier, if not empty, finds is deleted by its name, and the status of the
  -- deletion is the answer.
  pub delete_volume_found :
      (req : DeleteVolumeRequest) (lv : LogicalVolume) (r : Result Status Empty) (t u : S)
      → Text.is_empty req.volume_id ≡ false
      → client.get_logical_volume (record { identifier = some (Identifier.uuid req.volume_id) }) s
        ≡ (ok lv, t)
      → client.delete_logical_volume (record { name = lv.name }) t ≡ (r, u)
      → delete_volume platform c (with_extension client req) s ≡ (deleted r, u)
  unfolding delete_volume
  delete_volume_found req lv r t u given lookup deletion = ground arith

  -- If the lookup of an identifier that is not empty fails, for whatever reason, the answer is
  -- success, and nothing has been deleted.
  pub delete_volume_lookup_error :
      (req : DeleteVolumeRequest) (e : Status) (t : S)
      → Text.is_empty req.volume_id ≡ false
      → client.get_logical_volume (record { identifier = some (Identifier.uuid req.volume_id) }) s
        ≡ (err e, t)
      → delete_volume platform c (with_extension client req) s ≡ (reply tt, t)
  unfolding delete_volume
  delete_volume_lookup_error req e t given lookup = ground arith

  -- Which capabilities are asked about does not count: two requests that name the same volume and
  -- each at least one capability have the same answer.
  pub validate_volume_capabilities_ignores :
      (req other : ValidateVolumeCapabilitiesRequest)
      → req.volume_id ≡ other.volume_id
      → is_empty req.volume_capabilities ≡ false
      → is_empty other.volume_capabilities ≡ false
      → validate_volume_capabilities platform c (with_extension client req) s
        ≡ validate_volume_capabilities platform c (with_extension client other) s
  unfolding validate_volume_capabilities
  validate_volume_capabilities_ignores req other same caps other_caps = ground arith

  -- Every error of the lookup is answered as not found.
  pub validate_volume_capabilities_lookup_error :
      (req : ValidateVolumeCapabilitiesRequest) (e : Status) (t : S)
      → Text.is_empty req.volume_id ≡ false
      → is_empty req.volume_capabilities ≡ false
      → client.get_logical_volume (record { identifier = some (Identifier.uuid req.volume_id) }) s
        ≡ (err e, t)
      → FailsWith Code.not_found
          (validate_volume_capabilities platform c (with_extension client req) s)
  unfolding validate_volume_capabilities
  validate_volume_capabilities_lookup_error req e t given caps lookup = ground arith

  -- A successful deletion of a volume that was found has deleted it in volumed.
  pub delete_volume_reply :
      (req : DeleteVolumeRequest) (lv : LogicalVolume) (t u : S)
      → Text.is_empty req.volume_id ≡ false
      → client.get_logical_volume (record { identifier = some (Identifier.uuid req.volume_id) }) s
        ≡ (ok lv, t)
      → delete_volume platform c (with_extension client req) s ≡ (reply tt, u)
      → (e : Empty) × (client.delete_logical_volume (record { name = lv.name }) t ≡ (ok e, u))
  unfolding delete_volume
  delete_volume_reply req lv t u given lookup h =
      elim (Result-cases (client.delete_logical_volume (record { name = lv.name }) t)) [
        | inl (e, v, done) ↦ (e, ground arith)
        | inr (e, v, failed) ↦ ground arith
      ]
