-- ===== src/System/Creating.antt =====
-- `create_volume` against the abstract view: the store of volumes that the state represents.
pub mod Steps
pub mod Cases
use rlvm.Base.{
  ℕ, ◌<◌, ◌≤◌, ◌≡◌, ◌≢◌, ◌⊎◌, refl, sym, ◌∙◌, ap, String, true, false, Option, none, some, inl, inr,
  arith, ltb, leb, ◌==◌, Bool-cases, Option-cases, [], ◌∷◌, ◌<>◌,
}
use rlvm.Csi.Controller.CreateVolume.{is_valid_request, requested_bytes}
use rlvm.Csi.Controller.CreateVolume.Accepted.{
  formatted, create_volume_new, create_volume_reformats, create_volume_conflict,
  create_volume_not_created,
}
use rlvm.Csi.Controller.CreateVolume.Refused.{create_volume_malformed, create_volume_out_of_range}
use rlvm.Csi.Controller.Handlers.{create_volume}
use rlvm.Csi.Controller.Parts.{
  Platform, RlvmController, process_volume, hash_resource, min_volume_size_bytes,
}
use rlvm.Csi.Spec.Controller.{CreateVolumeRequest, CreateVolumeResponse}
use rlvm.Lvm.{Lvm, LvmError, VolumeGroup}
use rlvm.Lvm.Laws.{IsLawful, Volume}
use rlvm.Rpc.{
  Status, Code, Outcome, Result, reply, fail, ok, err, with_extension, FailsWith, Outcome-cases,
}
use rlvm.System.Managed.{Managed}
use rlvm.System.Client.{client, client-get_free_bytes}
use rlvm.System.Views.{Answered, client-Answered, client-create, client-format}
use rlvm.Csi.Controller.CreateVolume.Lookup.{creation}
use rlvm.System.Store.{Store, Represents, IsSeparate, update}
use rlvm.Volumed.Server.{Config, Mkfs, free_bytes, to_message}
use rlvm.Volumed.Spec.{Empty, empty, LogicalVolume, Identifier, VolumeService}
use rlvm.System.Creating.Steps.{Refines}
use rlvm.System.Creating.Cases.{Refines-malformed, Refines-outside, Refines-within}

module _ {S : Type 0} (managed : Managed S) (apart : IsSeparate managed) (platform : Platform)
    (c : RlvmController) where
  open managed use {lvm, config, vg}

  abbrev volumed : VolumeService S
  volumed = client managed

  module _ (req : CreateVolumeRequest) (n : lvm.Name) (s : S) (before : Store managed)
      (named : lvm.name_of (hash_resource platform req.name) ≡ ok n)
      (shown : Represents managed s before) where
    -- Over a lawful lvm2_cmd whose calls for one name leave the others, each call of
    -- `create_volume` takes the state to one that represents a store as one of the six steps makes
    -- it, with the outcome of that step: the request is malformed, or out of the bounds, or conflicts
    -- with a volume of another capacity, which leaves the state; a volume is found, and formatted;
    -- one is made under the hashed name, where there was none, and formatted; or volumed does not
    -- make it. An error is that of the format or the creation, or of the first three. The state has
    -- to represent a store, and lvm2_cmd to take the hashed name.
    pub create_volume-Refines : Refines managed apart platform c req n s before
    create_volume-Refines = elim (Bool-cases (is_valid_request req)) [
      | inr bad ↦ Refines-malformed managed apart platform c req n s before named shown bad
      | inl valid ↦
          elim (Bool-cases (ltb (requested_bytes req.capacity_range) min_volume_size_bytes)) [
            | inl small ↦
                Refines-outside managed apart platform c req n s before named shown valid
                  (inl (ground arith))
            | inr big ↦
                elim (Bool-cases (
                  ltb (free_bytes config vg.capacity_bytes) (requested_bytes req.capacity_range))) [
                    | inl much ↦
                        Refines-outside managed apart platform c req n s before named shown valid
                          (inr (ground arith))
                    | inr fits ↦
                        Refines-within managed apart platform c req n s before named shown
                          (valid, ground arith, ground arith) (before n) refl
                  ]
          ]
    ]
