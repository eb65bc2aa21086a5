-- ===== src/System/Creating/Steps.antt =====
-- What a call of `create_volume` may do to the store of volumes, step by step.
use rlvm.Base.{◌<◌, ◌≤◌, ◌≡◌, ◌≢◌, ◌⊎◌, true, false, none, some}
use rlvm.Csi.Controller.CreateVolume.{is_valid_request, requested_bytes}
use rlvm.Csi.Controller.CreateVolume.Accepted.{formatted}
use rlvm.Csi.Controller.CreateVolume.Lookup.{creation}
use rlvm.Csi.Controller.Handlers.{create_volume}
use rlvm.Csi.Controller.Parts.{Platform, RlvmController, hash_resource, min_volume_size_bytes}
use rlvm.Csi.Spec.Controller.{CreateVolumeRequest, CreateVolumeResponse}
use rlvm.Lvm.Laws.{Volume}
use rlvm.Rpc.{Status, Code, Outcome, Result, ok, err, fail, with_extension}
use rlvm.System.Managed.{Managed}
use rlvm.System.Client.{client}
use rlvm.System.Store.{Store, Represents, IsSeparate, update}
use rlvm.Volumed.Server.{free_bytes, to_message}
use rlvm.Volumed.Spec.{Empty, VolumeService}

module _ {S : Type 0} (managed : Managed S) (apart : IsSeparate managed) (platform : Platform)
    (c : RlvmController) where
  open managed use {lvm, config, vg}

  abbrev volumed : VolumeService S
  volumed = client managed

  abbrev pub FailsAs : Code → Outcome Status CreateVolumeResponse → Type 0
  FailsAs code r = (e : Status) × (r ≡ fail e) × (e.code ≡ code)

  abbrev pub IsWithin : CreateVolumeRequest → Type 0
  IsWithin req =
      (is_valid_request req ≡ true)
      × (min_volume_size_bytes ≤ requested_bytes req.capacity_range)
      × (requested_bytes req.capacity_range ≤ free_bytes config vg.capacity_bytes)

  -- The end of a call that has a volume: its format in state `u`, and the answer.
  abbrev pub Formats :
      CreateVolumeRequest → Volume lvm → S → Outcome Status CreateVolumeResponse → S → Type 0
  Formats req lv u r t =
      (f : Result Status Empty) × (volumed.format_logical_volume
          (record { name = hash_resource platform req.name }) u
        ≡ (f, t))
      × (r ≡ formatted c (to_message lvm lv) f)

  -- What a call for the volume of name `n` in state `s` makes of the store, its outcome, and the
  -- state it leaves.
  pub data CreateStep (req : CreateVolumeRequest) (n : lvm.Name) (s : S)
      (before after : Store managed) (r : Outcome Status CreateVolumeResponse) (t : S)
      : Type 0 where
    malformed :
        is_valid_request req ≡ false
        → FailsAs Code.invalid_argument r
        → after ≡ before
        → t ≡ s
        → CreateStep req n s before after r t
    outside :
        is_valid_request req ≡ true
        → (requested_bytes req.capacity_range < min_volume_size_bytes)
          ⊎ (free_bytes config vg.capacity_bytes < requested_bytes req.capacity_range)
        → FailsAs Code.out_of_range r
        → after ≡ before
        → t ≡ s
        → CreateStep req n s before after r t
    conflict :
        (old : Volume lvm)
        → IsWithin req
        → before n ≡ some old
        → (to_message lvm old).capacity_bytes ≢ requested_bytes req.capacity_range
        → FailsAs Code.already_exists r
        → after ≡ before
        → t ≡ s
        → CreateStep req n s before after r t
    found :
        (old : Volume lvm)
        → IsWithin req
        → before n ≡ some old
        → (to_message lvm old).capacity_bytes ≡ requested_bytes req.capacity_range
        → Formats req old s r t
        → after ≡ before
        → CreateStep req n s before after r t
    made :
        (lv : Volume lvm) (u : S)
        → IsWithin req
        → before n ≡ none
        → lv.name ≡ n
        → volumed.create_logical_volume
            (creation req.name
              (hash_resource platform req.name)
              (requested_bytes req.capacity_range))
            s
          ≡ (ok (to_message lvm lv), u)
        → Formats req lv u r t
        → after ≡ update managed apart before n (some lv)
        → CreateStep req n s before after r t
    not_made :
        (e : Status)
        → IsWithin req
        → before n ≡ none
        → volumed.create_logical_volume
            (creation req.name
              (hash_resource platform req.name)
              (requested_bytes req.capacity_range))
            s
          ≡ (err e, t)
        → r ≡ fail e
        → after ≡ before
        → CreateStep req n s before after r t

  abbrev pub Refines : CreateVolumeRequest → lvm.Name → S → Store managed → Type 0
  Refines req n s before =
      (after : Store managed) × (r : Outcome Status CreateVolumeResponse) × (t : S) × (create_volume
          platform c (with_extension volumed req) s
        ≡ (r, t))
      × Represents managed t after
      × CreateStep req n s before after r t
