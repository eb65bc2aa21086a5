-- ===== src/System/Creating/Cases.antt =====
-- The branches of `create_volume` against the steps of the store.
use rlvm.Base.{
  ◌<◌, ◌≡◌, ◌⊎◌, refl, ◌∙◌, ap, true, false, Option, none, some, inl, inr, arith, ◌==◌, Bool-cases,
}
use rlvm.Csi.Controller.CreateVolume.{is_valid_request, requested_bytes}
use rlvm.Csi.Controller.CreateVolume.Accepted.{
  formatted, create_volume_new, create_volume_reformats, create_volume_conflict,
  create_volume_not_created,
}
use rlvm.Csi.Controller.CreateVolume.Refused.{create_volume_malformed, create_volume_out_of_range}
use rlvm.Csi.Controller.Handlers.{create_volume}
use rlvm.Csi.Controller.Parts.{Platform, RlvmController, hash_resource, min_volume_size_bytes}
use rlvm.Csi.Spec.Controller.{CreateVolumeRequest}
use rlvm.Lvm.Laws.{Volume}
use rlvm.Rpc.{Status, Code, Result, fail, ok, err, with_extension, FailsWith, Outcome-cases}
use rlvm.System.Managed.{Managed}
use rlvm.System.Client.{client, client-get_free_bytes}
use rlvm.System.Views.{Answered, client-Answered, client-create, client-format}
use rlvm.Csi.Controller.CreateVolume.Lookup.{creation}
use rlvm.System.Store.{Store, Represents, IsSeparate, update}
use rlvm.Volumed.Server.{free_bytes, to_message}
use rlvm.Volumed.Spec.{empty, LogicalVolume, Identifier, VolumeService}
use rlvm.System.Creating.Steps.{
  Refines, IsWithin, malformed, outside, conflict, found, made, not_made,
}

module _ {S : Type 0} (managed : Managed S) (apart : IsSeparate managed) (platform : Platform)
    (c : RlvmController) where
  open managed use {lvm, config, vg}

  abbrev volumed : VolumeService S
  volumed = client managed

  module _ (req : CreateVolumeRequest) (n : lvm.Name) (s : S) (before : Store managed)
      (named : lvm.name_of (hash_resource platform req.name) ≡ ok n)
      (shown : Represents managed s before) where
    -- A failure that leaves the state.
    refused :
        (code : Code)
        → FailsWith code (create_volume platform c (with_extension volumed req) s)
        → (create_volume platform c (with_extension volumed req) s).1 ≡ s
        → (e : Status) × (create_volume platform c (with_extension volumed req) s ≡ (fail e, s))
          × (e.code ≡ code)
    refused code failed same =
        elim (Outcome-cases (create_volume platform c (with_extension volumed req) s)) [
          | inl (a, t, run) ↦ ground arith
          | inr (inl (e, t, run)) ↦ (e, ground arith, ground arith)
          | inr (inr (t, run)) ↦ ground arith
        ]

    pub Refines-malformed :
        is_valid_request req ≡ false → Refines managed apart platform c req n s before
    Refines-malformed bad =
        let (failed, same) = create_volume_malformed platform c volumed req s bad in
        let (e, run, code) = refused Code.invalid_argument failed same in
        (before, fail e, s, run, shown, malformed bad (e, refl, code) refl refl)

    pub Refines-outside :
        is_valid_request req ≡ true
        → (requested_bytes req.capacity_range < min_volume_size_bytes)
          ⊎ (free_bytes config vg.capacity_bytes < requested_bytes req.capacity_range)
        → Refines managed apart platform c req n s before
    Refines-outside valid range =
        let (failed, same) =
          create_volume_out_of_range platform c volumed req s (free_bytes config vg.capacity_bytes)
            s valid (client-get_free_bytes managed s) range in
        let (e, run, code) = refused Code.out_of_range failed same in
        (before, fail e, s, run, shown, outside valid range (e, refl, code) refl refl)

    module _ (within : IsWithin managed apart platform c req) where
      free :
          volumed.get_free_bytes empty s
          ≡ (ok (record { bytes_free = free_bytes config vg.capacity_bytes }), s)
      free = client-get_free_bytes managed s

      -- The name is taken: the volume's capacity decides.
      Refines-taken :
          (old : Volume lvm) (a : Result Status LogicalVolume)
          → before n ≡ some old
          → volumed.get_logical_volume
              (record { identifier = some (Identifier.name (hash_resource platform req.name)) })
              s
            ≡ (a, s)
          → a ≡ ok (to_message lvm old)
          → Refines managed apart platform c req n s before
      Refines-taken old a has lookup answer =
          elim (Bool-cases
            ((to_message lvm old).capacity_bytes == requested_bytes req.capacity_range)) [
              | inr differ ↦
                  let (failed, same) =
                    create_volume_conflict platform c volumed req
                      (free_bytes config vg.capacity_bytes) s s within.0 free within.1 within.2
                      (to_message lvm old) s (lookup ∙ ap (λ x. (x, s)) answer)
                      (λ e. ground arith) in
                  let (e, run, code) = refused Code.already_exists failed same in
                  (
                    before,
                    fail e,
                    s,
                    run,
                    shown,
                    conflict old within has (λ e. ground arith) (e, refl, code) refl refl,
                  )
              | inl equal ↦
                  let (f, t, format, kept) =
                    client-format managed apart (hash_resource platform req.name) n s before named
                      shown in
                  (
                    before,
                    formatted c (to_message lvm old) f,
                    t,
                    create_volume_reformats platform c volumed req
                        (free_bytes config vg.capacity_bytes) s s within.0 free within.1 within.2
                        (to_message lvm old) f s t (lookup ∙ ap (λ x. (x, s)) answer) (ground arith)
                        format,
                    kept,
                    found old within has (ground arith) (f, format, refl) refl,
                  )
            ]

      -- The name is free: a volume is made and formatted, or the creation fails.
      Refines-free :
          (missing : Status)
          → before n ≡ none
          → volumed.get_logical_volume
              (record { identifier = some (Identifier.name (hash_resource platform req.name)) })
              s
            ≡ (err missing, s)
          → missing.code ≡ Code.not_found
          → Refines managed apart platform c req n s before
      Refines-free missing none_there lookup code =
          elim (client-create managed apart
            (creation req.name (hash_resource platform req.name)
              (requested_bytes req.capacity_range))
            n s before named shown) [
              | inl (lv, u, run, name, was_free, kept) ↦
                  let after = update managed apart before n (some lv) in
                  let (f, t, format, shown') =
                    client-format managed apart (hash_resource platform req.name) n u after named
                      kept in
                  (
                    after,
                    formatted c (to_message lvm lv) f,
                    t,
                    create_volume_new platform c volumed req (free_bytes config vg.capacity_bytes) s
                        s within.0 free within.1 within.2 missing (to_message lvm lv) f s u t lookup
                        code run format,
                    shown',
                    made lv u within none_there name run (f, format, refl) refl,
                  )
              | inr (e, u, run, kept) ↦ (
                before,
                fail e,
                u,
                create_volume_not_created platform c volumed req
                    (free_bytes config vg.capacity_bytes) s s within.0 free within.1 within.2
                    missing e s u lookup code run,
                kept,
                not_made e within none_there run refl refl,
              )
            ]

      pub Refines-within :
          (v : Option (Volume lvm)) → before n ≡ v → Refines managed apart platform c req n s before
      Refines-within none e =
          let (a, lookup, answers) =
            client-Answered managed apart (hash_resource platform req.name) n s before named
              shown in
          let answered : Answered lvm none a = rw e at answers in
          let (x, is_err, code) = answered in
          Refines-free x e (lookup ∙ ap (λ y. (y, s)) is_err) code
      Refines-within (some old) e =
          let (a, lookup, answers) =
            client-Answered managed apart (hash_resource platform req.name) n s before named
              shown in
          Refines-taken old a e lookup (rw e at answers)
