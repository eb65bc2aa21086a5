-- ===== src/System/Deleting.antt =====
-- `delete_volume` against the abstract view, on every branch.
use rlvm.Base.{◌≡◌, ◌⊎◌, refl, ⊤, String, true, false, none, some, inl, inr, arith, Bool-cases}
use rlvm.Base.Text
use rlvm.Csi.Controller.DeleteVolume.{delete_volume_found, delete_volume_lookup_error}
use rlvm.Csi.Controller.Handlers.{delete_volume}
use rlvm.Csi.Controller.Parts.{Platform, RlvmController}
use rlvm.Csi.Spec.Controller.{DeleteVolumeRequest}
use rlvm.Lvm.Laws.{Volume}
use rlvm.Rpc.{
  Status, Outcome, reply, fail, ok, err, invalid_argument, with_extension, Result-cases,
  pure_Result-cases,
}
use rlvm.System.Managed.{Managed}
use rlvm.System.Client.{client}
use rlvm.System.Store.{Store, Represents, IsSeparate, update}
use rlvm.System.Views.{client-delete}
use rlvm.Volumed.Server.{to_message, map_lvm_error, get_logical_volume}
use rlvm.Volumed.Spec.{empty, Identifier, VolumeService}

module _ {S : Type 0} (managed : Managed S) (apart : IsSeparate managed) (platform : Platform)
    (c : RlvmController) where
  open managed use {lvm, laws, stable}

  abbrev volumed : VolumeService S
  volumed = client managed

  -- What a call makes of the store, and its outcome.
  pub data DeleteStep (req : DeleteVolumeRequest) (s : S) (before after : Store managed)
      (r : Outcome Status ⊤) (t : S) : Type 0 where
    no_id :
        Text.is_empty req.volume_id ≡ true
        → r ≡ fail (invalid_argument "missing required field `volume_id`")
        → after ≡ before
        → t ≡ s
        → DeleteStep req s before after r t
    unknown :
        (e : Status)
        → Text.is_empty req.volume_id ≡ false
        → volumed.get_logical_volume
            (record { identifier = some (Identifier.uuid req.volume_id) })
            s
          ≡ (err e, s)
        → r ≡ reply tt
        → after ≡ before
        → t ≡ s
        → DeleteStep req s before after r t
    removed :
        (u : lvm.Uuid) (lv : Volume lvm)
        → Text.is_empty req.volume_id ≡ false
        → lvm.uuid_of req.volume_id ≡ ok u
        → lvm.find_lv_by_uuid u s ≡ (ok lv, s)
        → volumed.delete_logical_volume (record { name = lvm.show_name lv.name }) s ≡ (ok empty, t)
        → r ≡ reply tt
        → after ≡ update managed apart before lv.name none
        → DeleteStep req s before after r t
    not_removed :
        (u : lvm.Uuid) (lv : Volume lvm) (e : Status)
        → Text.is_empty req.volume_id ≡ false
        → lvm.uuid_of req.volume_id ≡ ok u
        → lvm.find_lv_by_uuid u s ≡ (ok lv, s)
        → volumed.delete_logical_volume (record { name = lvm.show_name lv.name }) s ≡ (err e, t)
        → r ≡ fail e
        → after ≡ before
        → DeleteStep req s before after r t

  abbrev pub DeleteRefines : DeleteVolumeRequest → S → Store managed → Type 0
  DeleteRefines req s before =
      (after : Store managed) × (r : Outcome Status ⊤) × (t : S) × (delete_volume platform c
          (with_extension volumed req) s
        ≡ (r, t))
      × Represents managed t after
      × DeleteStep req s before after r t

  pub by_uuid :
      (id : String) (s : S)
      → ((e : Status) × (volumed.get_logical_volume
              (record { identifier = some (Identifier.uuid id) })
              s
            ≡ (err e, s)))
        ⊎ ((u : lvm.Uuid) × (lv : Volume lvm) × (lvm.uuid_of id ≡ ok u)
            × (lvm.find_lv_by_uuid u s ≡ (ok lv, s))
            × (volumed.get_logical_volume (record { identifier = some (Identifier.uuid id) }) s
                ≡ (ok (to_message lvm lv), s)))
  unfolding get_logical_volume
  by_uuid id s = elim (pure_Result-cases (lvm.uuid_of id)) [
    | inr (e, bad) ↦ inl (invalid_argument e, ground (arith, stable.group s))
    | inl (u, read) ↦ elim (Result-cases (lvm.find_lv_by_uuid u s)) [
      | inr (e, t, missing) ↦
          inl (map_lvm_error e, ground (arith, stable.group s, apart.find_lv_by_uuid_state u s))
      | inl (lv, t, found) ↦
          let same : t ≡ s = ground (arith, apart.find_lv_by_uuid_state u s) in
          inr (u, lv, read, ground arith, ground (arith, stable.group s))
    ]
  ]

  no_id_lem :
      (req : DeleteVolumeRequest) (s : S)
      → Text.is_empty req.volume_id ≡ true
      → delete_volume platform c (with_extension volumed req) s
        ≡ (fail (invalid_argument "missing required field `volume_id`"), s)
  unfolding delete_volume
  no_id_lem req s h = ground arith

  -- Over a lawful lvm2_cmd whose calls for one name leave the others, from a state that represents a
  -- store, each call of `delete_volume` takes the state to one that represents a store as one of the four steps makes it, with the
  -- outcome of that step: a call takes at most one name out of the store, that of the volume which
  -- the identifier finds in any group, and a call that fails takes out none.
  pub delete_volume-DeleteRefines :
      (req : DeleteVolumeRequest) (s : S) (before : Store managed)
      → Represents managed s before
      → DeleteRefines req s before
  delete_volume-DeleteRefines req s before shown = elim (Bool-cases (Text.is_empty req.volume_id)) [
    | inl missing ↦
        (before, _, s, no_id_lem req s missing, shown, DeleteStep.no_id missing refl refl refl)
    | inr given ↦ elim (by_uuid req.volume_id s) [
      | inl (e, lookup) ↦ (
        before,
        reply tt,
        s,
        delete_volume_lookup_error platform c volumed s req e s given lookup,
        shown,
        unknown e given lookup refl refl refl,
      )
      | inr (u, lv, read, found, lookup) ↦
          elim (client-delete managed apart (lvm.show_name lv.name) lv.name s before
            (laws.name_of-show_name lv.name) shown) [
              | inl (t, run, gone) ↦ (
                update managed apart before lv.name none,
                reply tt,
                t,
                delete_volume_found platform c volumed s req (to_message lvm lv) (ok empty) s t
                    given lookup run,
                gone,
                removed u lv given read found run refl refl,
              )
              | inr (e, t, run, kept) ↦ (
                before,
                fail e,
                t,
                delete_volume_found platform c volumed s req (to_message lvm lv) (err e) s t given
                    lookup run,
                kept,
                not_removed u lv e given read found run refl refl,
              )
            ]
    ]
  ]
