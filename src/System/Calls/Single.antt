-- ===== src/System/Calls/Single.antt =====
-- One call of the controller against the abstract view: what comes into the store, and what stays.
use rlvm.Base.{◌≡◌, ◌⊎◌, sym, ap, ◌∙◌, ⊤, String, false, none, some, inl, inr, arith, Bool-cases}
use mathlib.Core.Path.{subst}
use rlvm.Csi.Controller.Parts.{Platform, RlvmController, hash_resource}
use rlvm.Csi.Controller.Reading.{
  list_volumes_state, get_capacity_state, validate_volume_capabilities_state,
}
use rlvm.Csi.Spec.Controller.{CreateVolumeRequest, CreateVolumeResponse, DeleteVolumeRequest}
use rlvm.Lvm.Laws.{Volume}
use rlvm.Rpc.{Status, Outcome, ok}
use rlvm.System.Calls.{
  ControllerCall, create, delete, list, capacity, validate, after_call, is_delete,
}
use rlvm.System.Managed.{Managed}
use rlvm.System.Client.{client, client-get_free_bytes}
use rlvm.System.Creating.{create_volume-Refines}
use rlvm.System.Creating.Steps.{CreateStep, malformed, outside, conflict, found, made, not_made}
use rlvm.System.Deleting.{
  DeleteStep, no_id, unknown, removed, not_removed, delete_volume-DeleteRefines, by_uuid,
}
use rlvm.System.Store.{Store, Represents, IsSeparate, update}
use rlvm.Volumed.Server.{get_lv_list}
use rlvm.Volumed.Spec.{empty, Identifier, VolumeService}

module _ {S : Type 0} (managed : Managed S) (apart : IsSeparate managed) (platform : Platform)
    (c : RlvmController) where
  open managed use {lvm, stable}

  abbrev volumed : VolumeService S
  volumed = client managed

  -- The call is to create the volume of that name.
  abbrev pub CreatesAt : ControllerCall → lvm.Name → Type 0
  CreatesAt (create req) n = lvm.name_of (hash_resource platform req.name) ≡ ok n
  CreatesAt call n = ⊥

  abbrev pub Stays : Store managed → Store managed → Type 0
  Stays before after = (n : lvm.Name) (lv : Volume lvm) → before n ≡ some lv → after n ≡ some lv

  -- A call leaves the store, or makes a volume under a name that was free.
  CreateStep-changes :
      (req : CreateVolumeRequest) (n : lvm.Name) (s : S) (before after : Store managed)
      (r : Outcome Status CreateVolumeResponse) (t : S)
      → CreateStep managed apart platform c req n s before after r t
      → (after ≡ before)
        ⊎ ((lv : Volume lvm) × (before n ≡ none)
            × (after ≡ update managed apart before n (some lv)))
  CreateStep-changes req n s before after r t (malformed bad failed e same) = inl e
  CreateStep-changes req n s before after r t (outside valid range failed e same) = inl e
  CreateStep-changes req n s before after r t (conflict old within has differ failed e same) = inl e
  CreateStep-changes req n s before after r t (found old within has equal answers e) = inl e
  CreateStep-changes req n s before after r t (not_made x within free run failed e) = inl e
  CreateStep-changes req n s before after r t (made lv u within free name run answers e) =
      inr (lv, free, e)

  -- A call leaves the store, or takes a name out of it.
  DeleteStep-changes :
      (req : DeleteVolumeRequest) (s : S) (before after : Store managed) (r : Outcome Status ⊤)
      (t : S)
      → DeleteStep managed apart platform c req s before after r t
      → (after ≡ before) ⊎ ((n : lvm.Name) × (after ≡ update managed apart before n none))
  DeleteStep-changes req s before after r t (no_id missing failed e same) = inl e
  DeleteStep-changes req s before after r t (unknown x given lookup failed e same) = inl e
  DeleteStep-changes req s before after r t (not_removed u lv x given read seen run failed e) =
      inl e
  DeleteStep-changes req s before after r t (removed u lv given read seen run done e) =
      inr (lv.name, e)

  -- One call: what comes, and what stays unless it is a deletion.
  abbrev pub OneCall : ControllerCall → S → Store managed → Type 0
  OneCall call s before =
      (after : Store managed) × Represents managed (after_call platform c volumed call s) after
      × ((n : lvm.Name) (lv : Volume lvm)
          → after n ≡ some lv
          → (before n ≡ some lv) ⊎ CreatesAt call n)
      × (is_delete call ≡ false → Stays before after)

  OneCall-create :
      (req : CreateVolumeRequest) (n : lvm.Name) (s : S) (before : Store managed)
      → lvm.name_of (hash_resource platform req.name) ≡ ok n
      → Represents managed s before
      → OneCall (create req) s before
  OneCall-create req n s before named shown =
      let (after, r, t, run, shown', step) =
        create_volume-Refines managed apart platform c req n s before named shown in
      let end = subst (λ u. Represents managed u after) (sym (ap (λ x. x.1) run)) shown' in
      elim (CreateStep-changes req n s before after r t step) [
        | inl e ↦ (
          after,
          end,
          (λ k lv h. inl (ap (λ f. f k) (sym e) ∙ h)),
          (λ _ k lv h. ap (λ f. f k) e ∙ h),
        )
        | inr (m, free, e) ↦ (
          after,
          end,
          (λ k lv h. elim (Bool-cases (apart.same k n)) [
            | inl same ↦ inr (named ∙ ap ok (sym ((apart.same_iff k n).0 same)))
            | inr other ↦ inl (ground (arith, ap (λ f. f k) e))
          ]),
          (λ _ k lv h. elim (Bool-cases (apart.same k n)) [
            | inl same ↦ ground (arith, ap before ((apart.same_iff k n).0 same))
            | inr other ↦ ground (arith, ap (λ f. f k) e)
          ]),
        )
      ]

  OneCall-delete :
      (req : DeleteVolumeRequest) (s : S) (before : Store managed)
      → Represents managed s before
      → OneCall (delete req) s before
  OneCall-delete req s before shown =
      let (after, r, t, run, shown', step) =
        delete_volume-DeleteRefines managed apart platform c req s before shown in
      let end = subst (λ u. Represents managed u after) (sym (ap (λ x. x.1) run)) shown' in
      elim (DeleteStep-changes req s before after r t step) [
        | inl e ↦ (after, end, (λ k lv h. inl (ap (λ f. f k) (sym e) ∙ h)), (λ h. ground arith))
        | inr (n, e) ↦
            (after, end, (λ k lv h. inl (ground (arith, ap (λ f. f k) e))), (λ h. ground arith))
      ]

  -- A call that only reads.
  OneCall-read :
      (call : ControllerCall) (s : S) (before : Store managed)
      → after_call platform c volumed call s ≡ s
      → Represents managed s before
      → OneCall call s before
  OneCall-read call s before same shown = (
    before,
    subst (λ u. Represents managed u before) (sym same) shown,
    (λ k lv h. inl h),
    (λ _ k lv h. h),
  )

  lv_list_state : (s : S) → (volumed.get_lv_list empty s).1 ≡ s
  unfolding get_lv_list
  lv_list_state s = ground (arith, stable.group s, apart.list_lvs_state s)

  by_uuid_state :
      (id : String) (s : S)
      → (volumed.get_logical_volume (record { identifier = some (Identifier.uuid id) }) s).1 ≡ s
  by_uuid_state id s = elim (by_uuid managed apart platform c id s) [
    | inl (e, lookup) ↦ ap (λ x. x.1) lookup
    | inr (u, lv, read, seen, lookup) ↦ ap (λ x. x.1) lookup
  ]

  pub one_call :
      ((name : String) → (n : lvm.Name) × (lvm.name_of (hash_resource platform name) ≡ ok n))
      → (call : ControllerCall) (s : S) (before : Store managed) → Represents managed s before
      → OneCall call s before
  one_call names (create req) s before shown =
      let (n, named) = names req.name in OneCall-create req n s before named shown
  one_call names (delete req) s before shown = OneCall-delete req s before shown
  one_call names (list req) s before shown =
      OneCall-read (list req) s before
        (list_volumes_state platform c volumed s req (lv_list_state s)) shown
  one_call names (capacity req) s before shown =
      OneCall-read (capacity req) s before
        (get_capacity_state platform c volumed s req
          (ap (λ x. x.1) (client-get_free_bytes managed s)))
        shown
  one_call names (validate req) s before shown =
      OneCall-read (validate req) s before
        (validate_volume_capabilities_state platform c volumed s req
          (by_uuid_state req.volume_id s))
        shown
