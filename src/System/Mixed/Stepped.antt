-- ===== src/System/Mixed/Stepped.antt =====
-- One part of one request, against the store: what comes into it is the volume of a request to
-- create.
use rlvm.Base.{
  ◌≡◌, ◌⊎◌, refl, sym, ap, ⊤, String, Option, none, some, inl, inr, arith, Bool-cases, ℕ,
}
use mathlib.Core.Path.{subst}
use rlvm.Base.Text
use rlvm.Csi.Controller.CreateVolume.Advance.{
  advance-start, advance-created, advance-not_created, advance-formatted,
}
use rlvm.Csi.Controller.CreateVolume.Lookup.{creation}
use rlvm.Csi.Controller.CreateVolume.Phases.{Phase, start, checked, missing, ready, done, advance}
use rlvm.Csi.Controller.DeleteVolume.Advance.{
  advance_delete-unnamed, advance_delete-not_found, advance_delete-found, advance_delete-deleted,
}
use rlvm.Csi.Controller.DeleteVolume.Phases.{DeletePhase, begun, holding, ended, advance_delete}
use rlvm.Csi.Controller.Parts.{Platform, RlvmController, hash_resource}
use rlvm.Csi.Spec.Controller.{CreateVolumeRequest, CreateVolumeResponse, DeleteVolumeRequest}
use rlvm.Lvm.Laws.{Volume}
use rlvm.Rpc.{Status, Outcome, ok, err, reply, fail, invalid_argument}
use rlvm.System.Client.{client, client-get_free_bytes}
use rlvm.System.Deleting.{by_uuid}
use rlvm.System.Managed.{Managed}
use rlvm.System.Mixed.{Task, creating, deleting, step_task}
use rlvm.System.Store.{Store, Represents, IsSeparate, update}
use rlvm.System.Views.{client-Answered, client-create, client-format, client-delete}
use rlvm.Volumed.Server.{free_bytes, to_message}
use rlvm.Volumed.Spec.{empty, LogicalVolume, VolumeService}

module _ {S : Type 0} (managed : Managed S) (apart : IsSeparate managed) (platform : Platform)
    (c : RlvmController) where
  open managed use {lvm, laws, config, vg}

  abbrev volumed : VolumeService S
  volumed = client managed

  -- The request is to create the volume of that name.
  abbrev pub Creates : Task → lvm.Name → Type 0
  Creates (creating req phase) n = lvm.name_of (hash_resource platform req.name) ≡ ok n
  Creates (deleting req phase) n = ⊥

  -- What a deletion holds came from a lookup, so that its name can be read.
  abbrev pub Fits : Task → Type 0
  Fits (deleting req (holding volume)) = (n : lvm.Name) × (lvm.name_of volume.name ≡ ok n)
  Fits task = ⊤

  -- Where a part of a request comes to.
  abbrev pub Stepped : Task → Store managed → Task × S → Type 0
  Stepped task before p =
      (after : Store managed) × Represents managed p.1 after
      × ((n : lvm.Name) (lv : Volume lvm)
          → after n ≡ some lv
          → (before n ≡ some lv) ⊎ Creates task n)
      × Fits p.0

  -- The store stays.
  stays :
      (task : Task) (before : Store managed) (p : Task × S)
      → Represents managed p.1 before
      → Fits p.0
      → Stepped task before p
  stays task before p shown fits = (before, shown, (λ n lv h. inl h), fits)

  updated :
      (task : Task) (before : Store managed) (n : lvm.Name) (v : Option (Volume lvm)) (p : Task × S)
      → Represents managed p.1 (update managed apart before n v)
      → ((lv : Volume lvm) → v ≡ some lv → Creates task n)
      → Fits p.0
      → Stepped task before p
  updated task before n v p shown made fits = (
    update managed apart before n v,
    shown,
    (λ k lv h. elim (Bool-cases (apart.same k n)) [
      | inl same ↦
          inr (subst (Creates task) (sym ((apart.same_iff k n).0 same)) (made lv (ground arith)))
      | inr other ↦ inl (ground arith)
    ]),
    fits,
  )

  module _ (req : CreateVolumeRequest) (n : lvm.Name)
      (named : lvm.name_of (hash_resource platform req.name) ≡ ok n) (s : S)
      (before : Store managed) (shown : Represents managed s before) where
    abbrev at : Phase → Task × S
    at phase = step_task platform c volumed (creating req phase) s

    abbrev Steps : Phase → Type 0
    Steps phase = Stepped (creating req phase) before (at phase)

    same_state : (phase : Phase) → (advance platform c volumed req phase s).1 ≡ s → Steps phase
    same_state phase same =
        stays (creating req phase) before (at phase)
          (subst (λ t. Represents managed t before) (sym same) shown) tt

    start_state : (advance platform c volumed req start s).1 ≡ s
    start_state =
        elim (advance-start platform c volumed req (free_bytes config vg.capacity_bytes) s
          (client-get_free_bytes managed s)) [
            | inl (k, run) ↦ ap (λ x. x.1) run
            | inr (e, run) ↦ ap (λ x. x.1) run
          ]

    checked_state : (k : ℕ) → (advance platform c volumed req (checked k) s).1 ≡ s
    unfolding advance
    checked_state k =
        let (a, lookup, answers) =
          client-Answered managed apart (hash_resource platform req.name) n s before named shown in
        ground (arith, lookup)

    missing-Stepped : (k : ℕ) → Steps (missing k)
    missing-Stepped k =
        let task = creating req (missing k) in
        elim (client-create managed apart (creation req.name (hash_resource platform req.name) k) n
          s before named shown) [
            | inl (lv, t, run, name, free, kept) ↦
                let e = advance-created platform c volumed req k s t (to_message lvm lv) run in
                updated task before n (some lv) (at (missing k))
                  (subst (λ u. Represents managed u (update managed apart before n (some lv)))
                    (sym (ap (λ x. x.1) e)) kept)
                  (λ m h. named) tt
            | inr (e, t, run, kept) ↦
                let e' = advance-not_created platform c volumed req k s t e run in
                stays task before (at (missing k))
                  (subst (λ u. Represents managed u before) (sym (ap (λ x. x.1) e')) kept) tt
          ]

    ready-Stepped : (m : LogicalVolume) → Steps (ready m)
    ready-Stepped m =
        let (a, t, run, kept) =
          client-format managed apart (hash_resource platform req.name) n s before named shown in
        let e = advance-formatted platform c volumed req 0 s t m a run in
        stays (creating req (ready m)) before (at (ready m))
          (subst (λ u. Represents managed u before) (sym (ap (λ x. x.1) e)) kept) tt

    done_state :
        (r : Outcome Status CreateVolumeResponse)
        → (advance platform c volumed req (done r) s).1 ≡ s
    unfolding advance
    done_state r = refl

    creating-Stepped : (phase : Phase) → Steps phase
    creating-Stepped start = same_state start start_state
    creating-Stepped (checked k) = same_state (checked k) (checked_state k)
    creating-Stepped (missing k) = missing-Stepped k
    creating-Stepped (ready m) = ready-Stepped m
    creating-Stepped (done r) = same_state (done r) (done_state r)

  module _ (req : DeleteVolumeRequest) (s : S) (before : Store managed)
      (shown : Represents managed s before) where
    abbrev at_deletion : DeletePhase → Task × S
    at_deletion phase = step_task platform c volumed (deleting req phase) s

    abbrev Deletes : DeletePhase → Type 0
    Deletes phase = Stepped (deleting req phase) before (at_deletion phase)

    -- A step of a deletion that leaves the store, given where it comes to.
    leaves :
        (phase next : DeletePhase) (t : S)
        → advance_delete volumed req phase s ≡ (next, t)
        → Represents managed t before
        → Fits (deleting req next)
        → Deletes phase
    leaves phase next t run kept fits =
        stays (deleting req phase) before (at_deletion phase)
          (subst (λ u. Represents managed u before) (sym (ap (λ x. x.1) run)) kept)
          (subst (λ q. Fits (deleting req q)) (sym (ap (λ x. x.0) run)) fits)

    begun-Stepped : Deletes begun
    begun-Stepped = elim (Bool-cases (Text.is_empty req.volume_id)) [
      | inl unnamed ↦
          leaves begun (ended (fail (invalid_argument "missing required field `volume_id`"))) s
            (advance_delete-unnamed volumed req s s unnamed) shown tt
      | inr given ↦ elim (by_uuid managed apart platform c req.volume_id s) [
        | inl (e, lookup) ↦
            leaves begun (ended (reply tt)) s
              (advance_delete-not_found volumed req s s e given lookup) shown tt
        | inr (u, lv, read, found, lookup) ↦
            leaves begun (holding (to_message lvm lv)) s
              (advance_delete-found volumed req s s (to_message lvm lv) given lookup) shown
              (lv.name, laws.name_of-show_name lv.name)
      ]
    ]

    holding-Stepped : (m : LogicalVolume) → Fits (deleting req (holding m)) → Deletes (holding m)
    holding-Stepped m (n, named) =
        elim (client-delete managed apart m.name n s before named shown) [
          | inl (t, run, gone) ↦
              let e = advance_delete-deleted volumed req s t m (ok empty) run in
              updated (deleting req (holding m)) before n none (at_deletion (holding m))
                (subst (λ u. Represents managed u (update managed apart before n none))
                  (sym (ap (λ x. x.1) e)) gone)
                (λ lv h. ground arith)
                (subst (λ q. Fits (deleting req q)) (sym (ap (λ x. x.0) e)) tt)
          | inr (e, t, run, kept) ↦
              leaves (holding m) (ended (fail e)) t
                (advance_delete-deleted volumed req s t m (err e) run) kept tt
        ]

    ended_run : (r : Outcome Status ⊤) → advance_delete volumed req (ended r) s ≡ (ended r, s)
    unfolding advance_delete
    ended_run r = refl

    deleting-Stepped : (phase : DeletePhase) → Fits (deleting req phase) → Deletes phase
    deleting-Stepped begun fits = begun-Stepped
    deleting-Stepped (holding m) fits = holding-Stepped m fits
    deleting-Stepped (ended r) fits = leaves (ended r) (ended r) s (ended_run r) shown tt

  -- One part of a request, when every hashed name is one of LVM.
  pub task-Stepped :
      ((name : String) → (n : lvm.Name) × (lvm.name_of (hash_resource platform name) ≡ ok n))
      → (task : Task) (s : S) (before : Store managed) → Represents managed s before
      → Fits task
      → Stepped task before (step_task platform c volumed task s)
  task-Stepped names (creating req phase) s before shown fits =
      creating-Stepped req (names req.name).0 (names req.name).1 s before shown phase
  task-Stepped names (deleting req phase) s before shown fits =
      deleting-Stepped req s before shown phase fits
