-- ===== src/System/Concurrent/Invariant.antt =====
-- One part of one request, against the store: the store only grows, and a request that has its
-- volume, or has replied, has it from the store.
use rlvm.Base.{ℕ, ◌≡◌, refl, ◌∙◌, ap, ⊤, Option, none, some, inl, inr, arith, Option-cases}
use rlvm.Csi.Controller.CreateVolume.Phases.{Phase, start, checked, missing, ready, done, advance}
use rlvm.Csi.Controller.CreateVolume.Advance.{
  advance-start, advance-found, advance-not_found, advance-created, advance-not_created,
  advance-formatted,
}
use rlvm.Csi.Controller.CreateVolume.Accepted.{formatted}
use rlvm.Csi.Controller.CreateVolume.Lookup.{creation}
use rlvm.Csi.Controller.Parts.{Platform, RlvmController, hash_resource, process_volume}
use rlvm.Csi.Spec.Controller.{CreateVolumeRequest, CreateVolumeResponse}
use rlvm.Lvm.Laws.{Volume}
use rlvm.Rpc.{Status, Result, Outcome, reply, fail, panic, ok, err}
use rlvm.System.Managed.{Managed}
use rlvm.System.Client.{client, client-get_free_bytes}
use rlvm.System.Store.{Store, Represents, IsSeparate, update}
use rlvm.System.Views.{Answered, client-Answered, client-create, client-format}
use rlvm.Volumed.Server.{free_bytes, to_message}
use rlvm.Volumed.Spec.{Empty, LogicalVolume, Identifier, VolumeService}

module _ {S : Type 0} (managed : Managed S) (apart : IsSeparate managed) (platform : Platform)
    (c : RlvmController) where
  open managed use {lvm, config, vg}

  abbrev volumed : VolumeService S
  volumed = client managed

  -- What the store has to have for a request for the volume of name `n`.
  abbrev pub Holds : Store managed → lvm.Name → Phase → Type 0
  Holds volumes n (ready m) = (lv : Volume lvm) × (volumes n ≡ some lv) × (m ≡ to_message lvm lv)
  Holds volumes n (done (reply r)) =
      (lv : Volume lvm) × (volumes n ≡ some lv)
      × (r ≡ record { volume = some (process_volume c (to_message lvm lv)) })
  Holds volumes n p = ⊤

  -- Volumes stay as they are.
  abbrev pub Grows : Store managed → Store managed → Type 0
  Grows before after = (n : lvm.Name) (lv : Volume lvm) → before n ≡ some lv → after n ≡ some lv

  pub Holds-Grows :
      (before after : Store managed) (n : lvm.Name) (p : Phase)
      → Grows before after
      → Holds before n p
      → Holds after n p
  Holds-Grows before after n (ready m) grows (lv, has, e) = (lv, grows n lv has, e)
  Holds-Grows before after n (done (reply r)) grows (lv, has, e) = (lv, grows n lv has, e)
  Holds-Grows before after n (done (fail e)) grows h = tt
  Holds-Grows before after n (done panic) grows h = tt
  Holds-Grows before after n start grows h = tt
  Holds-Grows before after n (checked k) grows h = tt
  Holds-Grows before after n (missing k) grows h = tt

  Grows-update :
      (before : Store managed) (n : lvm.Name) (v : Option (Volume lvm))
      → before n ≡ none
      → Grows before (update managed apart before n v)
  Grows-update before n v free k lv has = ground (arith, apart.same_iff k n)

  update_self :
      (before : Store managed) (n : lvm.Name) (v : Option (Volume lvm))
      → update managed apart before n v n ≡ v
  update_self before n v = rw ((apart.same_iff n n).1 refl)

  module _ (req : CreateVolumeRequest) (n : lvm.Name)
      (named : lvm.name_of (hash_resource platform req.name) ≡ ok n) where
    -- What a part of the request may do.
    abbrev pub Kept : Phase → S → Store managed → Type 0
    Kept p s before =
        (after : Store managed) × (q : Phase) × (t : S) × (advance platform c volumed req p s
          ≡ (q, t))
        × Represents managed t after
        × Grows before after
        × Holds after n q

    Kept-start :
        (s : S) (before : Store managed) → Represents managed s before → Kept start s before
    Kept-start s before shown =
        elim (advance-start platform c volumed req (free_bytes config vg.capacity_bytes) s
          (client-get_free_bytes managed s)) [
            | inl (k, run) ↦ (before, checked k, s, run, shown, (λ m lv h. h), tt)
            | inr (e, run) ↦ (before, done (fail e), s, run, shown, (λ m lv h. h), tt)
          ]

    Kept-found :
        (k : ℕ) (s : S) (before : Store managed) (old : Volume lvm)
        (a : Result Status LogicalVolume)
        → Represents managed s before
        → before n ≡ some old
        → volumed.get_logical_volume
            (record { identifier = some (Identifier.name (hash_resource platform req.name)) })
            s
          ≡ (a, s)
        → a ≡ ok (to_message lvm old)
        → Kept (checked k) s before
    Kept-found k s before old a shown has lookup answer =
        elim (advance-found platform c volumed req k s s (to_message lvm old)
          (lookup ∙ ap (λ x. (x, s)) answer)) [
            | inl run ↦
                (before, ready (to_message lvm old), s, run, shown, (λ m lv h. h), (old, has, refl))
            | inr (e, run) ↦ (before, done (fail e), s, run, shown, (λ m lv h. h), tt)
          ]

    Kept-checked :
        (k : ℕ) (s : S) (before : Store managed)
        → Represents managed s before
        → Kept (checked k) s before
    Kept-checked k s before shown =
        let (a, lookup, answers) =
          client-Answered managed apart (hash_resource platform req.name) n s before named shown in
        elim (Option-cases (before n)) [
          | inr (old, has) ↦ Kept-found k s before old a shown has lookup (rw has at answers)
          | inl free ↦
              let answered : Answered lvm none a = rw free at answers in
              let (e, failed, code) = answered in
              (
                before,
                missing k,
                s,
                advance-not_found platform c volumed req k s s e (lookup ∙ ap (λ x. (x, s)) failed)
                    code,
                shown,
                (λ m lv h. h),
                tt,
              )
        ]

    Kept-missing :
        (k : ℕ) (s : S) (before : Store managed)
        → Represents managed s before
        → Kept (missing k) s before
    Kept-missing k s before shown =
        elim (client-create managed apart (creation req.name (hash_resource platform req.name) k) n
          s before named shown) [
            | inl (lv, t, run, name, free, kept) ↦ (
              update managed apart before n (some lv),
              ready (to_message lvm lv),
              t,
              advance-created platform c volumed req k s t (to_message lvm lv) run,
              kept,
              Grows-update before n (some lv) free,
              (lv, update_self before n (some lv), refl),
            )
            | inr (e, t, run, kept) ↦ (
              before,
              done (fail e),
              t,
              advance-not_created platform c volumed req k s t e run,
              kept,
              (λ m lv h. h),
              tt,
            )
          ]

    Holds-formatted :
        (before : Store managed) (m : LogicalVolume) (a : Result Status Empty)
        → Holds before n (ready m)
        → Holds before n (done (formatted c m a))
    Holds-formatted before m (ok e) (lv, has, same) =
        (lv, has, ap (λ x. record { volume = some (process_volume c x) }) same)
    Holds-formatted before m (err e) h = tt

    Kept-ready :
        (m : LogicalVolume) (s : S) (before : Store managed)
        → Represents managed s before
        → Holds before n (ready m)
        → Kept (ready m) s before
    Kept-ready m s before shown h =
        let (a, t, run, kept) =
          client-format managed apart (hash_resource platform req.name) n s before named shown in
        (
          before,
          done (formatted c m a),
          t,
          advance-formatted platform c volumed req 0 s t m a run,
          kept,
          (λ k lv h'. h'),
          Holds-formatted before m a h,
        )

    Kept-done :
        (r : Outcome Status CreateVolumeResponse) (s : S) (before : Store managed)
        → Represents managed s before
        → Holds before n (done r)
        → Kept (done r) s before
    unfolding advance
    Kept-done r s before shown h = (before, done r, s, refl, shown, (λ m lv e. e), h)

    -- Every part keeps the volumes of the store, and what the request has from it.
    pub advance-Kept :
        (p : Phase) (s : S) (before : Store managed)
        → Represents managed s before
        → Holds before n p
        → Kept p s before
    advance-Kept start s before shown h = Kept-start s before shown
    advance-Kept (checked k) s before shown h = Kept-checked k s before shown
    advance-Kept (missing k) s before shown h = Kept-missing k s before shown
    advance-Kept (ready m) s before shown h = Kept-ready m s before shown h
    advance-Kept (done r) s before shown h = Kept-done r s before shown h
