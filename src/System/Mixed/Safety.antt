-- ===== src/System/Mixed/Safety.antt =====
-- What holds of every interleaving of requests to create and to delete volumes.
use rlvm.Base.{ℕ, ◌≡◌, ◌≢◌, ◌⊎◌, sym, ◌∙◌, ap, String, some, inl, inr, arith}
use mathlib.Core.Path.{subst}
use rlvm.Csi.Controller.CreateVolume.Accepted.{formatted}
use rlvm.Csi.Controller.CreateVolume.Advance.{advance-formatted, advance-reply}
use rlvm.Csi.Controller.CreateVolume.Phases.{ready, done}
use rlvm.Csi.Controller.DeleteVolume.Phases.{begun, holding, ended}
use rlvm.Csi.Controller.Parts.{Platform, RlvmController, hash_resource}
use rlvm.Csi.Spec.Controller.{CreateVolumeRequest, CreateVolumeResponse}
use rlvm.Lvm.Laws.{Volume}
use rlvm.Rpc.{Status, Result, ok, err, reply, pure_Result-cases}
use rlvm.System.Client.{client}
use rlvm.System.Views.{client-format, client-format_found}
use rlvm.System.Managed.{Managed}
use rlvm.System.Mixed.{Task, creating, deleting, IsFresh, step_task, turn}
use rlvm.Interleaving.{World, put, put-all, after, Reach, Reach-all}
use rlvm.System.Mixed.Stepped.{Creates, Fits, task-Stepped}
use rlvm.System.Store.{Store, Represents, IsSeparate, Represents-find_lv, find_lv-Represents}
use rlvm.Volumed.Spec.{Empty, LogicalVolume, VolumeService}

module _ {S : Type 0} (managed : Managed S) (apart : IsSeparate managed) (platform : Platform)
    (c : RlvmController) where
  open managed use {lvm, vg}

  abbrev volumed : VolumeService S
  volumed = client managed

  abbrev CreatesAt : Task → lvm.Name → Type 0
  CreatesAt task n = Creates managed apart platform c task n

  -- The requests that are to create the volume of that name.
  abbrev pub Creator : (ℕ → Task) → lvm.Name → Type 0
  Creator tasks n = (i : ℕ) × Creates managed apart platform c (tasks i) n

  -- Each volume of a state that is reached was there at first, or has its creator, and the requests
  -- stay what they are.
  record Inv (first : Store managed) (v w : World S Task) : Type 0 where
    volumes : Store managed
    shown : Represents managed w.state volumes
    comes :
        (n : lvm.Name) (lv : Volume lvm)
        → volumes n ≡ some lv
        → (first n ≡ some lv) ⊎ Creator v.tasks n
    fits : (i : ℕ) → Fits managed apart platform c (w.tasks i)
    requests : (i : ℕ) (n : lvm.Name) → CreatesAt (w.tasks i) n → CreatesAt (v.tasks i) n

  fresh-Fits : (task : Task) → IsFresh task → Fits managed apart platform c task
  fresh-Fits (creating req phase) fresh = tt
  fresh-Fits (deleting req begun) fresh = tt
  fresh-Fits (deleting req (holding m)) fresh = absurd fresh
  fresh-Fits (deleting req (ended r)) fresh = absurd fresh

  step-Creates :
      (task : Task) (s : S) (n : lvm.Name)
      → CreatesAt (step_task platform c volumed task s).0 n
      → CreatesAt task n
  step-Creates (creating req phase) s n h = h
  step-Creates (deleting req phase) s n h = h

  after-Inv :
      ((name : String) → (n : lvm.Name) × (lvm.name_of (hash_resource platform name) ≡ ok n))
      → (first : Store managed) (v w : World S Task) (i : ℕ) → Inv first v w
      → Inv first v (after (turn platform c volumed) i w)
  after-Inv names first v w i inv =
      let (later, shown, comes, fits) =
        task-Stepped managed apart platform c names (w.tasks i) w.state inv.volumes inv.shown
          (inv.fits i) in
      let new = (step_task platform c volumed (w.tasks i) w.state).0 in
      record {
        volumes = later;
        shown = shown;
        comes = λ n lv h. elim (comes n lv h) [
          | inl old ↦ inv.comes n lv old
          | inr made ↦ inr (i, inv.requests i n made)
        ];
        fits = put-all (λ j task. Fits managed apart platform c task) i new w.tasks fits inv.fits;
        requests =
            put-all (λ j task. (n : lvm.Name) → CreatesAt task n → CreatesAt (v.tasks j) n) i new
              w.tasks (λ n h. inv.requests i n (step-Creates (w.tasks i) w.state n h)) inv.requests;
      }

  Reach-Inv :
      ((name : String) → (n : lvm.Name) × (lvm.name_of (hash_resource platform name) ≡ ok n))
      → (first : Store managed) (v w : World S Task) → Represents managed v.state first
      → ((i : ℕ) → IsFresh (v.tasks i))
      → Reach (turn platform c volumed) v w
      → Inv first v w
  Reach-Inv names first v w shown fresh reach =
      Reach-all (turn platform c volumed) (Inv first v)
        (record {
          volumes = first;
          shown = shown;
          comes = λ n lv h. inl h;
          fits = λ i. fresh-Fits (v.tasks i) (fresh i);
          requests = λ i n h. h;
        })
        (λ i u inv. after-Inv names first v u i inv) reach

  -- A request that ends with the error of its format does not reply.
  not_replied :
      (req : CreateVolumeRequest) (m : LogicalVolume) (a : Result Status Empty) (x : Status)
      (r : CreateVolumeResponse) (tasks : ℕ → Task) (i : ℕ) {task : Task}
      → a ≡ err x
      → task ≡ creating req (done (formatted c m a))
      → put i task tasks i ≢ creating req (done (reply r))
  not_replied req m a x r tasks i failed stands replied = ground arith

  -- A part by which a request to create replies is the format, unless it has replied before.
  step-replied :
      (task : Task) (s : S) (req : CreateVolumeRequest) (r : CreateVolumeResponse)
      → (step_task platform c volumed task s).0 ≡ creating req (done (reply r))
      → (task ≡ creating req (done (reply r)))
        ⊎ ((m : LogicalVolume) × (task ≡ creating req (ready m)))
  step-replied (creating own phase) s req r h =
      elim (advance-reply platform c volumed own phase s r (ground arith)) [
        | inl replied ↦ inl (ground arith)
        | inr (m, stands) ↦ inr (m, ground arith)
      ]
  step-replied (deleting own phase) s req r h = ground arith

  -- LVM has a volume under the hashed name of the request.
  abbrev pub IsThere : CreateVolumeRequest → S → Type 0
  IsThere req t =
      (n : lvm.Name) × (lv : Volume lvm) × (lvm.name_of (hash_resource platform req.name) ≡ ok n)
      × (lvm.find_lv vg.name n t ≡ (ok lv, t))

  module _
      (names : (name : String)
        → (n : lvm.Name) × (lvm.name_of (hash_resource platform name) ≡ ok n))
      (first : Store managed) (v w : World S Task) (shown : Represents managed v.state first)
      (fresh : (i : ℕ) → IsFresh (v.tasks i)) (reach : Reach (turn platform c volumed) v w) where
    -- Over a lawful lvm2_cmd whose calls for one name leave the others, and that takes every hashed
    -- name, from a state that represents a store and requests that have not begun, however requests
    -- to create and to delete volumes are interleaved: what is found by a name in a state that is
    -- reached was found there at first, unchanged, or one of the requests is to create the volume
    -- of that name.
    pub mixed_no_stray :
        (n : lvm.Name) (lv : Volume lvm)
        → lvm.find_lv vg.name n w.state ≡ (ok lv, w.state)
        → (lvm.find_lv vg.name n v.state ≡ (ok lv, v.state)) ⊎ Creator v.tasks n
    mixed_no_stray n lv seen =
        let inv = Reach-Inv names first v w shown fresh reach in
        elim (inv.comes n lv (find_lv-Represents managed w.state inv.volumes n lv inv.shown seen)) [
          | inl old ↦ inl (Represents-find_lv managed v.state first n lv shown old)
          | inr made ↦ inr made
        ]

    -- LVM has a volume of the request's name once its format has succeeded.
    format_replied :
        (i : ℕ) (req : CreateVolumeRequest) (m : LogicalVolume) (r : CreateVolumeResponse)
        → w.tasks i ≡ creating req (ready m)
        → (after (turn platform c volumed) i w).tasks i ≡ creating req (done (reply r))
        → IsThere req (after (turn platform c volumed) i w).state
    format_replied i req m r stands replied =
        let inv = Reach-Inv names first v w shown fresh reach in
        let (n, named) = names req.name in
        let (a, u, run, kept) =
          client-format managed apart (hash_resource platform req.name) n w.state inv.volumes named
            inv.shown in
        let e : step_task platform c volumed (w.tasks i) w.state
            ≡ (creating req (done (formatted c m a)), u) =
          ap (λ task. step_task platform c volumed task w.state) stands
          ∙ ap (λ x. (creating req x.0, x.1))
              (advance-formatted platform c volumed req 0 w.state u m a run) in
        elim (pure_Result-cases a) [
          | inr (x, failed) ↦
              absurd (not_replied req m a x r w.tasks i failed (ap (λ y. y.0) e) replied)
          | inl (x, worked) ↦
              let (lv, has) =
                client-format_found managed apart (hash_resource platform req.name) n w.state u
                  inv.volumes x named inv.shown (run ∙ ap (λ b. (b, u)) worked) in
              (
                n,
                lv,
                named,
                subst (λ t. lvm.find_lv vg.name n t ≡ (ok lv, t)) (sym (ap (λ x. x.1) e))
                    (Represents-find_lv managed u inv.volumes n lv kept has),
              )
        ]

    -- Over a lawful lvm2_cmd whose calls for one name leave the others, and that takes every hashed
    -- name, from a state that represents a store and requests that have not begun, however requests
    -- to create and to delete volumes are interleaved: when a request to create, that has not
    -- replied so, runs its next part and has then replied with success, LVM has a volume of its
    -- name in the state after that part. (It may be another one than the reply shows.)
    pub mixed-create_volume :
        (i : ℕ) (req : CreateVolumeRequest) (r : CreateVolumeResponse)
        → w.tasks i ≢ creating req (done (reply r))
        → (after (turn platform c volumed) i w).tasks i ≡ creating req (done (reply r))
        → IsThere req (after (turn platform c volumed) i w).state
    mixed-create_volume i req r before replied =
        elim (step-replied (w.tasks i) w.state req r (ground (arith, replied))) [
          | inl already ↦ absurd (before already)
          | inr (m, stands) ↦ format_replied i req m r stands replied
        ]
