-- ===== src/System/Concurrent/Safety.antt =====
-- What holds of every interleaving of requests to create volumes.
use rlvm.Base.{ℕ, ◌≡◌, sym, ap, some, arith}
use mathlib.Core.Path.{subst}
use rlvm.Csi.Controller.CreateVolume.Phases.{Phase, done, advance}
use rlvm.Csi.Controller.Parts.{Platform, RlvmController, hash_resource, process_volume}
use rlvm.Csi.Spec.Controller.{CreateVolumeRequest, CreateVolumeResponse}
use rlvm.Lvm.Laws.{Volume}
use rlvm.Rpc.{reply, ok}
use rlvm.System.Managed.{Managed}
use rlvm.System.Client.{client}
use rlvm.System.Concurrent.{creation, beginning}
use rlvm.Interleaving.{World, put-all, after, Reach, Reach-all}
use rlvm.System.Concurrent.Invariant.{Holds, Grows, Holds-Grows, advance-Kept}
use rlvm.System.Store.{Store, Represents, IsSeparate, Represents-find_lv, find_lv-Represents}
use rlvm.Volumed.Server.{to_message}
use rlvm.Volumed.Spec.{VolumeService}

module _ {S : Type 0} (managed : Managed S) (apart : IsSeparate managed) (platform : Platform)
    (c : RlvmController) (reqs : ℕ → CreateVolumeRequest) (key : ℕ → managed.lvm.Name)
    (named : (i : ℕ)
      → managed.lvm.name_of (hash_resource platform (reqs i).name) ≡ ok (key i)) where
  open managed use {lvm, vg}

  abbrev volumed : VolumeService S
  volumed = client managed

  abbrev pub HoldsAt : Store managed → ℕ → Phase → Type 0
  HoldsAt volumes i p = Holds managed apart platform c volumes (key i) p

  -- The store of a state that is reached has the volumes of the first one, and each volume that a
  -- request is about to format or has answered.
  pub record Inv (first : Store managed) (v : World S Phase) : Type 0 where
    pub volumes : Store managed
    pub shown : Represents managed v.state volumes
    pub kept : Grows managed apart platform c first volumes
    pub holds : (i : ℕ) → HoldsAt volumes i (v.tasks i)

  after-Inv :
      (first : Store managed) (i : ℕ) (v : World S Phase)
      → Inv first v
      → Inv first (after (creation platform c volumed reqs) i v)
  after-Inv first i v inv =
      let (volumes, q, t, run, shown, grows, holds) =
        advance-Kept managed apart platform c (reqs i) (key i) (named i) (v.tasks i) v.state
          inv.volumes inv.shown (inv.holds i) in
      record {
        volumes = volumes;
        shown = subst (λ u. Represents managed u volumes) (sym (ap (λ x. x.1) run)) shown;
        kept = λ n lv has. grows n lv (inv.kept n lv has);
        holds =
            put-all (HoldsAt volumes) i (advance platform c volumed (reqs i) (v.tasks i) v.state).0
              v.tasks (subst (HoldsAt volumes i) (sym (ap (λ x. x.0) run)) holds)
              (λ j.
                Holds-Grows managed apart platform c inv.volumes volumes (key j) (v.tasks j) grows
                  (inv.holds j));
      }

  Reach-Inv :
      (first : Store managed) (s : S) (v : World S Phase)
      → Represents managed s first
      → Reach (creation platform c volumed reqs) (beginning platform c volumed reqs s) v
      → Inv first v
  Reach-Inv first s v shown reach =
      Reach-all (creation platform c volumed reqs) (Inv first)
        (record { volumes = first; shown = shown; kept = λ n lv h. h; holds = λ i. tt })
        (λ i u inv. after-Inv first i u inv) reach

  ends :
      {first : Store managed} {v : World S Phase} (inv : Inv first v) (i : ℕ)
      (r : CreateVolumeResponse)
      → v.tasks i ≡ done (reply r)
      → (lv : Volume lvm) × (inv.volumes (key i) ≡ some lv)
        × (r ≡ record { volume = some (process_volume c (to_message lvm lv)) })
  ends inv i r replied = subst (HoldsAt inv.volumes i) replied (inv.holds i)

  key_eq : (i j : ℕ) → (reqs i).name ≡ (reqs j).name → key i ≡ key j
  key_eq i j same = ground (arith, named i, named j)

  -- Over a lawful lvm2_cmd whose calls for one name leave the others, and that takes the hashed
  -- names of the requests, from a state that represents a store of volumes, however requests to
  -- create volumes are interleaved: in every state that is reached, a request that has replied with
  -- success has its volume, the one it replied, in LVM under its name.
  pub concurrent-create_volume :
      (first : Store managed) (s : S) (v : World S Phase) (i : ℕ) (r : CreateVolumeResponse)
      → Represents managed s first
      → Reach (creation platform c volumed reqs) (beginning platform c volumed reqs s) v
      → v.tasks i ≡ done (reply r)
      → (lv : Volume lvm) × (lvm.find_lv vg.name (key i) v.state ≡ (ok lv, v.state))
        × (r ≡ record { volume = some (process_volume c (to_message lvm lv)) })
  concurrent-create_volume first s v i r shown reach replied =
      let inv = Reach-Inv first s v shown reach in
      let (lv, has, answer) = ends inv i r replied in
      (lv, Represents-find_lv managed v.state inv.volumes (key i) lv inv.shown has, answer)

  -- Over a lawful lvm2_cmd whose calls for one name leave the others, and that takes the hashed
  -- names of the requests, from a state that represents a store, however requests to create volumes
  -- are interleaved: a volume that was found by a name at first is found by it, unchanged, in every
  -- state that is reached.
  pub concurrent_keeps :
      (first : Store managed) (s : S) (v : World S Phase) (n : lvm.Name) (lv : Volume lvm)
      → Represents managed s first
      → Reach (creation platform c volumed reqs) (beginning platform c volumed reqs s) v
      → lvm.find_lv vg.name n s ≡ (ok lv, s)
      → lvm.find_lv vg.name n v.state ≡ (ok lv, v.state)
  concurrent_keeps first s v n lv shown reach found =
      let inv = Reach-Inv first s v shown reach in
      Represents-find_lv managed v.state inv.volumes n lv inv.shown
        (inv.kept n lv (find_lv-Represents managed s first n lv shown found))

  -- Over the same, from such a state, however requests to create volumes are interleaved: two of
  -- them for the same name that have both replied with success have the same reply.
  pub concurrent-create_volume_same :
      (first : Store managed) (s : S) (v : World S Phase) (i j : ℕ) (r q : CreateVolumeResponse)
      → Represents managed s first
      → Reach (creation platform c volumed reqs) (beginning platform c volumed reqs s) v
      → (reqs i).name ≡ (reqs j).name
      → v.tasks i ≡ done (reply r)
      → v.tasks j ≡ done (reply q)
      → r ≡ q
  concurrent-create_volume_same first s v i j r q shown reach same replied other =
      let inv = Reach-Inv first s v shown reach in
      let (lv, has, answer) = ends inv i r replied in
      let (m, has', answer') = ends inv j q other in
      ground (arith, key_eq i j same, ap inv.volumes (key_eq i j same))
