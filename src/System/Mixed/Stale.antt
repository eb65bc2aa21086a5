-- ===== src/System/Mixed/Stale.antt =====
-- A deletion that looked its volume up before the volume was replaced.
use rlvm.Base.{ℕ, ◌≡◌, sym, ◌∙◌, ap, false, some, List, [], ◌∷◌, ◌==◌, if◌then◌else◌}
use mathlib.Core.Path.{subst}
use rlvm.Base.Text
use rlvm.Csi.Controller.CreateVolume.Phases as Making
use rlvm.Csi.Controller.CreateVolume.Phases.{start, done, run-create_volume}
use rlvm.Csi.Controller.DeleteVolume.Advance.{advance_delete-found, advance_delete-deleted}
use rlvm.Csi.Controller.DeleteVolume.Phases.{
  begun, holding, ended, advance_delete, run, run-delete_volume,
}
use rlvm.Csi.Controller.Handlers.{create_volume, delete_volume}
use rlvm.Csi.Controller.Parts.{Platform, RlvmController, hash_resource}
use rlvm.Csi.Spec.Controller.{CreateVolumeRequest, CreateVolumeResponse, DeleteVolumeRequest}
use rlvm.Rpc.{Status, Code, ok, err, reply, with_extension}
use rlvm.System.Client.{client, client-deleted}
use rlvm.System.Managed.{Managed}
use rlvm.System.Mixed.{Task, creating, deleting, turn}
use rlvm.Interleaving.{World, serve}
use rlvm.Volumed.Spec.{empty, LogicalVolume, Identifier, VolumeService}

-- Two deletions of one volume, and a creation: the first deletion has only looked the volume up
-- when the second is served whole, and then the creation is; at last the first goes on.
abbrev pub order : List ℕ
order = 0 ∷ 1 ∷ 1 ∷ 2 ∷ 2 ∷ 2 ∷ 2 ∷ 0 ∷ []

abbrev pub waiting : {S : Type 0} → DeleteVolumeRequest → CreateVolumeRequest → S → World S Task
waiting req creation s = record {
  state = s;
  tasks = λ i. if i == 2 then creating creation start else deleting req begun;
}

module _ {S : Type 0} (platform : Platform) (c : RlvmController) (volumed : VolumeService S)
    (req : DeleteVolumeRequest) (creation : CreateVolumeRequest) (m : LogicalVolume)
    (r : CreateVolumeResponse) (s t u w : S) (given : Text.is_empty req.volume_id ≡ false)
    (found : volumed.get_logical_volume
        (record { identifier = some (Identifier.uuid req.volume_id) })
        s
      ≡ (ok m, s))
    (gone : delete_volume platform c (with_extension volumed req) s ≡ (reply tt, t))
    (made : create_volume platform c (with_extension volumed creation) t ≡ (reply r, u))
    (removed : volumed.delete_logical_volume (record { name = m.name }) u ≡ (ok empty, w)) where
  abbrev served : World S Task
  served = serve (turn platform c volumed) order (waiting req creation s)

  first_run : advance_delete volumed req begun s ≡ (holding m, s)
  first_run = advance_delete-found volumed req s s m given found

  second_run : run volumed 2 req begun s ≡ (ended (reply tt), t)
  second_run = run-delete_volume volumed platform c req s ∙ ap (λ x. (ended x.0, x.1)) gone

  third_run : Making.run platform c volumed creation 4 start t ≡ (done (reply r), u)
  third_run = run-create_volume platform c volumed creation t ∙ ap (λ x. (done x.0, x.1)) made

  second_task : served.tasks 1 ≡ deleting req (ended (reply tt))
  second_task =
      ap (λ a. deleting req (run volumed 2 req begun a.1).0) first_run
      ∙ ap (λ b. deleting req b.0) second_run

  third_task : served.tasks 2 ≡ creating creation (done (reply r))
  third_task =
      ap
        (λ a.
          creating creation
            (Making.run platform c volumed creation 4 start (run volumed 2 req begun a.1).1).0)
        first_run
      ∙ ap (λ b. creating creation (Making.run platform c volumed creation 4 start b.1).0)
          second_run
      ∙ ap (λ d. creating creation d.0) third_run

  first_end : (served.tasks 0 ≡ deleting req (ended (reply tt))) × (served.state ≡ w)
  first_end =
      let last =
        ap
          (λ a.
            advance_delete volumed req a.0
              (Making.run platform c volumed creation 4 start (run volumed 2 req begun a.1).1).1)
          first_run
        ∙ ap
            (λ b.
              advance_delete volumed req (holding m)
                (Making.run platform c volumed creation 4 start b.1).1)
            second_run
        ∙ ap (λ d. advance_delete volumed req (holding m) d.1) third_run
        ∙ advance_delete-deleted volumed req u w m (ok empty) removed in
      (ap (λ x. deleting req x.0) last, ap (λ x. x.1) last)

-- Over a lawful lvm2_cmd: if one deletion has looked up its volume, another one of the same
-- identifier is then served whole, a volume is created whole under the name that the deleted one
-- had, and the first deletion then goes on, by that name, then all three requests succeed, and the
-- volume that the creation replied is gone, whatever its identifier is.
pub stale_deletion :
    {S : Type 0} (managed : Managed S) (platform : Platform) (c : RlvmController)
    (req : DeleteVolumeRequest) (creation : CreateVolumeRequest) (m : LogicalVolume)
    (r : CreateVolumeResponse) (n : managed.lvm.Name) (s t u w : S)
    → Text.is_empty req.volume_id ≡ false
    → (client managed).get_logical_volume
        (record { identifier = some (Identifier.uuid req.volume_id) })
        s
      ≡ (ok m, s)
    → delete_volume platform c (with_extension (client managed) req) s ≡ (reply tt, t)
    → create_volume platform c (with_extension (client managed) creation) t ≡ (reply r, u)
    → (client managed).delete_logical_volume (record { name = m.name }) u ≡ (ok empty, w)
    → m.name ≡ hash_resource platform creation.name
    → managed.lvm.name_of m.name ≡ ok n
    → let end = serve (turn platform c (client managed)) order (waiting req creation s) in
      (end.tasks 0 ≡ deleting req (ended (reply tt)))
      × (end.tasks 1 ≡ deleting req (ended (reply tt)))
      × (end.tasks 2 ≡ creating creation (done (reply r)))
      × (missing : Status) × ((client managed).get_logical_volume
            (record { identifier = some (Identifier.name (hash_resource platform creation.name)) })
            end.state
          ≡ (err missing, end.state))
      × (missing.code ≡ Code.not_found)
stale_deletion managed platform c req creation m r n s t u w given found gone made removed same
      named =
    let (first, state) =
      first_end platform c (client managed) req creation m r s t u w given found gone made
        removed in
    let (missing, lookup, code) =
      client-deleted managed m.name (hash_resource platform creation.name) n u w empty named
        (ap managed.lvm.name_of (sym same) ∙ named) removed in
    (
      first,
      second_task platform c (client managed) req creation m r s t u w given found gone made
          removed,
      third_task platform c (client managed) req creation m r s t u w given found gone made removed,
      missing,
      subst
          (λ x.
            (client managed).get_logical_volume
              (record {
                identifier = some (Identifier.name (hash_resource platform creation.name));
              })
              x
            ≡ (err missing, x))
          (sym state) lookup,
      code,
    )
