-- ===== src/System/Volumes.antt =====
-- The life of a volume, from the calls of the plugin's controller down to LVM.
use rlvm.Base.{ℕ, ◌≡◌, sym, ◌∙◌, ap, String, some, false, inl, inr, arith}
use rlvm.Csi.Controller.CreateVolume.Lookup.{creation, find_or_create_reply}
use rlvm.Csi.Controller.CreateVolume.Safety.{create_volume_reply}
use rlvm.Csi.Controller.Handlers.{create_volume, delete_volume}
use rlvm.Csi.Controller.Parts.{
  Platform, RlvmController, process_volume, hash_resource, find_or_create,
}
use rlvm.Csi.Controller.CreateVolume.{requested_bytes}
use rlvm.Csi.Spec.Messages
use rlvm.Csi.Spec.Messages.{Map}
use rlvm.Csi.Controller.DeleteVolume.{delete_volume_reply}
use rlvm.Csi.Controller.CreateVolume.Accepted.{create_volume_reformats}
use rlvm.Base.Text
use rlvm.Csi.Spec.Controller.{CreateVolumeRequest, CreateVolumeResponse}
use rlvm.Lvm.Laws.{IsFound, Volume}
use rlvm.Rpc.{Status, Result, ok, err, reply, with_extension, Code}
use rlvm.System.Managed.{Managed}
use rlvm.System.Client.{
  client, client-found, client-lookup, client-created, client-formatted, client-found_name,
  client-deleted, client-get_free_bytes,
}
use rlvm.Volumed.Server.{free_bytes, to_message}
use rlvm.Volumed.Spec.{empty, GetFreeBytesResponse, Empty, LogicalVolume, Identifier, VolumeService}

ok_eq :
    {S : Type 0} {a b : LogicalVolume} {s t : S}
    → ◌≡◌ {A = Result Status LogicalVolume × S} (ok a, s) (ok b, t)
    → a ≡ b
ok_eq h = cc

answered_total :
    {S : Type 0} {a b : ℕ} {s t : S}
    → ◌≡◌ {A = Result Status GetFreeBytesResponse × S}
        (ok (record { bytes_free = a }), s)
        (ok (record { bytes_free = b }), t)
    → a ≡ b
answered_total h = ground arith

module _ {S : Type 0} (managed : Managed S) (platform : Platform) (c : RlvmController) where
  open managed use {lvm, laws, config, vg}

  abbrev volumed : VolumeService S
  volumed = client managed

  find_or_create-IsFound :
      (name safe : String) (capacity : ℕ) (s t : S) (m : LogicalVolume)
      → find_or_create platform volumed name safe capacity s ≡ (reply m, t)
      → (lv : Volume lvm) × (lvm.name_of safe ≡ ok lv.name)
        × IsFound lvm vg lv t
        × (m ≡ to_message lvm lv)
  find_or_create-IsFound name safe capacity s t m h =
      elim (find_or_create_reply platform volumed name safe capacity s t m h) [
        | inl (seen, same) ↦ client-lookup managed safe s t m seen
        | inr (e, u, missing, code, created) ↦
            client-created managed (creation name safe capacity) u t m created
      ]

  -- What a reply to `create_volume` tells of LVM: the volume of the hashed name is there.
  pub create_volume-IsFound :
      (req : CreateVolumeRequest) (s t : S) (r : CreateVolumeResponse)
      → create_volume platform c (with_extension volumed req) s ≡ (reply r, t)
      → (lv : Volume lvm) × (lvm.name_of (hash_resource platform req.name) ≡ ok lv.name)
        × IsFound lvm vg lv t
        × (r ≡ record { volume = some (process_volume c (to_message lvm lv)) })
  create_volume-IsFound req s t r h =
      let (valid, total, u, m, v, e, free, big, small, made, format, answer) =
        create_volume_reply platform c volumed req s r t h in
      let (lv, named, found, shown) =
        find_or_create-IsFound req.name (hash_resource platform req.name) _ u v m made in
      (
        lv,
        named,
        client-formatted managed (hash_resource platform req.name) v t e lv format named found,
        answer ∙ ap (λ x. record { volume = some (process_volume c x) }) shown,
      )

  deleted_name :
      (safe : String) (lv : Volume lvm) (id : String) (secrets : Map) (t u : S)
      → lvm.name_of safe ≡ ok lv.name
      → Text.is_empty id ≡ false
      → volumed.get_logical_volume (record { identifier = some (Identifier.uuid id) }) t
        ≡ (ok (to_message lvm lv), t)
      → delete_volume platform c
          (with_extension volumed (record { volume_id = id; secrets = secrets }))
          t
        ≡ (reply tt, u)
      → (missing : Status) × (volumed.get_logical_volume
            (record { identifier = some (Identifier.name safe) })
            u
          ≡ (err missing, u))
        × (missing.code ≡ Code.not_found)
  deleted_name safe lv id secrets t u named given lookup deletion =
      let (e, done) =
        delete_volume_reply platform c volumed t (record { volume_id = id; secrets = secrets })
          (to_message lvm lv) t u given lookup deletion in
      client-deleted managed (lvm.show_name lv.name) safe lv.name t u e
        (laws.name_of-show_name lv.name) named done

  -- Over the same: deleting the volume that a `create_volume` just gave, by its identifier, if that
  -- is not empty, and with success, removes it. volumed answers that the hashed name is not found.
  pub delete_volume-create_volume :
      (req : CreateVolumeRequest) (secrets : Map) (v : Messages.Volume) (s t u : S)
      → create_volume platform c (with_extension volumed req) s
        ≡ (reply (record { volume = some v }), t)
      → Text.is_empty v.volume_id ≡ false
      → delete_volume platform c
          (with_extension volumed (record { volume_id = v.volume_id; secrets = secrets }))
          t
        ≡ (reply tt, u)
      → (missing : Status) × (volumed.get_logical_volume
            (record { identifier = some (Identifier.name (hash_resource platform req.name)) })
            u
          ≡ (err missing, u))
        × (missing.code ≡ Code.not_found)
  delete_volume-create_volume req secrets v s t u created given deletion =
      let (lv, named, found, answer) = create_volume-IsFound req s t _ created in
      let same : v.volume_id ≡ lvm.show_uuid lv.uuid = ground (arith, answer) in
      let lookup = (client-found managed lv t found).1 in
      deleted_name (hash_resource platform req.name) lv v.volume_id secrets t u named given
        (rw same lookup) deletion

  free_total :
      (s u : S) (total : ℕ)
      → volumed.get_free_bytes empty s ≡ (ok (record { bytes_free = total }), u)
      → total ≡ free_bytes config vg.capacity_bytes
  free_total s u total h = answered_total (sym h ∙ client-get_free_bytes managed s)

  -- Over the same: if LVM gave the volume of a successful `create_volume` the requested capacity, and
  -- mkfs succeeds once more, then the same request again succeeds with the same reply, and has
  -- formatted the volume once more.
  pub create_volume_twice :
      (req : CreateVolumeRequest) (r : CreateVolumeResponse) (m : LogicalVolume) (e : Empty)
      (s t w : S)
      → create_volume platform c (with_extension volumed req) s ≡ (reply r, t)
      → volumed.get_logical_volume
          (record { identifier = some (Identifier.name (hash_resource platform req.name)) })
          t
        ≡ (ok m, t)
      → m.capacity_bytes ≡ requested_bytes req.capacity_range
      → volumed.format_logical_volume (record { name = hash_resource platform req.name }) t
        ≡ (ok e, w)
      → create_volume platform c (with_extension volumed req) t ≡ (reply r, w)
  create_volume_twice req r m e s t w created lookup exact format =
      let (valid, total, u, n, v, x, free, big, small, made, formatting, answer) =
        create_volume_reply platform c volumed req s r t created in
      let (lv, named, found, shown) = create_volume-IsFound req s t r created in
      let there = client-found_name managed (hash_resource platform req.name) lv t named found in
      let fits = free_total s u total free in
      create_volume_reformats platform c volumed req (free_bytes config vg.capacity_bytes) t t valid
        (client-get_free_bytes managed t) big (rw fits at small) m (ok e) t w lookup exact format
      ∙ ap (λ y. (reply y, w))
          (ap (λ y. record { volume = some (process_volume c y) }) (ok_eq (sym lookup ∙ there))
            ∙ sym shown)
