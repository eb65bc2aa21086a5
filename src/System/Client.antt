-- ===== src/System/Client.antt =====
-- What a client of volumed sees, in terms of the volumes that LVM has.
use mathlib.Core.Path.{subst}
use rlvm.Base.{◌≡◌, refl, sym, ◌∙◌, ap, String, some, inl, inr, arith}
use rlvm.Lvm.{LvmError}
use rlvm.Lvm.Laws.{IsFound, Volume}
use rlvm.Rpc.{
  not_found, Program, Status, Code, reply, ok, err, answer, with_extension, Result-cases,
  Outcome-cases, pure_Result-cases,
}
use rlvm.System.Managed.{Managed}
use rlvm.Volumed.Main.{intercepted, service}
use rlvm.Volumed.Server.{
  free_bytes, to_message, get_logical_volume, create_logical_volume, delete_logical_volume,
  format_logical_volume,
}
use rlvm.Volumed.Server.FreeBytes.{get_free_bytes_exact}
use rlvm.Volumed.Server.Volumes.{create_logical_volume-IsFound, get_logical_volume-IsFound}
use rlvm.Volumed.Spec.{Empty, empty, LogicalVolume, CreateLvRequest, Identifier, VolumeService}

pub answer-eq-ok :
    {S E A : Type 0} (panicked : E) (m : Program S E A) (s : S) {a : A} {t : S}
    → answer panicked m s ≡ (ok a, t)
    → m s ≡ (reply a, t)
answer-eq-ok panicked m s h = elim (Outcome-cases (m s)) [
  | inl (b, u, e) ↦ ground arith
  | inr (inl (e, u, failed)) ↦ ground arith
  | inr (inr (u, crashed)) ↦ ground arith
]

module _ {S : Type 0} (managed : Managed S) where
  open managed use {lvm, laws, mkfs, panicked, config, resource, vg, stable}

  abbrev pub client : VolumeService S
  client = service lvm mkfs panicked config resource

  pub client-get_free_bytes :
      (s : S)
      → client.get_free_bytes empty s
        ≡ (ok (record { bytes_free = free_bytes config vg.capacity_bytes }), s)
  client-get_free_bytes s =
      ground (arith, stable.group s, (get_free_bytes_exact lvm config vg s stable.fits).0)

  -- A volume that is there is found by its name and its identifier.
  pub client-found :
      (lv : Volume lvm) (s : S)
      → IsFound lvm vg lv s
      → (client.get_logical_volume
            (record { identifier = some (Identifier.name (lvm.show_name lv.name)) })
            s
          ≡ (ok (to_message lvm lv), s))
        × (client.get_logical_volume
              (record { identifier = some (Identifier.uuid (lvm.show_uuid lv.uuid)) })
              s
            ≡ (ok (to_message lvm lv), s))
  client-found lv s found =
      let (by_name, by_uuid) = get_logical_volume-IsFound lvm laws vg lv s found in
      (ground (arith, stable.group s, by_name), ground (arith, stable.group s, by_uuid))

  pub client-lookup :
      (text : String) (s t : S) (m : LogicalVolume)
      → client.get_logical_volume (record { identifier = some (Identifier.name text) }) s
        ≡ (ok m, t)
      → (lv : Volume lvm) × (lvm.name_of text ≡ ok lv.name)
        × IsFound lvm vg lv t
        × (m ≡ to_message lvm lv)
  unfolding get_logical_volume
  client-lookup text s t m h = elim (pure_Result-cases (lvm.name_of text)) [
    | inr (e, bad) ↦ ground (arith, stable.group s)
    | inl (n, named) ↦ elim (Result-cases (lvm.find_lv vg.name n s)) [
      | inr (LvmError.not_found e, u, failed) ↦ ground (arith, stable.group s)
      | inr (LvmError.command e, u, failed) ↦ ground (arith, stable.group s)
      | inr (LvmError.other e, u, failed) ↦ ground (arith, stable.group s)
      | inl (lv, u, seen) ↦
          let (same, found) = laws.find_lv-IsFound vg n s u lv seen in
          let end : u ≡ t = ground (arith, stable.group s) in
          (
            lv,
            named ∙ ap ok (sym same),
            subst (IsFound lvm vg lv) end found,
            ground (arith, stable.group s),
          )
    ]
  ]

  pub client-created :
      (req : CreateLvRequest) (s t : S) (m : LogicalVolume)
      → client.create_logical_volume req s ≡ (ok m, t)
      → (lv : Volume lvm) × (lvm.name_of req.name ≡ ok lv.name)
        × IsFound lvm vg lv t
        × (m ≡ to_message lvm lv)
  client-created req s t m h =
      let run : create_logical_volume lvm (with_extension vg req) s ≡ (reply m, t) = ground (
        arith,
        stable.group s,
        answer-eq-ok panicked (intercepted lvm config resource (create_logical_volume lvm) req) s h,
      ) in
      let (n, lv, named, same, found, shown) =
        create_logical_volume-IsFound lvm laws vg req s t m run in
      (lv, named ∙ ap ok (sym same), found, shown)

  pub client-formatted :
      (text : String) (s t : S) (e : Empty) (lv : Volume lvm)
      → client.format_logical_volume (record { name = text }) s ≡ (ok e, t)
      → lvm.name_of text ≡ ok lv.name
      → IsFound lvm vg lv s
      → IsFound lvm vg lv t
  unfolding format_logical_volume
  client-formatted text s t e lv h named found = elim (Result-cases (mkfs lv.path s)) [
    | inr (x, u, failed) ↦ ground (arith, stable.group s)
    | inl (out, u, ran) ↦
        let end : (mkfs lv.path s).1 ≡ t = ground (arith, stable.group s) in
        subst (IsFound lvm vg lv) end (stable.format lv.path s lv found)
  ]

  pub client-found_name :
      (text : String) (lv : Volume lvm) (s : S)
      → lvm.name_of text ≡ ok lv.name
      → IsFound lvm vg lv s
      → client.get_logical_volume (record { identifier = some (Identifier.name text) }) s
        ≡ (ok (to_message lvm lv), s)
  unfolding get_logical_volume
  client-found_name text lv s named found = ground (arith, stable.group s, found.by_name)

  -- What is deleted is not found by any text that reads as its name.
  pub client-deleted :
      (text other : String) (n : lvm.Name) (s t : S) (e : Empty)
      → lvm.name_of text ≡ ok n
      → lvm.name_of other ≡ ok n
      → client.delete_logical_volume (record { name = text }) s ≡ (ok e, t)
      → (missing : Status) × (client.get_logical_volume
            (record { identifier = some (Identifier.name other) })
            t
          ≡ (err missing, t))
        × (missing.code ≡ Code.not_found)
  unfolding delete_logical_volume get_logical_volume
  client-deleted text other n s t e named other_named h =
      elim (Result-cases (lvm.remove_lv vg n s)) [
        | inr (LvmError.not_found x, u, failed) ↦ ground (arith, stable.group s)
        | inr (LvmError.command x, u, failed) ↦ ground (arith, stable.group s)
        | inr (LvmError.other x, u, failed) ↦ ground (arith, stable.group s)
        | inl (done, u, removed) ↦
            let (x, missing) = laws.remove_lv-find_lv vg n s u removed in
            let end : u ≡ t = ground (arith, stable.group s) in
            (not_found x, ground (arith, stable.group t), refl)
      ]
