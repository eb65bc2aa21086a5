-- ===== src/Volumed/Server/Volumes.antt =====
-- What `create_logical_volume` and `delete_logical_volume` of crates/volumed/src/server.rs leave
-- behind, as `get_logical_volume` sees it, over a lawful lvm2_cmd.
use rlvm.Base.{◌≡◌, true, some, inl, inr, arith}
use mathlib.Core.Path.{subst}
use rlvm.Lvm.{Lvm, VolumeGroup, LvCreateOptions}
use rlvm.Lvm.Laws.{IsFound, IsLawful, Volume}
use rlvm.Rpc.{Code, ok, reply, with_extension, Result-cases, pure_Result-cases, FailsWith}
use rlvm.Volumed.Server.{
  create_logical_volume, delete_logical_volume, get_logical_volume, to_message,
}
use rlvm.Volumed.Spec.{empty, LogicalVolume, CreateLvRequest, DeleteLvRequest, Identifier}

module _ {S : Type 0} (lvm : Lvm S) (laws : IsLawful lvm) (vg : VolumeGroup lvm.Name) where
  -- What a reply to a creation tells: the name was read, and the new volume is there.
  pub create_logical_volume-IsFound :
      (req : CreateLvRequest) (s t : S) (m : LogicalVolume)
      → create_logical_volume lvm (with_extension vg req) s ≡ (reply m, t)
      → (n : lvm.Name) × (lv : Volume lvm) × (lvm.name_of req.name ≡ ok n)
        × (lv.name ≡ n)
        × IsFound lvm vg lv t
        × (m ≡ to_message lvm lv)
  unfolding create_logical_volume
  create_logical_volume-IsFound req s t m h =
      elim (pure_Result-cases (lvm.capacity_of req.capacity)) [
        | inr (e, bad) ↦ ground arith
        | inl (size, sized) ↦ elim (pure_Result-cases (lvm.name_of req.name)) [
          | inr (e, bad) ↦ ground arith
          | inl (n, named) ↦
              let o : LvCreateOptions lvm.Name = record {
                activate = true;
                capacity_bytes = size;
                name = n;
                tags = req.tags;
              } in
              elim (Result-cases (lvm.add_lv vg o s)) [
                | inr (e, u, failed) ↦ ground arith
                | inl (lv, u, added) ↦
                    let end : u ≡ t = ground arith in
                    (
                      n,
                      lv,
                      named,
                      laws.add_lv-name vg o s u lv added,
                      subst (IsFound lvm vg lv) end (laws.add_lv-IsFound vg o s u lv added),
                      ground arith,
                    )
              ]
        ]
      ]

  pub get_logical_volume-IsFound :
      (lv : Volume lvm) (t : S)
      → IsFound lvm vg lv t
      → (get_logical_volume lvm
            (with_extension vg
              (record { identifier = some (Identifier.name (lvm.show_name lv.name)) }))
            t
          ≡ (reply (to_message lvm lv), t))
        × (get_logical_volume lvm
              (with_extension vg
                (record { identifier = some (Identifier.uuid (lvm.show_uuid lv.uuid)) }))
              t
            ≡ (reply (to_message lvm lv), t))
  unfolding get_logical_volume
  get_logical_volume-IsFound lv t found = (
    ground (arith, laws.name_of-show_name lv.name, found.by_name),
    ground (arith, laws.uuid_of-show_uuid lv.uuid, found.by_uuid),
  )

  -- Over a lawful lvm2_cmd a volume that was created is found, unchanged, by the name and by the identifier that the
  -- reply carries, and its name is the requested one as lvm2_cmd reads and prints it.
  pub get-create :
      (req : CreateLvRequest) (s t : S) (m : LogicalVolume)
      → create_logical_volume lvm (with_extension vg req) s ≡ (reply m, t)
      → (get_logical_volume lvm
            (with_extension vg (record { identifier = some (Identifier.name m.name) }))
            t
          ≡ (reply m, t))
        × (get_logical_volume lvm
              (with_extension vg (record { identifier = some (Identifier.uuid m.uuid) }))
              t
            ≡ (reply m, t))
        × (n : lvm.Name) × (lvm.name_of req.name ≡ ok n)
        × (m.name ≡ lvm.show_name n)
  get-create req s t m h =
      let (n, lv, named, name_eq, found, answer) = create_logical_volume-IsFound req s t m h in
      let (by_name, by_uuid) = get_logical_volume-IsFound lv t found in
      (rw answer by_name, rw answer by_uuid, n, named, rw (answer, name_eq))

  -- Over a lawful lvm2_cmd, after a deletion the volume is not found by the name that was deleted.
  pub get-delete :
      (req : DeleteLvRequest) (s t : S)
      → delete_logical_volume lvm (with_extension vg req) s ≡ (reply empty, t)
      → let answer =
          get_logical_volume lvm
            (with_extension vg (record { identifier = some (Identifier.name req.name) }))
            t in
        FailsWith Code.not_found answer × (answer.1 ≡ t)
  unfolding delete_logical_volume get_logical_volume
  get-delete req s t h = elim (pure_Result-cases (lvm.name_of req.name)) [
    | inr (e, bad) ↦ ground arith
    | inl (n, named) ↦ elim (Result-cases (lvm.remove_lv vg n s)) [
      | inr (e, u, failed) ↦ ground arith
      | inl (done, u, removed) ↦
          let (text, missing) = laws.remove_lv-find_lv vg n s u removed in ground arith
    ]
  ]
