-- ===== src/System/Views.antt =====
-- The calls of volumed against the abstract view of the group, errors included.
use rlvm.Base.{
  ◌≡◌, ◌⊎◌, refl, ◌∙◌, ap, String, true, some, none, inl, inr, arith, Option, Option-cases,
}
use rlvm.Lvm.{Lvm, LvmError, LvCreateOptions}
use rlvm.Lvm.Laws.{Volume}
use rlvm.Rpc.{
  Status, Code, Result, ok, err, not_found, invalid_argument, Result-cases, pure_Result-cases,
}
use rlvm.System.Managed.{Managed}
use rlvm.System.Client.{client}
use rlvm.System.Store.{
  Store, Shows, Represents, IsSeparate, update, Represents-add_lv, Represents-remove_lv,
  Represents-same,
}
use rlvm.Volumed.Server.{
  to_message, map_lvm_error, get_logical_volume, create_logical_volume, delete_logical_volume,
  format_logical_volume,
}
use rlvm.Volumed.Spec.{Empty, empty, LogicalVolume, Identifier, CreateLvRequest, VolumeService}

module _ {S : Type 0} (lvm : Lvm S) where
  -- What a lookup through volumed answers for a name that the store has, or has not.
  abbrev pub Answered : Option (Volume lvm) → Result Status LogicalVolume → Type 0
  Answered none a = (e : Status) × (a ≡ err e) × (e.code ≡ Code.not_found)
  Answered (some lv) a = a ≡ ok (to_message lvm lv)

module _ {S : Type 0} (managed : Managed S) (apart : IsSeparate managed) where
  open managed use {lvm, laws, mkfs, vg, stable}

  abbrev volumed : VolumeService S
  volumed = client managed

  client_shown :
      (text : String) (n : lvm.Name) (s : S) (v : Option (Volume lvm))
      (r : Result LvmError (Volume lvm))
      → lvm.name_of text ≡ ok n
      → lvm.find_lv vg.name n s ≡ (r, s)
      → Shows managed v r
      → (a : Result Status LogicalVolume) × (volumed.get_logical_volume
            (record { identifier = some (Identifier.name text) })
            s
          ≡ (a, s))
        × Answered lvm v a
  unfolding get_logical_volume
  client_shown text n s none r named found (x, e) =
      (err (not_found x), ground (arith, stable.group s), (not_found x, refl, refl))
  client_shown text n s (some lv) r named found e =
      (ok (to_message lvm lv), ground (arith, stable.group s), refl)

  pub client-Answered :
      (text : String) (n : lvm.Name) (s : S) (volumes : Store managed)
      → lvm.name_of text ≡ ok n
      → Represents managed s volumes
      → (a : Result Status LogicalVolume) × (volumed.get_logical_volume
            (record { identifier = some (Identifier.name text) })
            s
          ≡ (a, s))
        × Answered lvm (volumes n) a
  client-Answered text n s volumes named shown =
      let (r, found, shows) = shown n in client_shown text n s (volumes n) r named found shows

  -- A name under which a volume can be made was free.
  not_taken :
      (o : LvCreateOptions lvm.Name) (s t : S) (volumes : Store managed) (lv : Volume lvm)
      → lvm.add_lv vg o s ≡ (ok lv, t)
      → Represents managed s volumes
      → volumes o.name ≡ none
  not_taken o s t volumes lv added shown = elim (Option-cases (volumes o.name)) [
    | inl free ↦ free
    | inr (old, taken) ↦
        let (r, found, shows) = shown o.name in
        let seen : Shows managed (some old) r = rw taken at shows in
        absurd (apart.add_lv-taken o s t old lv (found ∙ ap (λ x. (x, s)) seen) added)
  ]

  -- A creation either adds a volume of that name to the store, or fails and leaves the store.
  pub client-create :
      (req : CreateLvRequest) (n : lvm.Name) (s : S) (volumes : Store managed)
      → lvm.name_of req.name ≡ ok n
      → Represents managed s volumes
      → ((lv : Volume lvm) × (t : S) × (volumed.create_logical_volume req s
            ≡ (ok (to_message lvm lv), t))
          × (lv.name ≡ n)
          × (volumes n ≡ none)
          × Represents managed t (update managed apart volumes n (some lv)))
        ⊎ ((e : Status) × (t : S) × (volumed.create_logical_volume req s ≡ (err e, t))
            × Represents managed t volumes)
  unfolding create_logical_volume
  client-create req n s volumes named shown =
      elim (pure_Result-cases (lvm.capacity_of req.capacity)) [
        | inr (e, bad) ↦ inr (invalid_argument e, s, ground (arith, stable.group s), shown)
        | inl (size, sized) ↦
            let o : LvCreateOptions lvm.Name = record {
              activate = true;
              capacity_bytes = size;
              name = n;
              tags = req.tags;
            } in
            elim (Result-cases (lvm.add_lv vg o s)) [
              | inr (e, t, failed) ↦ inr (
                map_lvm_error e,
                t,
                ground (arith, stable.group s),
                Represents-same managed s t volumes (apart.add_lv-failed o s t e failed) shown,
              )
              | inl (lv, t, added) ↦ inl (
                lv,
                t,
                ground (arith, stable.group s),
                laws.add_lv-name vg o s t lv added,
                not_taken o s t volumes lv added shown,
                Represents-add_lv managed apart o s t volumes lv added shown,
              )
            ]
      ]

  -- Whatever a format answers, the store stays.
  pub client-format :
      (text : String) (n : lvm.Name) (s : S) (volumes : Store managed)
      → lvm.name_of text ≡ ok n
      → Represents managed s volumes
      → (a : Result Status Empty) × (t : S) × (volumed.format_logical_volume
            (record { name = text })
            s
          ≡ (a, t))
        × Represents managed t volumes
  unfolding format_logical_volume
  client-format text n s volumes named shown =
      let run = volumed.format_logical_volume (record { name = text }) s in
      let (r, found, shows) = shown n in
      elim (pure_Result-cases r) [
        | inr (e, missing) ↦ (run.0, s, ground (arith, stable.group s), shown)
        | inl (lv, seen) ↦ (
          run.0,
          (mkfs lv.path s).1,
          ground (arith, stable.group s),
          Represents-same managed s (mkfs lv.path s).1 volumes (apart.mkfs_keeps lv.path s) shown,
        )
      ]

  -- A format that succeeds has found its volume.
  pub client-format_found :
      (text : String) (n : lvm.Name) (s t : S) (volumes : Store managed) (e : Empty)
      → lvm.name_of text ≡ ok n
      → Represents managed s volumes
      → volumed.format_logical_volume (record { name = text }) s ≡ (ok e, t)
      → (lv : Volume lvm) × (volumes n ≡ some lv)
  unfolding format_logical_volume
  client-format_found text n s t volumes e named shown done = elim (Option-cases (volumes n)) [
    | inr (lv, has) ↦ (lv, has)
    | inl free ↦
        let (r, found, shows) = shown n in
        let missing : Shows managed none r = rw free at shows in
        let (x, is_err) = missing in ground (arith, stable.group s)
  ]

  -- A deletion either takes the name out of the store, or fails and leaves the store.
  pub client-delete :
      (text : String) (n : lvm.Name) (s : S) (volumes : Store managed)
      → lvm.name_of text ≡ ok n
      → Represents managed s volumes
      → ((t : S) × (volumed.delete_logical_volume (record { name = text }) s ≡ (ok empty, t))
          × Represents managed t (update managed apart volumes n none))
        ⊎ ((e : Status) × (t : S) × (volumed.delete_logical_volume (record { name = text }) s
              ≡ (err e, t))
            × Represents managed t volumes)
  unfolding delete_logical_volume
  client-delete text n s volumes named shown = elim (Result-cases (lvm.remove_lv vg n s)) [
    | inr (e, t, failed) ↦ inr (
      map_lvm_error e,
      t,
      ground (arith, stable.group s),
      Represents-same managed s t volumes (apart.remove_lv-failed n s t e failed) shown,
    )
    | inl (done, t, removed) ↦ inl (
      t,
      ground (arith, stable.group s),
      Represents-remove_lv managed apart n s t volumes removed shown,
    )
  ]
