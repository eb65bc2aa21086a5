-- ===== src/System/Listing.antt =====
-- `list_volumes` of crates/csi/src/controller.rs against the store of volumes.
use rlvm.Base.{
  ◌<◌, ◌≡◌, ◌↔◌, ◌⊎◌, refl, sym, ◌∙◌, ap, none, some, List, [], ◌∷◌, map, length, inl, inr, arith,
  length-map,
}
use mathlib.Core.Path.{subst}
use rlvm.Base.Int.{pos, word_size}
use rlvm.Csi.Controller.Handlers.{create_volume, list_volumes}
use rlvm.Csi.Controller.ListVolumes.{entry, list_volumes_unlimited}
use rlvm.Csi.Controller.Parts.{Platform, RlvmController, hash_resource, process_volume}
use rlvm.Csi.Spec.Controller.{
  CreateVolumeRequest, CreateVolumeResponse, ListVolumesRequest, ListVolumesResponse, VolumeEntry,
}
use rlvm.Lvm.{Lvm, VolumeGroup}
use rlvm.Lvm.Laws.{Volume}
use rlvm.Rpc.{reply, ok, err, with_extension}
use rlvm.System.Managed.{Managed}
use rlvm.System.Client.{client}
use rlvm.System.Creating.{create_volume-Refines}
use rlvm.System.Creating.Steps.{CreateStep, malformed, outside, conflict, found, made, not_made}
use rlvm.System.Store.{Store, Represents, IsSeparate, Represents-find_lv, find_lv-Represents}
use rlvm.Volumed.Server.{to_message, get_lv_list}
use rlvm.Volumed.Spec.{empty, VolumeService}

-- The list has the element.
abbrev pub IsIn : {A : Type 0} → A → List A → Type 0
IsIn x [] = ⊥
IsIn x (y ∷ ys) = (x ≡ y) ⊎ IsIn x ys

IsIn-map : {A B : Type 0} (f : A → B) (x : A) (xs : List A) → IsIn x xs → IsIn (f x) (map f xs)
IsIn-map f x [] there = absurd there
IsIn-map f x (y ∷ ys) (inl e) = inl (ap f e)
IsIn-map f x (y ∷ ys) (inr there) = inr (IsIn-map f x ys there)

map-IsIn :
    {A B : Type 0} (f : A → B) (y : B) (xs : List A)
    → IsIn y (map f xs)
    → (x : A) × IsIn x xs × (y ≡ f x)
map-IsIn f y [] there = absurd there
map-IsIn f y (x ∷ xs) (inl e) = (x, inl refl, e)
map-IsIn f y (x ∷ xs) (inr there) = let (z, has, e) = map-IsIn f y xs there in (z, inr has, e)

-- LVM lists these volumes: those that it finds by their names.
pub record IsListed {S : Type 0} (lvm : Lvm S) (vg : VolumeGroup lvm.Name) (s : S)
    (lvs : List (Volume lvm)) : Type 0 where
  pub listed : lvm.list_lvs vg s ≡ (ok lvs, s)
  pub complete : (lv : Volume lvm) → (lvm.find_lv vg.name lv.name s ≡ (ok lv, s)) ↔ IsIn lv lvs
  pub few : length lvs < word_size

module _ {S : Type 0} (managed : Managed S) (platform : Platform) (c : RlvmController) where
  open managed use {lvm, laws, vg, stable}

  abbrev volumed : VolumeService S
  volumed = client managed

  client-get_lv_list :
      (s : S) (lvs : List (Volume lvm))
      → lvm.list_lvs vg s ≡ (ok lvs, s)
      → volumed.get_lv_list empty s ≡ (ok (record { volumes = map (to_message lvm) lvs }), s)
  unfolding get_lv_list
  client-get_lv_list s lvs listed = ground (arith, stable.group s)

  -- The request for all volumes.
  abbrev pub everything : ListVolumesRequest
  everything = record { max_entries = pos 0; starting_token = "" }

  -- The entry is of a volume of the store.
  abbrev pub IsEntry : Store managed → VolumeEntry → Type 0
  IsEntry volumes e =
      (n : lvm.Name) × (lv : Volume lvm) × (volumes n ≡ some lv) × (e ≡ entry c (to_message lvm lv))

  listed-IsEntry :
      (s : S) (volumes : Store managed) (lvs : List (Volume lvm))
      → Represents managed s volumes
      → IsListed lvm vg s lvs
      → (e : VolumeEntry) → IsIn e (map (entry c) (map (to_message lvm) lvs))
      → IsEntry volumes e
  listed-IsEntry s volumes lvs shown there e has =
      let (m, has', e') = map-IsIn (entry c) e (map (to_message lvm) lvs) has in
      let (lv, has'', e'') = map-IsIn (to_message lvm) m lvs has' in
      (
        lv.name,
        lv,
        find_lv-Represents managed s volumes lv.name lv shown ((there.complete lv).1 has''),
        e' ∙ ap (entry c) e'',
      )

  IsEntry-listed :
      (s : S) (volumes : Store managed) (lvs : List (Volume lvm))
      → Represents managed s volumes
      → IsListed lvm vg s lvs
      → (e : VolumeEntry) → IsEntry volumes e
      → IsIn e (map (entry c) (map (to_message lvm) lvs))
  IsEntry-listed s volumes lvs shown there e (n, lv, has, same) =
      let found = Represents-find_lv managed s volumes n lv shown has in
      let name : n ≡ lv.name = sym (laws.find_lv-IsFound vg n s s lv found).0 in
      let by_name = subst (λ k. lvm.find_lv vg.name k s ≡ (ok lv, s)) name found in
      subst (λ x. IsIn x (map (entry c) (map (to_message lvm) lvs))) (sym same)
        (IsIn-map (entry c) (to_message lvm lv) (map (to_message lvm) lvs)
          (IsIn-map (to_message lvm) lv lvs ((there.complete lv).0 by_name)))

  -- Over a lawful lvm2_cmd, in a state whose volumes LVM lists: `list_volumes` without a limit
  -- answers with entries that are exactly those of the volumes of the store that the state
  -- represents, and leaves the state.
  pub list_volumes-IsEntry :
      (s : S) (volumes : Store managed) (lvs : List (Volume lvm))
      → Represents managed s volumes
      → IsListed lvm vg s lvs
      → (page : ListVolumesResponse) × (list_volumes platform c
            (with_extension volumed everything)
            s
          ≡ (reply page, s))
        × ((e : VolumeEntry) → IsIn e page.entries ↔ IsEntry volumes e)
  list_volumes-IsEntry s volumes lvs shown there = (
    _,
    list_volumes_unlimited platform c volumed 0 "" s s (map (to_message lvm) lvs) refl
        (client-get_lv_list s lvs there.listed) (omega arith)
        (ground (arith, length-map (to_message lvm) lvs, there.few)),
    λ e. (listed-IsEntry s volumes lvs shown there e, IsEntry-listed s volumes lvs shown there e),
  )

  module _ (apart : IsSeparate managed) where
    -- A call that replies has its volume in the store.
    step-reply :
        (req : CreateVolumeRequest) (n : lvm.Name) (s : S) (before after : Store managed)
        (r : CreateVolumeResponse) (t : S)
        → CreateStep managed apart platform c req n s before after (reply r) t
        → (lv : Volume lvm) × (after n ≡ some lv)
          × (r ≡ record { volume = some (process_volume c (to_message lvm lv)) })
    step-reply req n s before after r t (malformed bad (e, failed, code) same kept) = ground arith
    step-reply req n s before after r t (outside valid range (e, failed, code) same kept) =
        ground arith
    step-reply req n s before after r t
          (conflict old within has differ (e, failed, code) same kept) =
        ground arith
    step-reply req n s before after r t (found old within has equal (ok f, format, answer) same) =
        (old, ap (λ v. v n) same ∙ has, ground arith)
    step-reply req n s before after r t (found old within has equal (err e, format, answer) same) =
        ground arith
    step-reply req n s before after r t
          (made lv u within free name run (ok f, format, answer) same) =
        (lv, ap (λ v. v n) same ∙ rw ((apart.same_iff n n).1 refl), ground arith)
    step-reply req n s before after r t
          (made lv u within free name run (err e, format, answer) same) =
        ground arith
    step-reply req n s before after r t (not_made e within free run failed same) = ground arith

    -- Over a lawful lvm2_cmd whose calls for one name leave the others: after a successful
    -- `create_volume`, `list_volumes` without a limit has the volume of the reply among its
    -- entries, as it was replied, if LVM lists its volumes in that state.
    pub list_volumes-create_volume :
        (req : CreateVolumeRequest) (n : lvm.Name) (s t : S) (before : Store managed)
        (r : CreateVolumeResponse) (lvs : List (Volume lvm))
        → lvm.name_of (hash_resource platform req.name) ≡ ok n
        → Represents managed s before
        → create_volume platform c (with_extension volumed req) s ≡ (reply r, t)
        → IsListed lvm vg t lvs
        → (page : ListVolumesResponse) × (list_volumes platform c
              (with_extension volumed everything)
              t
            ≡ (reply page, t))
          × IsIn (record { volume = r.volume; status = none }) page.entries
    list_volumes-create_volume req n s t before r lvs named shown done there =
        let (after, r', t', run, shown', step) =
          create_volume-Refines managed apart platform c req n s before named shown in
        let e : (r', t') ≡ (reply r, t) = sym run ∙ done in
        let replied =
          subst (λ x. CreateStep managed apart platform c req n s before after x.0 x.1) e step in
        let (lv, has, answer) = step-reply req n s before after r t replied in
        let (page, listing, entries) =
          list_volumes-IsEntry t after lvs (subst (λ x. Represents managed x.1 after) e shown')
            there in
        (
          page,
          listing,
          (entries (record { volume = r.volume; status = none })).1
              (n, lv, has, ap (λ x. record { volume = x.volume; status = none }) answer),
        )
