-- ===== src/System/Store.antt =====
-- The abstract view of the managed group: which volume goes by which name. What lvm2_cmd is relied
-- on beyond Lvm/Laws: calls for one name leave the other names, what fails leaves all, and a name
-- that is taken is not given out again.
use mathlib.Core.Path.{subst}
use rlvm.Base.{
  ◌≡◌, ◌≢◌, ◌↔◌, refl, sym, ◌∙◌, ap, String, Bool, true, false, Option, none, some, inl, inr, arith,
  if◌then◌else◌, Bool-cases, Option-cases,
}
use rlvm.Lvm.{LvmError, LvCreateOptions}
use rlvm.Lvm.Laws.{Volume}
use rlvm.Rpc.{Result, ok, err}
use rlvm.System.Managed.{Managed}

module _ {S : Type 0} (managed : Managed S) where
  open managed use {lvm, laws, mkfs, vg}

  abbrev pub Store : Type 0
  Store = lvm.Name → Option (Volume lvm)

  -- A lookup that shows the volume, or that there is none.
  abbrev pub Shows : Option (Volume lvm) → Result LvmError (Volume lvm) → Type 0
  Shows none r = (text : String) × (r ≡ err (LvmError.not_found text))
  Shows (some lv) r = r ≡ ok lv

  -- The state holds the volumes of the store: a lookup by name shows what the store has, and
  -- changes nothing.
  abbrev pub Represents : S → Store → Type 0
  Represents s volumes =
      (n : lvm.Name)
      → (r : Result LvmError (Volume lvm)) × (lvm.find_lv vg.name n s ≡ (r, s))
        × Shows (volumes n) r

  -- The name is looked up as before.
  abbrev pub SameAt : lvm.Name → S → S → Type 0
  SameAt n s t =
      (r : Result LvmError (Volume lvm))
      → lvm.find_lv vg.name n s ≡ (r, s)
      → lvm.find_lv vg.name n t ≡ (r, t)

  pub record IsSeparate : Type 0 where
    pub same : lvm.Name → lvm.Name → Bool
    pub same_iff : (a b : lvm.Name) → (same a b ≡ true) ↔ (a ≡ b)
    pub add_lv-other :
        (o : LvCreateOptions lvm.Name) (s t : S) (lv : Volume lvm)
        → lvm.add_lv vg o s ≡ (ok lv, t)
        → (n : lvm.Name) → n ≢ o.name
        → SameAt n s t
    pub add_lv-failed :
        (o : LvCreateOptions lvm.Name) (s t : S) (e : LvmError)
        → lvm.add_lv vg o s ≡ (err e, t)
        → (n : lvm.Name) → SameAt n s t
    pub add_lv-taken :
        (o : LvCreateOptions lvm.Name) (s t : S) (old lv : Volume lvm)
        → lvm.find_lv vg.name o.name s ≡ (ok old, s)
        → lvm.add_lv vg o s ≢ (ok lv, t)
    pub remove_lv-other :
        (gone : lvm.Name) (s t : S)
        → lvm.remove_lv vg gone s ≡ (ok tt, t)
        → (n : lvm.Name) → n ≢ gone
        → SameAt n s t
    pub remove_lv-failed :
        (gone : lvm.Name) (s t : S) (e : LvmError)
        → lvm.remove_lv vg gone s ≡ (err e, t)
        → (n : lvm.Name) → SameAt n s t
    pub mkfs_keeps : (path : String) (s : S) (n : lvm.Name) → SameAt n s (mkfs path s).1
    pub list_lvs_state : (s : S) → (lvm.list_lvs vg s).1 ≡ s
    pub find_lv_by_uuid_state : (u : lvm.Uuid) (s : S) → (lvm.find_lv_by_uuid u s).1 ≡ s

  pub Represents-same :
      (s t : S) (volumes : Store)
      → ((n : lvm.Name) → SameAt n s t)
      → Represents s volumes
      → Represents t volumes
  Represents-same s t volumes keeps shown n =
      let (r, found, shows) = shown n in (r, keeps n r found, shows)

  -- The store has exactly the volumes that a lookup finds.
  pub Represents-find_lv :
      (s : S) (volumes : Store) (n : lvm.Name) (lv : Volume lvm)
      → Represents s volumes
      → volumes n ≡ some lv
      → lvm.find_lv vg.name n s ≡ (ok lv, s)
  Represents-find_lv s volumes n lv shown has =
      let (r, found, shows) = shown n in
      let seen : Shows (some lv) r = rw has at shows in found ∙ ap (λ x. (x, s)) seen

  pub find_lv-Represents :
      (s : S) (volumes : Store) (n : lvm.Name) (lv : Volume lvm)
      → Represents s volumes
      → lvm.find_lv vg.name n s ≡ (ok lv, s)
      → volumes n ≡ some lv
  find_lv-Represents s volumes n lv shown seen = elim (Option-cases (volumes n)) [
    | inl free ↦
        let (r, found, shows) = shown n in
        let missing : Shows none r = rw free at shows in let (text, e) = missing in ground arith
    | inr (old, has) ↦
        let again = Represents-find_lv s volumes n old shown has in has ∙ ap some (ground arith)
  ]

  module _ (apart : IsSeparate) where
    -- The store with one entry replaced.
    abbrev pub update : Store → lvm.Name → Option (Volume lvm) → Store
    update volumes n v k = if apart.same k n then v else volumes k

    pub not-same : (a b : lvm.Name) → apart.same a b ≡ false → a ≢ b
    not-same a b h e = ground (arith, (apart.same_iff a b).1 e)

    -- A change at one name, which the store makes too.
    pub Represents-update :
        (s t : S) (volumes : Store) (n : lvm.Name) (v : Option (Volume lvm))
        → ((k : lvm.Name) → k ≢ n → SameAt k s t)
        → (r : Result LvmError (Volume lvm)) → lvm.find_lv vg.name n t ≡ (r, t)
        → Shows v r
        → Represents s volumes
        → Represents t (update volumes n v)
    Represents-update s t volumes n v keeps r found shows shown k =
        elim (Bool-cases (apart.same k n)) [
          | inl same ↦ rw same (
              subst
                (λ j.
                  (x : Result LvmError (Volume lvm)) × (lvm.find_lv vg.name j t ≡ (x, t))
                  × Shows v x)
                (sym ((apart.same_iff k n).0 same)) (r, found, shows))
          | inr other ↦
              let (x, seen, shows_x) = shown k in
              rw other (x, keeps k (not-same k n other) x seen, shows_x)
        ]

    pub Represents-add_lv :
        (o : LvCreateOptions lvm.Name) (s t : S) (volumes : Store) (lv : Volume lvm)
        → lvm.add_lv vg o s ≡ (ok lv, t)
        → Represents s volumes
        → Represents t (update volumes o.name (some lv))
    Represents-add_lv o s t volumes lv added shown =
        Represents-update s t volumes o.name (some lv) (apart.add_lv-other o s t lv added) (ok lv)
          (subst (λ n. lvm.find_lv vg.name n t ≡ (ok lv, t)) (laws.add_lv-name vg o s t lv added)
            (laws.add_lv-IsFound vg o s t lv added).by_name)
          refl shown

    pub Represents-remove_lv :
        (n : lvm.Name) (s t : S) (volumes : Store)
        → lvm.remove_lv vg n s ≡ (ok tt, t)
        → Represents s volumes
        → Represents t (update volumes n none)
    Represents-remove_lv n s t volumes removed shown =
        let (text, missing) = laws.remove_lv-find_lv vg n s t removed in
        Represents-update s t volumes n none (apart.remove_lv-other n s t removed)
          (err (LvmError.not_found text)) missing (text, refl) shown
