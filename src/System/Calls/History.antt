-- ===== src/System/Calls/History.antt =====
-- What the store can be after any sequence of calls: no volume comes from nowhere, and none goes
-- without a deletion.
use rlvm.Base.{◌≡◌, ◌⊎◌, String, false, some, List, [], ◌∷◌, any, inl, inr, arith}
use rlvm.Csi.Controller.Parts.{Platform, RlvmController, hash_resource}
use rlvm.Lvm.Laws.{Volume}
use rlvm.Rpc.{ok}
use rlvm.System.Calls.{ControllerCall, after_call, after_calls, is_delete}
use rlvm.System.Managed.{Managed}
use rlvm.System.Client.{client}
use rlvm.System.Store.{Store, Represents, IsSeparate, Represents-find_lv, find_lv-Represents}
use rlvm.Volumed.Spec.{VolumeService}
use rlvm.System.Calls.Single.{CreatesAt, Stays, one_call}

module _ {S : Type 0} (managed : Managed S) (apart : IsSeparate managed) (platform : Platform)
    (c : RlvmController) where
  open managed use {lvm, vg}

  abbrev volumed : VolumeService S
  volumed = client managed

  abbrev pub Creates : List ControllerCall → lvm.Name → Type 0
  Creates [] n = ⊥
  Creates (call ∷ calls) n = CreatesAt managed apart platform c call n ⊎ Creates calls n

  -- Each volume was there before, or one of the calls was to create it.
  abbrev pub Comes : List ControllerCall → Store managed → Store managed → Type 0
  Comes calls before after =
      (n : lvm.Name) (lv : Volume lvm) → after n ≡ some lv → (before n ≡ some lv) ⊎ Creates calls n

  -- Any sequence of calls.
  history :
      ((name : String) → (n : lvm.Name) × (lvm.name_of (hash_resource platform name) ≡ ok n))
      → (calls : List ControllerCall) (s : S) (before : Store managed) → Represents managed s before
      → (after : Store managed) × Represents managed (after_calls platform c volumed calls s) after
        × Comes calls before after
        × (any is_delete calls ≡ false → Stays managed apart platform c before after)
  history names [] s before shown = (before, shown, (λ n lv h. inl h), (λ _ n lv h. h))
  history names (call ∷ calls) s before shown =
      let (middle, shown', comes, stays) =
        one_call managed apart platform c names call s before shown in
      let (after, shown'', comes', stays') =
        history names calls (after_call platform c volumed call s) middle shown' in
      (
        after,
        shown'',
        (λ n lv h. elim (comes' n lv h) [
          | inr later ↦ inr (inr later)
          | inl there ↦ elim (comes n lv there) [ inl first ↦ inl first | inr now ↦ inr (inl now) ]
        ]),
        (λ quiet n lv h. stays' (ground arith) n lv (stays (ground arith) n lv h)),
      )

  module _
      (names : (name : String)
        → (n : lvm.Name) × (lvm.name_of (hash_resource platform name) ≡ ok n))
      (calls : List ControllerCall) (s : S) (before : Store managed)
      (shown : Represents managed s before) (n : lvm.Name) (lv : Volume lvm) where
    abbrev end : S
    end = after_calls platform c volumed calls s

    -- Over a lawful lvm2_cmd whose calls for one name leave the others, and that takes every hashed
    -- name, from a state that represents a store: no volume comes from nowhere. What is found by a name after any sequence of calls of
    -- the controller was found there before, unchanged, or one of the calls was to create the
    -- volume of that name.
    pub controller_no_stray :
        lvm.find_lv vg.name n end ≡ (ok lv, end)
        → (lvm.find_lv vg.name n s ≡ (ok lv, s)) ⊎ Creates calls n
    controller_no_stray seen =
        let (after, shown', comes, stays) = history names calls s before shown in
        elim (comes n lv (find_lv-Represents managed end after n lv shown' seen)) [
          | inl first ↦ inl (Represents-find_lv managed s before n lv shown first)
          | inr later ↦ inr later
        ]

    -- Over the same: without a deletion among the calls, a volume that was found by a name is found
    -- by it, unchanged, after any sequence of calls of the controller.
    pub controller_keeps :
        any is_delete calls ≡ false
        → lvm.find_lv vg.name n s ≡ (ok lv, s)
        → lvm.find_lv vg.name n end ≡ (ok lv, end)
    controller_keeps quiet seen =
        let (after, shown', comes, stays) = history names calls s before shown in
        Represents-find_lv managed end after n lv shown'
          (stays quiet n lv (find_lv-Represents managed s before n lv shown seen))
