-- ===== src/Csi/Controller/CreateVolume/Advance.antt =====
-- What each part of `create_volume` does, by the answer of its call.
use rlvm.Base.{ℕ, ◌≡◌, refl, ◌⊎◌, inl, inr, ap, some, arith}
use rlvm.Csi.Controller.CreateVolume.Accepted.{formatted}
use rlvm.Csi.Controller.CreateVolume.Lookup.{creation}
use rlvm.Csi.Controller.CreateVolume.Phases.{
  Phase, start, checked, missing, ready, done, begin, look_up, pause, advance,
}
use rlvm.Csi.Controller.Parts.{Platform, RlvmController, hash_resource}
use rlvm.Csi.Spec.Controller.{CreateVolumeRequest, CreateVolumeResponse}
use rlvm.Rpc.{Status, Code, Result, ok, err, reply, fail, Outcome-cases}
use rlvm.Volumed.Spec.{Empty, empty, LogicalVolume, Identifier, VolumeService}

module _ {S : Type 0} (platform : Platform) (c : RlvmController) (client : VolumeService S)
    (req : CreateVolumeRequest) where
  begin_lem :
      (total : ℕ) (s : S)
      → client.get_free_bytes empty s ≡ (ok (record { bytes_free = total }), s)
      → ((k : ℕ) × (begin platform c client req s ≡ (reply k, s)))
        ⊎ ((e : Status) × (begin platform c client req s ≡ (fail e, s)))
  begin_lem total s free = elim (Outcome-cases (begin platform c client req s)) [
    | inl (k, t, run) ↦ inl (k, ground arith)
    | inr (inl (e, t, run)) ↦ inr (e, ground arith)
    | inr (inr (t, run)) ↦ ground arith
  ]

  pub advance-start :
      (total : ℕ) (s : S)
      → client.get_free_bytes empty s ≡ (ok (record { bytes_free = total }), s)
      → ((k : ℕ) × (advance platform c client req start s ≡ (checked k, s)))
        ⊎ ((e : Status) × (advance platform c client req start s ≡ (done (fail e), s)))
  unfolding advance
  advance-start total s free = elim (begin_lem total s free) [
    | inl (k, run) ↦ inl (k, ap (pause platform c client req checked) run)
    | inr (e, run) ↦ inr (e, ap (pause platform c client req checked) run)
  ]

  module _ (k : ℕ) (s t : S) where
    pub advance-found :
        (old : LogicalVolume)
        → client.get_logical_volume
            (record { identifier = some (Identifier.name (hash_resource platform req.name)) })
            s
          ≡ (ok old, t)
        → (advance platform c client req (checked k) s ≡ (ready old, t))
          ⊎ ((e : Status) × (advance platform c client req (checked k) s ≡ (done (fail e), t)))
    unfolding advance
    advance-found old found = elim (Outcome-cases (look_up platform c client req k s)) [
      | inl (p, u, run) ↦ inl (ground arith)
      | inr (inl (e, u, run)) ↦ inr (e, ground arith)
      | inr (inr (u, run)) ↦ ground arith
    ]

    pub advance-not_found :
        (e : Status)
        → client.get_logical_volume
            (record { identifier = some (Identifier.name (hash_resource platform req.name)) })
            s
          ≡ (err e, t)
        → e.code ≡ Code.not_found
        → advance platform c client req (checked k) s ≡ (missing k, t)
    unfolding advance
    advance-not_found e lookup code = ground arith

    pub advance-created :
        (m : LogicalVolume)
        → client.create_logical_volume (creation req.name (hash_resource platform req.name) k) s
          ≡ (ok m, t)
        → advance platform c client req (missing k) s ≡ (ready m, t)
    unfolding advance
    advance-created m run = ground arith

    pub advance-not_created :
        (e : Status)
        → client.create_logical_volume (creation req.name (hash_resource platform req.name) k) s
          ≡ (err e, t)
        → advance platform c client req (missing k) s ≡ (done (fail e), t)
    unfolding advance
    advance-not_created e run = ground arith

    pub advance-formatted :
        (m : LogicalVolume) (a : Result Status Empty)
        → client.format_logical_volume (record { name = hash_resource platform req.name }) s
          ≡ (a, t)
        → advance platform c client req (ready m) s ≡ (done (formatted c m a), t)
    unfolding advance
    advance-formatted m a run = ground arith

  -- A part of the handler that ends with a reply is the last one: the format.
  pub advance-reply :
      (phase : Phase) (s : S) (r : CreateVolumeResponse)
      → (advance platform c client req phase s).0 ≡ done (reply r)
      → (phase ≡ done (reply r)) ⊎ ((m : LogicalVolume) × (phase ≡ ready m))
  unfolding advance
  advance-reply start s r h = elim (Outcome-cases (begin platform c client req s)) [
    | inl (k, t, run) ↦ ground arith
    | inr (inl (e, t, run)) ↦ ground arith
    | inr (inr (t, run)) ↦ ground arith
  ]
  advance-reply (checked k) s r h = ground arith
  advance-reply (missing k) s r h = ground arith
  advance-reply (ready m) s r h = inr (m, refl)
  advance-reply (done q) s r h = inl h
