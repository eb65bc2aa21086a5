-- ===== src/Csi/Controller/CreateVolume/Safety.antt =====
-- What a successful `create_volume` implies, for every client.
use rlvm.Base.Number.{decimal}
use rlvm.Base.{ltb, ◌<>◌, ◌≡◌, sym, ◌∙◌, ◌≤◌, ℕ, true, some, arith, Bool-cases, inl, inr}
use rlvm.Csi.Controller.CreateVolume.{
  is_valid_request, requested_bytes, capacity_of-requested_bytes,
}
use rlvm.Csi.Controller.CreateVolume.Refused.{create_volume_malformed}
use rlvm.Csi.Controller.Handlers.{create_volume}
use rlvm.Csi.Controller.Parts.{
  Platform, RlvmController, min_volume_size_bytes, hash_resource, process_volume, find_or_create,
  free_bytes_of,
}
use rlvm.Csi.Spec.Controller.{CreateVolumeRequest, CreateVolumeResponse}
use rlvm.Rpc.{
  Action, raise_if, out_of_range, forward, pure, ◌>>=◌, ◌>>◌, >>=-eq-reply, ok, reply,
  with_extension, Result-cases, Outcome-cases,
}
use rlvm.Volumed.Spec.{Empty, empty, LogicalVolume, VolumeService}

module _ {S : Type 0} (platform : Platform) (c : RlvmController) (client : VolumeService S)
    (req : CreateVolumeRequest) (s : S) where
  reply-valid :
      (r : CreateVolumeResponse) (w : S)
      → create_volume platform c (with_extension client req) s ≡ (reply r, w)
      → is_valid_request req ≡ true
  reply-valid r w h = elim (Bool-cases (is_valid_request req)) [
    | inl valid ↦ valid
    | inr malformed ↦ ground (arith, create_volume_malformed platform c client req s malformed)
  ]

  -- Past the checks of the request the handler is this.
  abbrev rest : ℕ → ℕ → Action S CreateVolumeResponse
  rest capacity total = do
    raise_if (ltb capacity min_volume_size_bytes) (
        out_of_range (
          "cannot create a volume smaller than the smallest allowed size: "
          <> decimal capacity
          <> " < "
          <> decimal min_volume_size_bytes))
    raise_if (ltb total capacity) (
        out_of_range (
          "cannot create volume larger than the space available: "
          <> decimal capacity
          <> " > "
          <> decimal total))
    volume ← find_or_create platform client req.name (hash_resource platform req.name) capacity
    forward (client.format_logical_volume (record { name = hash_resource platform req.name }))
    pure (record { volume = some (process_volume c volume) })

  create_volume-rest :
      is_valid_request req ≡ true
      → create_volume platform c (with_extension client req) s
        ≡ (free_bytes_of platform client >>= rest (requested_bytes req.capacity_range)) s
  unfolding create_volume
  create_volume-rest valid = ground (arith, capacity_of-requested_bytes req.capacity_range s)

  rest-reply :
      (capacity total : ℕ) (t : S) (r : CreateVolumeResponse) (w : S)
      → rest capacity total t ≡ (reply r, w)
      → (min_volume_size_bytes ≤ capacity)
        × (capacity ≤ total)
        × (lv : LogicalVolume) × (v : S) × (e : Empty) × (find_or_create platform client req.name
              (hash_resource platform req.name)
              capacity
              t
            ≡ (reply lv, v))
        × (client.format_logical_volume (record { name = hash_resource platform req.name }) v
            ≡ (ok e, w))
        × (r ≡ record { volume = some (process_volume c lv) })
  rest-reply capacity total t r w h =
      elim (Outcome-cases
        (find_or_create platform client req.name (hash_resource platform req.name) capacity t)) [
          | inr other ↦ ground arith
          | inl (lv, v, found) ↦
              elim (Result-cases (
                client.format_logical_volume (record { name = hash_resource platform req.name })
                  v)) [
                    | inr (e, u, format) ↦ ground arith
                    | inl (e, u, format) ↦
                        (ground arith, ground arith, lv, v, e, found, ground arith, ground arith)
                  ]
        ]

  free_bytes_of-reply :
      (total : ℕ) (t : S)
      → free_bytes_of platform client s ≡ (reply total, t)
      → client.get_free_bytes empty s ≡ (ok (record { bytes_free = total }), t)
  free_bytes_of-reply total t h = elim (Result-cases (client.get_free_bytes empty s)) [
    | inl (answer, u, free) ↦ ground arith
    | inr (e, u, failed) ↦ ground arith
  ]

  pub create_volume_reply :
      (r : CreateVolumeResponse) (w : S)
      → create_volume platform c (with_extension client req) s ≡ (reply r, w)
      → (is_valid_request req ≡ true)
        × (total : ℕ) × (t : S) × (lv : LogicalVolume) × (v : S) × (e : Empty)
        × (client.get_free_bytes empty s ≡ (ok (record { bytes_free = total }), t))
        × (min_volume_size_bytes ≤ requested_bytes req.capacity_range)
        × (requested_bytes req.capacity_range ≤ total)
        × (find_or_create platform client req.name
              (hash_resource platform req.name)
              (requested_bytes req.capacity_range)
              t
            ≡ (reply lv, v))
        × (client.format_logical_volume (record { name = hash_resource platform req.name }) v
            ≡ (ok e, w))
        × (r ≡ record { volume = some (process_volume c lv) })
  create_volume_reply r w h =
      let valid = reply-valid r w h in
      let run = sym (create_volume-rest valid) ∙ h in
      let (total, t, asked, rest_run) =
        >>=-eq-reply (free_bytes_of platform client) (rest (requested_bytes req.capacity_range)) s
          run in
      let (big, small, lv, v, e, found, format, answer) =
        rest-reply (requested_bytes req.capacity_range) total t r w rest_run in
      (
        valid,
        total,
        t,
        lv,
        v,
        e,
        free_bytes_of-reply total t asked,
        big,
        small,
        found,
        format,
        answer,
      )
