-- ===== src/Csi/Controller/CreateVolume/Lookup.antt =====
-- Where the volume of a successful `create_volume` comes from.
use rlvm.Base.{ℕ, ◌≡◌, ◌⊎◌, inl, inr, String, some, [], ◌∷◌, ◌<>◌, arith}
use rlvm.Csi.Controller.Parts.{Platform, find_or_create}
use rlvm.Rpc.{Status, Code, ok, err, reply, Result-cases}
use rlvm.Volumed.Spec.{LogicalVolume, CreateLvRequest, Identifier, VolumeService}

abbrev pub creation : String → String → ℕ → CreateLvRequest
creation name safe_name capacity = record {
  name = safe_name;
  capacity = capacity;
  tags = ("name=" <> name) ∷ [];
}

module _ {S : Type 0} (platform : Platform) (client : VolumeService S) where
  -- The volume was there with the requested capacity, or it was not found and has been created.
  pub find_or_create_reply :
      (name safe : String) (capacity : ℕ) (s t : S) (m : LogicalVolume)
      → find_or_create platform client name safe capacity s ≡ (reply m, t)
      → ((client.get_logical_volume (record { identifier = some (Identifier.name safe) }) s
            ≡ (ok m, t))
          × (m.capacity_bytes ≡ capacity))
        ⊎ ((e : Status) × (u : S) × (client.get_logical_volume
                (record { identifier = some (Identifier.name safe) })
                s
              ≡ (err e, u))
            × (e.code ≡ Code.not_found)
            × (client.create_logical_volume (creation name safe capacity) u ≡ (ok m, t)))
  unfolding find_or_create
  find_or_create_reply name safe capacity s t m h =
      elim (Result-cases
        (client.get_logical_volume (record { identifier = some (Identifier.name safe) }) s)) [
          | inl (old, u, seen) ↦ inl (ground arith, ground arith)
          | inr (e, u, missing) ↦ inr (e, u, missing, ground arith, ground arith)
        ]
