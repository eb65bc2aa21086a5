-- ===== src/Csi/Controller/CreateVolume/Phases.antt =====
-- `create_volume` of crates/csi/src/controller.rs cut at its `await` points: what one request does
-- between two calls of volumed, so that several requests can be interleaved.
use rlvm.Base.{
  ℕ, zero, suc, ◌≡◌, ◌<>◌, not, some, [], ◌∷◌, ltb, ◌==◌, if◌then◌else◌, is_empty, arith,
}
use rlvm.Base.Number.{decimal}
use rlvm.Base.Text
use rlvm.Csi.Controller.Handlers.{create_volume}
use rlvm.Csi.Controller.Parts.{
  Platform, min_volume_size_bytes, RlvmController, process_volume, hash_resource, is_not_found,
  free_bytes_of, capacity_of, find_or_create,
}
use rlvm.Csi.Spec.Controller.{CreateVolumeRequest, CreateVolumeResponse}
use rlvm.Rpc.{
  Status, invalid_argument, out_of_range, already_exists, ok, err, Action, Outcome, reply, fail,
  panic, ◌>>=◌, ◌>>◌, pure, raise, settle, forward, raise_if, with_extension,
}
use rlvm.Volumed.Spec.{LogicalVolume, Identifier, VolumeService}

-- Where a request stands, with the values that it still needs: before any call, before the lookup,
-- before the creation, before the format, and at its end.
pub data Phase : Type 0 where
  start : Phase
  checked : (capacity : ℕ) → Phase
  missing : (capacity : ℕ) → Phase
  ready : (volume : LogicalVolume) → Phase
  done : (r : Outcome Status CreateVolumeResponse) → Phase

module _ {S : Type 0} (platform : Platform) (c : RlvmController) (client : VolumeService S)
    (req : CreateVolumeRequest) where
  -- Up to the next `await`: an error ends the request.
  abbrev pub pause : {A : Type 0} → (A → Phase) → Outcome Status A × S → Phase × S
  pause next (reply a, s) = (next a, s)
  pause next (fail e, s) = (done (fail e), s)
  pause next (panic, s) = (done panic, s)

  abbrev pub begin : Action S ℕ
  begin = do
    raise_if (Text.is_empty req.name) (invalid_argument "missing volume name")
    raise_if (is_empty req.volume_capabilities) (invalid_argument "missing volume capabilities")
    range ← capacity_of req.capacity_range
    let capacity = range.0
    total_capacity ← free_bytes_of platform client
    raise_if (ltb capacity min_volume_size_bytes) (
        out_of_range (
          "cannot create a volume smaller than the smallest allowed size: "
          <> decimal capacity
          <> " < "
          <> decimal min_volume_size_bytes))
    raise_if (ltb total_capacity capacity) (
        out_of_range (
          "cannot create volume larger than the space available: "
          <> decimal capacity
          <> " > "
          <> decimal total_capacity))
    pure capacity

  abbrev pub look_up : ℕ → Action S Phase
  look_up capacity = do
    volume ← settle (
        client.get_logical_volume
          (record { identifier = some (Identifier.name (hash_resource platform req.name)) }))
    elim volume [
      | ok old ↦
          if not (old.capacity_bytes == capacity)
          then raise (
              already_exists (
                "attempting to create an existing volume with different capacities: found "
                <> platform.debug_volume old
                <> ", "
                <> decimal capacity
                <> " bytes requested"))
          else pure (ready old)
      | err status ↦ if is_not_found status.code then pure (missing capacity) else raise status
    ]

  abbrev create : ℕ → Action S LogicalVolume
  create capacity = forward (
      client.create_logical_volume (record {
        name = hash_resource platform req.name;
        capacity = capacity;
        tags = ("name=" <> req.name) ∷ [];
      }))

  abbrev format : LogicalVolume → Action S CreateVolumeResponse
  format volume = do
    forward (client.format_logical_volume (record { name = hash_resource platform req.name }))
    pure (record { volume = some (process_volume c volume) })

  -- From one `await` to the next. A request that has ended stays as it is.
  unfoldable pub advance : Phase → S → Phase × S
  advance start s = pause checked (begin s)
  advance (checked capacity) s = pause (λ phase. phase) (look_up capacity s)
  advance (missing capacity) s = pause ready (create capacity s)
  advance (ready volume) s = pause (λ r. done (reply r)) (format volume s)
  advance (done r) s = (done r, s)

  abbrev pub run : ℕ → Phase → S → Phase × S
  run zero phase s = (phase, s)
  run (suc n) phase s = let (next, t) = advance phase s in run n next t

  -- A request that is not interleaved with others does what the handler does: its phases are the
  -- handler, cut into at most four parts.
  pub run-create_volume :
      (s : S)
      → run 4 start s ≡ (
        done (create_volume platform c (with_extension client req) s).0,
        (create_volume platform c (with_extension client req) s).1,
      )
  unfolding advance create_volume find_or_create
  run-create_volume s = ground arith
