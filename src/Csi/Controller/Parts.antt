-- ===== src/Csi/Controller/Parts.antt =====
-- crates/csi/src/controller.rs: the parts that the handlers of `RLVMController` share, and the
-- checks that they make.
use rlvm.Base.{
  ℕ, String, ◌<>◌, ◌*◌, Bool, true, false, not, ◌&&◌, Option, none, some, List, [], ◌∷◌, length,
  any, ◌==◌, if◌then◌else◌,
}
use rlvm.Base.Int.{as_i64, try_usize}
use rlvm.Base.Text
use rlvm.Base.Number.{decimal, upper_hex, value, failed, parse_error_text, parse_usize}
use rlvm.Rpc.{
  Status, Code, invalid_argument, already_exists, aborted, internal, ok, err, Action, ◌>>=◌, pure,
  raise, or_raise, attempt, settle, forward,
}
use rlvm.Volumed.Spec.{empty, LogicalVolume, Identifier, VolumeService}
use rlvm.Csi.Spec.Messages.{Map, Mode, mode_number, mode_of, VolumeCapability, Topology, Volume}
use rlvm.Csi.Spec.Controller.{CapacityRange}

-- What the handlers use of the standard library and of tonic that the source does not say: the
-- hash of a text by `DefaultHasher`, how a status and a volume print, and whether the program is
-- built with overflow checks.
pub record Platform : Type 0 where
  pub hash : String → ℕ
  pub show_status : Status → String
  pub debug_volume : LogicalVolume → String
  pub overflow_checks : Bool

abbrev pub min_volume_size_bytes : ℕ
min_volume_size_bytes = 512 * 1024 * 1024

-- `node_id` is the UUID as it prints.
pub record RlvmController : Type 0 where
  pub node_id : String

abbrev pub get_host_topology : RlvmController → Topology
get_host_topology c = record { segments = ("host", c.node_id) ∷ [] }

abbrev pub get_access_topologies : RlvmController → List Topology
get_access_topologies c = get_host_topology c ∷ []

abbrev pub process_volume : RlvmController → LogicalVolume → Volume
process_volume c lv = record {
  capacity_bytes = as_i64 lv.capacity_bytes;
  volume_id = lv.uuid;
  volume_context = ("name", lv.name) ∷ [];
  content_source = none;
  accessible_topology = get_access_topologies c;
}

-- Equality of `HashMap`s.
abbrev pub map_get : String → Map → Option String
map_get k [] = none
map_get k ((j, v) ∷ m) = if Text.same_text k j then some v else map_get k m

abbrev has_entry : Map → String × String → Bool
has_entry m (k, v) = elim (map_get k m) [ none ↦ false | some w ↦ Text.same_text v w ]

abbrev pub map_eq : Map → Map → Bool
map_eq a b = length a == length b && not (any (λ e. not (has_entry b e)) a)

abbrev pub same_topology : Topology → Option Topology → Bool
same_topology t none = false
same_topology t (some u) = map_eq t.segments u.segments

-- `cap.access_mode.unwrap_or_default().mode()`
abbrev pub capability_mode : VolumeCapability → Mode
capability_mode cap = elim (cap.access_mode) [ none ↦ Mode.unknown | some a ↦ mode_of a ]

abbrev pub multi_node_modes : List Mode
multi_node_modes =
    Mode.multi_node_multi_writer ∷ Mode.multi_node_reader_only ∷ Mode.multi_node_single_writer ∷ []

abbrev pub is_multi_node : Mode → Bool
is_multi_node mode = any (λ m. mode_number m == mode_number mode) multi_node_modes

abbrev pub hash_resource : Platform → String → String
hash_resource platform obj = upper_hex (platform.hash obj)

abbrev pub is_not_found : Code → Bool
is_not_found Code.not_found = true
is_not_found _ = false

module _ {S : Type 0} where
  -- The token of `list_volumes`: 0 if it is empty.
  abbrev pub start_of : String → Action S ℕ
  start_of token = if Text.is_empty token then pure 0 else elim (parse_usize token) [
    | value n ↦ pure n
    | failed e ↦
        raise
          (aborted ("`starting_token` must be a valid positive integer: " <> parse_error_text e))
  ]

  abbrev pub free_bytes_of : Platform → VolumeService S → Action S ℕ
  free_bytes_of platform client = do
    answer ←
        attempt (client.get_free_bytes empty)
          (λ e. internal ("could not get_free_bytes from volumed: " <> platform.show_status e))
    pure answer.bytes_free

  -- The requested capacity and the limit, which `create_volume` drops.
  abbrev pub capacity_of : Option CapacityRange → Action S (ℕ × ℕ)
  capacity_of none = pure (min_volume_size_bytes, 0)
  capacity_of (some cap) = do
    size ←
        or_raise (try_usize cap.required_bytes)
          (invalid_argument "capacity must be a valid unsigned int")
    limit ←
        or_raise (try_usize cap.limit_bytes)
          (invalid_argument "limit bytes must be a valid unsigned int")
    pure (size, limit)

  -- The `match volume` of `create_volume`: the volume of that name, or a new one.
  unfoldable pub find_or_create :
      Platform → VolumeService S → String → String → ℕ → Action S LogicalVolume
  find_or_create platform client name safe_name capacity = do
    volume ←
        settle
          (client.get_logical_volume (record { identifier = some (Identifier.name safe_name) }))
    elim volume [
      | ok old ↦
          if not (old.capacity_bytes == capacity)
          then raise (
              already_exists (
                "attempting to create an existing volume with different capacities: found "
                <> platform.debug_volume old
                <> ", "
                <> decimal capacity
                <> " bytes requested"))
          else pure old
      | err status ↦
          if is_not_found status.code
          then forward (
              client.create_logical_volume
                (record { name = safe_name; capacity = capacity; tags = ("name=" <> name) ∷ [] }))
          else raise status
    ]
