-- ===== src/Csi/Controller/CreateVolume.antt =====
-- What a request to `create_volume` of crates/csi/src/controller.rs asks for, as the theorems about
-- the handler read it: whether it is well formed, and the capacity.
pub mod Refused
pub mod Accepted
pub mod Safety
pub mod Lookup
pub mod Phases
pub mod Advance
use rlvm.Base.{ℕ, ◌≡◌, refl, Bool, true, false, not, ◌&&◌, Option, none, some, arith, is_empty}
use rlvm.Base.Int.{ℤ, pos, negsuc}
use rlvm.Base.Text
use rlvm.Csi.Controller.Parts.{min_volume_size_bytes, capacity_of}
use rlvm.Csi.Spec.Controller.{CapacityRange, CreateVolumeRequest}
use rlvm.Rpc.{reply, Status}

abbrev pub is_natural : ℤ → Bool
is_natural (pos n) = true
is_natural (negsuc n) = false

abbrev pub magnitude : ℤ → ℕ
magnitude (pos n) = n
magnitude (negsuc n) = 0

abbrev pub is_valid_range : Option CapacityRange → Bool
is_valid_range none = true
is_valid_range (some range) = is_natural range.required_bytes && is_natural range.limit_bytes

-- A name, at least one capability, and no negative bound on the capacity.
abbrev pub is_valid_request : CreateVolumeRequest → Bool
is_valid_request req =
    not (Text.is_empty req.name)
    && not (is_empty req.volume_capabilities)
    && is_valid_range req.capacity_range

-- The smallest size, unless the request has a range.
abbrev pub requested_bytes : Option CapacityRange → ℕ
requested_bytes none = min_volume_size_bytes
requested_bytes (some range) = magnitude range.required_bytes

abbrev pub limit_bytes : Option CapacityRange → ℕ
limit_bytes none = 0
limit_bytes (some range) = magnitude range.limit_bytes

pub capacity_of-requested_bytes :
    {S : Type 0} (range : Option CapacityRange) (s : S)
    → is_valid_range range ≡ true
    → capacity_of range s ≡ (reply (requested_bytes range, limit_bytes range), s)
capacity_of-requested_bytes none s h = refl
capacity_of-requested_bytes (some range) s h = ground arith
