-- ===== src/Volumed/Server/FreeBytes.antt =====
-- What `get_free_bytes` of crates/volumed/src/server.rs answers.
use Prim.Native.Nat.{min}
use rlvm.Base.{◌+◌, ◌<◌, ◌≡◌, arith}
use rlvm.Base.Int.{word_size}
use rlvm.Lvm.{Lvm, VolumeGroup}
use rlvm.Rpc.{reply, with_extension}
use rlvm.Volumed.Server.{Config, unwrap_or, free_bytes, get_free_bytes}
use rlvm.Volumed.Spec.{empty}

module _ {S : Type 0} (lvm : Lvm S) (config : Config) (vg : VolumeGroup lvm.Name) where
  -- On a group whose capacity fits a word `get_free_bytes` replies with `free_bytes` and changes
  -- nothing, in every state of the host, so whatever volumes the group has; and those bytes and the
  -- spare bytes, cut off at the capacity, make up the capacity: the reply is what the spare bytes
  -- leave of the whole capacity, or 0 if they take all. What the volumes occupy is not taken off.
  pub get_free_bytes_exact :
      (s : S)
      → vg.capacity_bytes < word_size
      → (get_free_bytes lvm config (with_extension vg empty) s
          ≡ (reply (record { bytes_free = free_bytes config vg.capacity_bytes }), s))
        × (free_bytes config vg.capacity_bytes
              + min (unwrap_or config.spare_bytes 0) vg.capacity_bytes
            ≡ vg.capacity_bytes)
  unfolding get_free_bytes
  get_free_bytes_exact s h = (ground arith, ground arith)
