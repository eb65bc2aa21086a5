-- ===== src/Volumed/Main/Wiring.antt =====
-- The handlers behind the interceptor of crates/volumed/src/main.rs.
use rlvm.Base.{arith}
use rlvm.Lvm.{Lvm}
use rlvm.Rpc.{Panics}
use rlvm.Volumed.Main.{intercepted}
use rlvm.Volumed.Server.{
  Config, Mkfs, get_lv_list, get_free_bytes, create_logical_volume, delete_logical_volume,
  format_logical_volume, get_logical_volume,
}
use rlvm.Volumed.Spec.{Empty, CreateLvRequest, DeleteLvRequest, FormatLvRequest, GetLvRequest}

module _ {S : Type 0} (lvm : Lvm S) (mkfs : Mkfs S) (config : Config) (resource : lvm.Name) where
  -- Behind the interceptor each of the six handlers finds the volume group that it unwraps: no
  -- call of the service panics, whatever the request and the state.
  pub service_never-Panics :
      (s : S) (e : Empty) (c : CreateLvRequest) (d : DeleteLvRequest) (f : FormatLvRequest)
      (g : GetLvRequest)
      → ¬ Panics (intercepted lvm config resource (get_lv_list lvm) e s)
        × ¬ Panics (intercepted lvm config resource (get_free_bytes lvm config) e s)
        × ¬ Panics (intercepted lvm config resource (create_logical_volume lvm) c s)
        × ¬ Panics (intercepted lvm config resource (delete_logical_volume lvm) d s)
        × ¬ Panics (intercepted lvm config resource (format_logical_volume lvm mkfs) f s)
        × ¬ Panics (intercepted lvm config resource (get_logical_volume lvm) g s)
  unfolding get_lv_list get_free_bytes create_logical_volume delete_logical_volume
      format_logical_volume get_logical_volume
  service_never-Panics s e c d f g = (
    λ h. ground arith,
    λ h. ground arith,
    λ h. ground arith,
    λ h. ground arith,
    λ h. ground arith,
    λ h. ground arith,
  )
