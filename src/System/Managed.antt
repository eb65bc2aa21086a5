-- ===== src/System/Managed.antt =====
-- The host of volumed: a volume group that it manages, over a lawful lvm2_cmd.
use rlvm.Base.{◌≡◌, ◌<◌, String}
use rlvm.Base.Int.{word_size}
use rlvm.Lvm.{Lvm, VolumeGroup}
use rlvm.Lvm.Laws.{IsFound, IsLawful, Volume}
use rlvm.Rpc.{Status, ok}
use rlvm.Volumed.Server.{Config, Mkfs}

-- The managed group is always found, and lookups leave the state. Formatting touches no volume's
-- record.
pub record IsStable {S : Type 0} (lvm : Lvm S) (mkfs : Mkfs S) (resource : lvm.Name)
    (vg : VolumeGroup lvm.Name) : Type 0 where
  pub group : (s : S) → lvm.find_vg resource s ≡ (ok vg, s)
  pub fits : vg.capacity_bytes < word_size
  pub format :
      (path : String) (s : S) (lv : Volume lvm)
      → IsFound lvm vg lv s
      → IsFound lvm vg lv (mkfs path s).1

-- What a running volumed stands on: lvm2_cmd with its laws, mkfs.xfs, the status of a call that
-- panics, the configuration with the name of the group, and the group.
pub record Managed (S : Type 0) : Type 1 where
  pub lvm : Lvm S
  pub laws : IsLawful lvm
  pub mkfs : Mkfs S
  pub panicked : Status
  pub config : Config
  pub resource : lvm.Name
  pub vg : VolumeGroup lvm.Name
  pub stable : IsStable lvm mkfs resource vg
