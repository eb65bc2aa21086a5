-- ===== src/Lvm/Laws.antt =====
-- What volumed relies on of lvm2_cmd: names and identifiers are read back from what they print,
-- a volume that was added is found, one that was removed is not, and looking up changes nothing.
use rlvm.Base.{◌≡◌, String}
use rlvm.Lvm.{Lvm, LvmError, VolumeGroup, LvCreateOptions, LogicalVolume}
use rlvm.Rpc.{ok, err}

module _ {S : Type 0} (lvm : Lvm S) where
  abbrev pub Volume : Type 0
  Volume = LogicalVolume lvm.Name lvm.Uuid

  -- The volume is found by its name and by its identifier, and the lookups leave the state.
  pub record IsFound (vg : VolumeGroup lvm.Name) (lv : Volume) (s : S) : Type 0 where
    pub by_name : lvm.find_lv vg.name lv.name s ≡ (ok lv, s)
    pub by_uuid : lvm.find_lv_by_uuid lv.uuid s ≡ (ok lv, s)

  pub record IsLawful : Type 0 where
    pub name_of-show_name : (n : lvm.Name) → lvm.name_of (lvm.show_name n) ≡ ok n
    pub uuid_of-show_uuid : (u : lvm.Uuid) → lvm.uuid_of (lvm.show_uuid u) ≡ ok u
    pub add_lv-name :
        (vg : VolumeGroup lvm.Name) (o : LvCreateOptions lvm.Name) (s t : S) (lv : Volume)
        → lvm.add_lv vg o s ≡ (ok lv, t)
        → lv.name ≡ o.name
    pub add_lv-IsFound :
        (vg : VolumeGroup lvm.Name) (o : LvCreateOptions lvm.Name) (s t : S) (lv : Volume)
        → lvm.add_lv vg o s ≡ (ok lv, t)
        → IsFound vg lv t
    pub find_lv-IsFound :
        (vg : VolumeGroup lvm.Name) (n : lvm.Name) (s t : S) (lv : Volume)
        → lvm.find_lv vg.name n s ≡ (ok lv, t)
        → (lv.name ≡ n) × IsFound vg lv t
    pub remove_lv-find_lv :
        (vg : VolumeGroup lvm.Name) (n : lvm.Name) (s t : S)
        → lvm.remove_lv vg n s ≡ (ok tt, t)
        → (text : String) × (lvm.find_lv vg.name n t ≡ (err (LvmError.not_found text), t))
