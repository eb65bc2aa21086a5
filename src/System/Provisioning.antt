-- ===== src/System/Provisioning.antt =====
-- From the controller to the node: the volume that `create_volume` made is the one that
-- `node_stage_volume` mounts, on a host where volumed and mountd stand on the same lvm2_cmd.
use rlvm.Base.{
  ◌≡◌, refl, ◌∙◌, ap, String, Bool, true, false, some, List, [], ◌∷◌, if◌then◌else◌, arith,
}
use rlvm.Csi.Controller.Handlers.{create_volume}
use rlvm.Csi.Controller.Parts.{Platform, RlvmController, hash_resource}
use rlvm.Csi.Node.Handlers.{wants_readonly, readonly_flags, node_stage_volume}
use rlvm.Csi.Node.Mounts.{node_stage_volume_mounts}
use rlvm.Csi.Node.Validation.{lacks_stage}
use rlvm.Csi.Spec.Controller.{CreateVolumeRequest}
use rlvm.Csi.Spec.Messages
use rlvm.Csi.Spec.Node.{NodeStageVolumeRequest}
use rlvm.Host.{Os, FlagSet}
use rlvm.Host.Paths.{contains_path}
use rlvm.Lvm.Laws.{Volume}
use rlvm.Mountd.Config.{Config}
use rlvm.Mountd.Server.{mount_flags, known_flags, get_lvm_block_path, service}
use rlvm.Mountd.Server.Mounting.{IsQuiet, MayMount}
use rlvm.Mountd.Server.Ownership.{mount_owned}
use rlvm.Mountd.Spec.{Mount, MountFlag, MountService}
use rlvm.Rpc.{ok, reply, answer, with_extension}
use rlvm.System.Client.{client}
use rlvm.System.Managed.{Managed}
use rlvm.System.Volumes.{create_volume-IsFound}
use rlvm.Volumed.Spec.{VolumeService}

abbrev pub asked_flags : Bool → List MountFlag
asked_flags readonly = if readonly then MountFlag.read_only ∷ [] else []

known_flags-readonly_flags :
    (readonly : Bool) → known_flags (readonly_flags readonly) ≡ some (asked_flags readonly)
known_flags-readonly_flags true = refl
known_flags-readonly_flags false = refl

module _ {S F : Type 0} (managed : Managed S) (platform : Platform) (c : RlvmController)
    (os : Os S F) (quiet : IsQuiet os) (fs : FlagSet F) (config : Config) where
  open managed use {lvm, vg, panicked}

  abbrev volumed : VolumeService S
  volumed = client managed

  abbrev mountd : MountService S
  mountd = service os lvm fs config panicked

  -- mountd finds the device of a volume by the identifier that the controller gave out.
  mountd-device :
      (lv : Volume lvm) (u : S)
      → lvm.find_lv_by_uuid lv.uuid u ≡ (ok lv, u)
      → mountd.get_lvm_block_path (record { uuid = lvm.show_uuid lv.uuid }) u
        ≡ (ok (record { path = lv.path }), u)
  unfolding get_lvm_block_path
  mountd-device lv u there = ground (arith, managed.laws.uuid_of-show_uuid lv.uuid)

  module _ (req : CreateVolumeRequest) (s t : S) (vol : Messages.Volume) (lv : Volume lvm)
      (made : create_volume platform c (with_extension volumed req) s
        ≡ (reply (record { volume = some vol }), t))
      (named : lvm.name_of (hash_resource platform req.name) ≡ ok lv.name)
      (seen : lvm.find_lv vg.name lv.name t ≡ (ok lv, t)) where
    -- The reply's identifier is that of the volume which LVM has under the hashed name.
    created_id : vol.volume_id ≡ lvm.show_uuid lv.uuid
    created_id =
        let (lv', named', found, answer) =
          create_volume-IsFound managed platform c req s t _ made in
        let same_name : lv'.name ≡ lv.name = ground (arith, named, named') in
        let same : lv' ≡ lv =
          ground (arith, found.by_name, seen, ap (λ n. lvm.find_lv vg.name n t) same_name) in
        ground (arith, answer, ap (λ (l : Volume lvm). lvm.show_uuid l.uuid) same)

    -- On a host where volumed and mountd stand on the same lawful lvm2_cmd: after a successful
    -- `create_volume`, a complete call to stage a volume by the identifier of the reply mounts the
    -- device of the very volume that LVM had under the hashed name, with the computed flags, gives
    -- the mount to the user and the group of mountd's configuration, and succeeds. The call may
    -- come in any later state in which LVM still finds that volume by its identifier, where the
    -- device and the staging path exist, mountd's configuration allows the mount, nothing is
    -- mounted on the staging path, and the mount and the change of its owner succeed.
    pub node_stage_volume-create_volume :
        (stage : NodeStageVolumeRequest) (u v w : S) (mounts : List String)
        → stage.volume_id ≡ vol.volume_id
        → lacks_stage stage ≡ false
        → lvm.find_lv_by_uuid lv.uuid u ≡ (ok lv, u)
        → os.path_exists lv.path u ≡ true
        → os.path_exists stage.staging_target_path u ≡ true
        → os.mountpaths u ≡ (ok mounts, u)
        → contains_path mounts stage.staging_target_path ≡ false
        → MayMount os quiet config
            (record { src = lv.path; dst = stage.staging_target_path })
            (readonly_flags (wants_readonly stage.volume_capability))
            u
        → os.mount "xfs"
            (mount_flags fs (asked_flags (wants_readonly stage.volume_capability)))
            lv.path
            stage.staging_target_path
            u
          ≡ (ok tt, v)
        → os.chown stage.staging_target_path config.for_user.uid config.for_group.gid v ≡ (ok tt, w)
        → node_stage_volume os (with_extension mountd stage) u ≡ (reply tt, w)
    node_stage_volume-create_volume stage u v w mounts id full there device path listed free may
          mounted owned =
        let readonly = wants_readonly stage.volume_capability in
        let paths : Mount = record { src = lv.path; dst = stage.staging_target_path } in
        let run =
          mount_owned os quiet config fs paths (readonly_flags readonly) (asked_flags readonly) u v
            w mounts listed may free (known_flags-readonly_flags readonly) mounted owned in
        node_stage_volume_mounts os mountd stage.volume_id (record { path = lv.path }) u u
          (ap (λ i. mountd.get_lvm_block_path (record { uuid = i }) u) (id ∙ created_id)
            ∙ mountd-device lv u there)
          stage (ok tt) w refl full device path (ground (arith, run))
