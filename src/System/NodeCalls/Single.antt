-- ===== src/System/NodeCalls/Single.antt =====
-- One volume call of the node, and the mount table: no path comes to have more than one mount.
use rlvm.Base.{◌≡◌, sym, String, true, some, List, inl, inr, arith}
use mathlib.Core.Path.{subst}
use rlvm.Base.Int.{ℤ}
use rlvm.Csi.Node.Effects.{
  looked_up, stage_mount, publish_mount, node_stage_volume_state, node_unstage_volume_state,
  node_publish_volume_state, node_unpublish_volume_state,
}
use rlvm.Csi.Spec.Node.{
  NodeStageVolumeRequest, NodeUnstageVolumeRequest, NodePublishVolumeRequest,
  NodeUnpublishVolumeRequest,
}
use rlvm.Mountd.Server.{mount, unmount, get_lvm_block_path}
use rlvm.Mountd.Spec.{Mount, UnmountRequest, MountService}
use rlvm.Mountd.Table.{HasTable}
use rlvm.Mountd.Table.Calls.{IsSingle, mount-IsSingle, unmount-IsSingle}
use rlvm.Rpc.{Status, Action, answer, Outcome-cases, pure_Result-cases}
use rlvm.System.MountHost.{MountHost, client}
use rlvm.System.NodeCalls.{NodeCall, stage, unstage, publish, unpublish, is_plain, after_node}

answer_state :
    {S A : Type 0} (panicked : Status) (m : Action S A) (s : S) → (answer panicked m s).1 ≡ (m s).1
answer_state panicked m s = elim (Outcome-cases (m s)) [
  | inl (a, t, run) ↦ ground arith
  | inr (inl (e, t, run)) ↦ ground arith
  | inr (inr (t, run)) ↦ ground arith
]

module _ {S F : Type 0} (host : MountHost S F) (tab : HasTable host.os)
    (lookup_table : (u : host.lvm.Uuid) (s : S)
      → tab.table (host.lvm.find_lv_by_uuid u s).1 ≡ tab.table s) where
  open host use {os, quiet, lvm, fs, config, panicked}

  abbrev mountd : MountService S
  mountd = client host

  abbrev run : NodeCall → S → S
  run call s = after_node host call s

  abbrev pub Single : S → Type 0
  Single s = IsSingle (tab.table s)

  looked_up_table : (id : String) (s : S) → tab.table (looked_up os mountd id s) ≡ tab.table s
  unfolding get_lvm_block_path
  looked_up_table id s = elim (pure_Result-cases (lvm.uuid_of id)) [
    | inr (e, bad) ↦ ground arith
    | inl (u, read) ↦ ground (arith, lookup_table u s)
  ]

  pub Single-looked_up : (id : String) (s : S) → Single s → Single (looked_up os mountd id s)
  Single-looked_up id s single = subst IsSingle (sym (looked_up_table id s)) single

  Single-mount :
      (paths : Mount) (asked : List ℤ) (s : S)
      → tab.plain paths.dst ≡ true
      → Single s
      → Single (mountd.mount (record { mount = some paths; flags = asked }) s).1
  Single-mount paths asked s plain single =
      subst Single
        (sym (
          answer_state panicked (mount os fs config (record { mount = some paths; flags = asked }))
            s))
        (mount-IsSingle os quiet tab config fs paths asked s plain single)

  Single-unmount :
      (req : UnmountRequest) (s : S)
      → tab.plain req.path ≡ true
      → Single s
      → Single (mountd.unmount req s).1
  Single-unmount req s plain single =
      subst Single (sym (answer_state panicked (unmount os config req) s))
        (unmount-IsSingle os quiet tab config fs req.path s plain single)

  Single-stage :
      (req : NodeStageVolumeRequest) (s : S)
      → tab.plain req.staging_target_path ≡ true
      → Single s
      → Single (run (stage req) s)
  Single-stage req s plain single =
      let looked = Single-looked_up req.volume_id s single in
      elim (node_stage_volume_state os mountd req s) [
        | inl same ↦ subst Single (sym same) single
        | inr (inl same) ↦ subst Single (sym same) looked
        | inr (inr (device, same)) ↦
            let asked = stage_mount os mountd req device in
            subst Single (sym same) (
              Single-mount (record { src = device.path; dst = req.staging_target_path }) asked.flags
                (looked_up os mountd req.volume_id s) plain looked)
      ]

  Single-unstage :
      (req : NodeUnstageVolumeRequest) (s : S)
      → tab.plain req.staging_target_path ≡ true
      → Single s
      → Single (run (unstage req) s)
  Single-unstage req s plain single =
      let looked = Single-looked_up req.volume_id s single in
      elim (node_unstage_volume_state os mountd req s) [
        | inl same ↦ subst Single (sym same) single
        | inr (inl same) ↦ subst Single (sym same) looked
        | inr (inr same) ↦ subst Single (sym same) (
            Single-unmount (record { path = req.staging_target_path })
              (looked_up os mountd req.volume_id s) plain looked)
      ]

  Single-publish :
      (req : NodePublishVolumeRequest) (s : S)
      → tab.plain req.target_path ≡ true
      → Single s
      → Single (run (publish req) s)
  Single-publish req s plain single =
      let u = looked_up os mountd req.volume_id s in
      let looked = Single-looked_up req.volume_id s single in
      let made : Single (os.create_dir_all req.target_path u).1 =
        subst IsSingle (sym (tab.create_dir_all_table req.target_path u)) looked in
      elim (node_publish_volume_state os mountd req s) [
        | inl same ↦ subst Single (sym same) single
        | inr (inl same) ↦ subst Single (sym same) looked
        | inr (inr (inl same)) ↦ subst Single (sym same) made
        | inr (inr (inr same)) ↦ subst Single (sym same) (
            Single-mount (record { src = req.staging_target_path; dst = req.target_path })
              (publish_mount os mountd req).flags (os.create_dir_all req.target_path u).1 plain
              made)
      ]

  Single-unpublish :
      (req : NodeUnpublishVolumeRequest) (s : S)
      → tab.plain req.target_path ≡ true
      → Single s
      → Single (run (unpublish req) s)
  Single-unpublish req s plain single =
      let u = looked_up os mountd req.volume_id s in
      let looked = Single-looked_up req.volume_id s single in
      let gone = Single-unmount (record { path = req.target_path }) u plain looked in
      elim (node_unpublish_volume_state os mountd req s) [
        | inl same ↦ subst Single (sym same) single
        | inr (inl same) ↦ subst Single (sym same) looked
        | inr (inr (inl same)) ↦ subst Single (sym same) gone
        | inr (inr (inr same)) ↦ subst Single (sym same) (
            subst IsSingle
              (sym (
                tab.remove_dir_table req.target_path
                  (mountd.unmount (record { path = req.target_path }) u).1))
              gone)
      ]

  pub Single-node :
      (call : NodeCall) (s : S) → is_plain tab.plain call ≡ true → Single s → Single (run call s)
  Single-node (stage req) s plain single = Single-stage req s plain single
  Single-node (unstage req) s plain single = Single-unstage req s plain single
  Single-node (publish req) s plain single = Single-publish req s plain single
  Single-node (unpublish req) s plain single = Single-unpublish req s plain single
