-- ===== src/System/NodeCalls/Freed.antt =====
-- The mount table after a sequence of volume calls of the node: no path has more than one mount,
-- and what is unstaged or unpublished with success is free.
use rlvm.Base.{◌≡◌, ◌∙◌, ap, String, true, false, List, [], ◌∷◌, arith}
use rlvm.Csi.Node.Effects.{looked_up, node_unstage_volume_reply, node_unpublish_volume_reply}
use rlvm.Csi.Node.Handlers.{node_unstage_volume, node_unpublish_volume}
use rlvm.Csi.Spec.Node.{NodeUnstageVolumeRequest, NodeUnpublishVolumeRequest}
use rlvm.Host.Paths.{contains_path}
use rlvm.Mountd.Server.{unmount}
use rlvm.Mountd.Spec.{MountService}
use rlvm.Mountd.Table.{HasTable}
use rlvm.Mountd.Table.Calls.{IsSingle, unmount_once}
use rlvm.Rpc.{ok, reply, with_extension}
use rlvm.System.Client.{answer-eq-ok}
use rlvm.System.MountHost.{MountHost, client}
use rlvm.System.NodeCalls.{NodeCall, all_plain, after_node, after_all}
use rlvm.System.NodeCalls.Single.{Single-node, Single-looked_up}

module _ {S F : Type 0} (host : MountHost S F) (tab : HasTable host.os)
    (lookup_table : (u : host.lvm.Uuid) (s : S)
      → tab.table (host.lvm.find_lv_by_uuid u s).1 ≡ tab.table s) where
  open host use {os, quiet, lvm, fs, config, panicked}

  abbrev mountd : MountService S
  mountd = client host

  -- Over a mountd on a host that keeps a mount table: if no path has more than one mount, then none
  -- has after any sequence of volume calls of the node, the paths of which the table lists as they
  -- are written. In particular a volume that is staged or published again is not mounted twice.
  pub node_mounts_once :
      (calls : List NodeCall) (s : S)
      → all_plain tab.plain calls ≡ true
      → IsSingle (tab.table s)
      → IsSingle (tab.table (after_all host calls s))
  node_mounts_once [] s plain single = single
  node_mounts_once (call ∷ calls) s plain single =
      node_mounts_once calls (after_node host call s) (ground arith)
        (Single-node host tab lookup_table call s (ground arith) single)

  -- No mount point of that path, as the mount table of the state has it.
  abbrev pub IsFree : String → S → Type 0
  IsFree path t =
      (os.mountpaths t ≡ (ok (tab.table t), t)) × (contains_path (tab.table t) path ≡ false)

  module _ (calls : List NodeCall) (s : S) (plain : all_plain tab.plain calls ≡ true)
      (single : IsSingle (tab.table s)) where
    -- Over such a mountd and from such a table: a staging path that is unstaged with success after
    -- any sequence of volume calls of the node is no mount point.
    pub node_unstage_volume-IsFree :
        (req : NodeUnstageVolumeRequest) (t : S)
        → tab.plain req.staging_target_path ≡ true
        → node_unstage_volume os (with_extension mountd req) (after_all host calls s)
          ≡ (reply tt, t)
        → IsFree req.staging_target_path t
    node_unstage_volume-IsFree req t listed done =
        let end = after_all host calls s in
        let u = looked_up os mountd req.volume_id end in
        (
          tab.listed t,
          unmount_once os quiet tab config fs req.staging_target_path u t listed
              (Single-looked_up host tab lookup_table req.volume_id end
                (node_mounts_once calls s plain single))
              (answer-eq-ok panicked (unmount os config (record { path = req.staging_target_path }))
                u (node_unstage_volume_reply os mountd req end t done)),
        )

    -- The same for a target path that is unpublished with success.
    pub node_unpublish_volume-IsFree :
        (req : NodeUnpublishVolumeRequest) (t : S)
        → tab.plain req.target_path ≡ true
        → node_unpublish_volume os (with_extension mountd req) (after_all host calls s)
          ≡ (reply tt, t)
        → IsFree req.target_path t
    node_unpublish_volume-IsFree req t listed done =
        let end = after_all host calls s in
        let u = looked_up os mountd req.volume_id end in
        let (v, gone, same) = node_unpublish_volume_reply os mountd req end t done in
        let free =
          unmount_once os quiet tab config fs req.target_path u v listed
            (Single-looked_up host tab lookup_table req.volume_id end
              (node_mounts_once calls s plain single))
            (answer-eq-ok panicked (unmount os config (record { path = req.target_path })) u
              gone) in
        let kept : tab.table t ≡ tab.table v =
          ap tab.table same ∙ tab.remove_dir_table req.target_path v in
        (tab.listed t, ap (λ m. contains_path m req.target_path) kept ∙ free)
