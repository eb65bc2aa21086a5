-- ===== src/Mountd/Table/Doubled.antt =====
-- Two requests to mount on one path, that both look at the mount table before either mounts.
use rlvm.Base.{ℕ, ◌+◌, ◌≡◌, ◌∙◌, ap, true, false, some, List, [], ◌∷◌, inl, inr, arith}
use rlvm.Base.Int.{ℤ}
use rlvm.Host.{Os, FlagSet}
use rlvm.Host.Paths.{same_path_refl, contains_path}
use rlvm.Interleaving.{World, serve}
use rlvm.Mountd.Config.{Config}
use rlvm.Mountd.Server.{mount_flags, known_flags, perform_mount, unmount}
use rlvm.Mountd.Server.Mounting.{IsQuiet, MayMount, check_mount-Replies}
use rlvm.Mountd.Server.Phases.{MountPhase, waiting, allowed, over, advance_mount}
use rlvm.Mountd.Spec.{Mount, MountFlag, MountRequest}
use rlvm.Mountd.Table.{HasTable, mounts_on, contains_path-mounts_on}
use rlvm.Mountd.Table.Effects.{unmount-mounts_on}
use rlvm.Rpc.{ok, reply}

-- Both look, then both act.
abbrev pub order : List ℕ
order = 0 ∷ 1 ∷ 0 ∷ 1 ∷ []

module _ {S F : Type 0} (os : Os S F) (quiet : IsQuiet os) (tab : HasTable os) (config : Config)
    (fs : FlagSet F) (paths : Mount) (asked : List ℤ) where
  abbrev req : MountRequest
  req = record { mount = some paths; flags = asked }

  look_run :
      (s : S)
      → MayMount os quiet config paths asked s
      → contains_path (tab.table s) paths.dst ≡ false
      → advance_mount os fs config req waiting s ≡ (allowed paths, s)
  unfolding advance_mount
  look_run s may free =
      ground (arith, tab.listed s, check_mount-Replies os quiet config paths asked s may)

  act_run :
      (flags : List MountFlag) (s t u : S)
      → known_flags asked ≡ some flags
      → os.mount "xfs" (mount_flags fs flags) paths.src paths.dst s ≡ (ok tt, t)
      → os.chown paths.dst config.for_user.uid config.for_group.gid t ≡ (ok tt, u)
      → advance_mount os fs config req (allowed paths) s ≡ (over (reply tt), u)
  unfolding advance_mount perform_mount
  act_run flags s t u known mounted owned = ground arith

  -- A mount and the change of its owner add one to the mounts on the path.
  one_more :
      (flags : List MountFlag) (s t u : S)
      → tab.plain paths.dst ≡ true
      → os.mount "xfs" (mount_flags fs flags) paths.src paths.dst s ≡ (ok tt, t)
      → os.chown paths.dst config.for_user.uid config.for_group.gid t ≡ (ok tt, u)
      → mounts_on paths.dst (tab.table u) ≡ mounts_on paths.dst (tab.table s) + 1
  one_more flags s t u plain mounted owned = ground (
    arith,
    tab.mounted "xfs" (mount_flags fs flags) paths.src paths.dst s t plain mounted paths.dst,
    same_path_refl paths.dst,
    ap (mounts_on paths.dst) (tab.chown_table paths.dst config.for_user.uid config.for_group.gid t),
    ap (λ x. mounts_on paths.dst (tab.table x.1)) owned,
  )

  module _ (flags : List MountFlag) (s t u v w x : S) (plain : tab.plain paths.dst ≡ true)
      (may : MayMount os quiet config paths asked s)
      (free : contains_path (tab.table s) paths.dst ≡ false)
      (known : known_flags asked ≡ some flags)
      (mounted : os.mount "xfs" (mount_flags fs flags) paths.src paths.dst s ≡ (ok tt, t))
      (owned : os.chown paths.dst config.for_user.uid config.for_group.gid t ≡ (ok tt, u))
      (mounted_again : os.mount "xfs" (mount_flags fs flags) paths.src paths.dst u ≡ (ok tt, v))
      (owned_again : os.chown paths.dst config.for_user.uid config.for_group.gid v ≡ (ok tt, w))
      (unmounted : unmount os config (record { path = paths.dst }) w ≡ (reply tt, x)) where
    abbrev served : World S MountPhase
    served =
        serve (λ i. advance_mount os fs config req) order
          (record { state = s; tasks = λ i. waiting })

    abbrev advance : MountPhase → S → MountPhase × S
    advance phase r = advance_mount os fs config req phase r

    first_end : served.tasks 0 ≡ over (reply tt)
    first_end =
        ap (λ a. (advance a.0 (advance waiting a.1).1).0) (look_run s may free)
        ∙ ap (λ b. (advance (allowed paths) b.1).0) (look_run s may free)
        ∙ ap (λ d. d.0) (act_run flags s t u known mounted owned)

    second_end : (served.tasks 1 ≡ over (reply tt)) × (served.state ≡ w)
    second_end =
        let last =
          ap (λ a. advance (advance waiting a.1).0 (advance a.0 (advance waiting a.1).1).1)
            (look_run s may free)
          ∙ ap (λ b. advance b.0 (advance (allowed paths) b.1).1) (look_run s may free)
          ∙ ap (λ d. advance (allowed paths) d.1) (act_run flags s t u known mounted owned)
          ∙ act_run flags u v w known mounted_again owned_again in
        (ap (λ y. y.0) last, ap (λ y. y.1) last)

    two_mounts : mounts_on paths.dst (tab.table w) ≡ 2
    two_mounts = ground (
      arith,
      contains_path-mounts_on (tab.table s) paths.dst,
      one_more flags s t u plain mounted owned,
      one_more flags u v w plain mounted_again owned_again,
    )

    still_there : contains_path (tab.table x) paths.dst ≡ true
    still_there =
        let e = ap (λ y. mounts_on paths.dst (tab.table y.1)) unmounted in
        let seen = contains_path-mounts_on (tab.table x) paths.dst in
        elim (unmount-mounts_on os quiet tab config fs paths.dst w plain) [
          | inl same ↦ ground (arith, two_mounts, e, seen, ap (mounts_on paths.dst) same)
          | inr less ↦ ground (arith, two_mounts, e, seen, less paths.dst)
        ]

    -- On a host that keeps a mount table: two allowed requests to mount on a path that is free may
    -- both look at the table before either mounts. If the mounts and the changes of their owner
    -- then succeed, both requests do, and the path has two mounts: it is still a mount point after
    -- it has been unmounted with success.
    pub double_mount :
        (served.tasks 0 ≡ over (reply tt))
        × (served.tasks 1 ≡ over (reply tt))
        × (mounts_on paths.dst (tab.table served.state) ≡ 2)
        × (contains_path (tab.table x) paths.dst ≡ true)
    double_mount =
        let (second, state) = second_end in
        (
          first_end,
          second,
          ap (λ y. mounts_on paths.dst (tab.table y)) state ∙ two_mounts,
          still_there,
        )
