-- ===== src/Mountd/Table/Effects.antt =====
-- What one call of `mount` or `unmount` of crates/mountd/src/server.rs does to the mount table.
use rlvm.Base.{
  ◌+◌, ◌-◌, ◌≡◌, ◌⊎◌, ap, String, true, false, some, List, inl, inr, arith, if◌then◌else◌,
  Bool-cases, Option-cases,
}
use rlvm.Base.Int.{ℤ}
use rlvm.Base.Text
use rlvm.Host.{Os, FlagSet}
use rlvm.Host.Paths.{same_path, contains_path}
use rlvm.Mountd.Config.{Config, ensure_interactable}
use rlvm.Mountd.Server.{mount, unmount, check_mount, perform_mount, mount_flags, known_flags}
use rlvm.Mountd.Server.Mounting.{IsQuiet, check_mount_state, ensure_interactable_state}
use rlvm.Mountd.Spec.{Mount}
use rlvm.Mountd.Table.{HasTable, mounts_on}
use rlvm.Rpc.{Result-cases, Outcome-cases}

module _ {S F : Type 0} (os : Os S F) (quiet : IsQuiet os) (tab : HasTable os) (config : Config)
    (fs : FlagSet F) where
  -- A mount that is made adds its destination, and one that is not leaves the table.
  pub perform_mount-mounts_on :
      (src dst : String) (asked : List ℤ) (s : S) (path : String)
      → tab.plain dst ≡ true
      → (mounts_on path (tab.table (perform_mount os fs config src dst asked s).1)
          ≡ mounts_on path (tab.table s))
        ⊎ (mounts_on path (tab.table (perform_mount os fs config src dst asked s).1)
            ≡ mounts_on path (tab.table s) + (if same_path dst path then 1 else 0))
  unfolding perform_mount
  perform_mount-mounts_on src dst asked s path plain = elim (Option-cases (known_flags asked)) [
    | inl unknown ↦ inl (ground arith)
    | inr (flags, known) ↦ elim (Result-cases (os.mount "xfs" (mount_flags fs flags) src dst s)) [
      | inr (e, t, failed) ↦ inl (
          ground (
            arith,
            ap (mounts_on path) (tab.not_mounted "xfs" (mount_flags fs flags) src dst e s t failed),
          ))
      | inl (done, t, made) ↦ inr (
          ground (
            arith,
            tab.mounted "xfs" (mount_flags fs flags) src dst s t plain made path,
            ap (mounts_on path) (tab.chown_table dst config.for_user.uid config.for_group.gid t),
          ))
    ]
  ]

  -- A call of `mount` changes nothing, or its destination was free and it is the mount itself.
  pub mount-cases :
      (paths : Mount) (asked : List ℤ) (s : S)
      → ((mount os fs config (record { mount = some paths; flags = asked }) s).1 ≡ s)
        ⊎ ((contains_path (tab.table s) paths.dst ≡ false)
            × ((mount os fs config (record { mount = some paths; flags = asked }) s).1
                ≡ (perform_mount os fs config paths.src paths.dst asked s).1))
  unfolding mount
  mount-cases paths asked s =
      let same = check_mount_state os quiet config paths.src paths.dst asked s in
      elim (Outcome-cases (check_mount os config paths.src paths.dst asked s)) [
        | inr other ↦ inl (ground (arith, tab.listed s, same))
        | inl (u, t, checked) ↦ elim (Bool-cases (contains_path (tab.table s) paths.dst)) [
          | inl mounted ↦ inl (ground (arith, tab.listed s, same))
          | inr free ↦ elim (Bool-cases (Text.is_empty paths.src)) [
            | inl unnamed ↦ inl (ground (arith, tab.listed s))
            | inr named ↦ elim (Bool-cases (Text.is_empty paths.dst)) [
              | inl nowhere ↦ inl (ground (arith, tab.listed s))
              | inr somewhere ↦ inr (free, ground (arith, tab.listed s, same))
            ]
          ]
        ]
      ]

  -- A call of `unmount` leaves the table, or its path was a mount point and is taken off once.
  pub unmount-mounts_on :
      (dst : String) (s : S)
      → tab.plain dst ≡ true
      → (tab.table (unmount os config (record { path = dst }) s).1 ≡ tab.table s)
        ⊎ ((path : String)
            → mounts_on path (tab.table (unmount os config (record { path = dst }) s).1)
              ≡ mounts_on path (tab.table s) - (if same_path dst path then 1 else 0))
  unfolding unmount
  unmount-mounts_on dst s plain =
      let same = ensure_interactable_state os quiet config dst false s in
      elim (Result-cases (os.unmount dst s)) [
        | inr (e, t, failed) ↦
            inl (ground (arith, tab.listed s, same, tab.not_unmounted dst e s t failed))
        | inl (done, t, gone) ↦ elim (Outcome-cases (ensure_interactable os config dst false s)) [
          | inr other ↦ inl (ground (arith, tab.listed s, same))
          | inl (u, v, may) ↦ elim (Bool-cases (contains_path (tab.table s) dst)) [
            | inr free ↦ inl (ground (arith, tab.listed s))
            | inl there ↦ elim (Bool-cases (Text.is_empty dst)) [
              | inl nowhere ↦ inl (ground (arith, tab.listed s))
              | inr somewhere ↦ inr (λ path.
                  ground (arith, tab.listed s, same, tab.unmounted dst s t plain gone path))
            ]
          ]
        ]
      ]
