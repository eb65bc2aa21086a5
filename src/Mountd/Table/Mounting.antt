-- ===== src/Mountd/Table/Mounting.antt =====
-- `mount` of crates/mountd/src/server.rs against the abstract view, on every branch.
use rlvm.Base.{
  ◌≡◌, ◌≢◌, ◌⊎◌, refl, ap, String, ◌<>◌, true, false, some, List, inl, inr, arith, Bool-cases,
  Option-cases,
}
use mathlib.Core.Path.{subst}
use rlvm.Base.Int.{ℤ}
use rlvm.Base.Text
use rlvm.Host.{Os, FlagSet}
use rlvm.Host.Paths.{contains_path}
use rlvm.Mountd.Config.{Config, ensure_interactable}
use rlvm.Mountd.Server.{mount, check_mount, perform_mount, mount_flags, known_flags}
use rlvm.Mountd.Server.Mounting.{
  IsQuiet, MayMount, check_mount-Replies, check_mount-reply, check_mount_state, mount_again,
}
use rlvm.Mountd.Spec.{Mount, MountFlag}
use rlvm.Mountd.Table.{HasTable, mounts_on}
use rlvm.Rpc.{
  Status, invalid_argument, reply, fail, panic, internal, ok, Result-cases, Outcome-cases,
}
use rlvm.Mountd.Table.Steps.{Added, MountStep, MountRefines, chown_message}

module _ {S F : Type 0} (os : Os S F) (quiet : IsQuiet os) (tab : HasTable os) (config : Config)
    (fs : FlagSet F) where
  check_mount_never-panic :
      (src dst : String) (asked : List ℤ) (s t : S)
      → check_mount os config src dst asked s ≢ (panic, t)
  unfolding check_mount ensure_interactable
  check_mount_never-panic src dst asked s t h = ground arith

  module _ (paths : Mount) (asked : List ℤ) (s : S) where
    -- An allowed call on a free path performs the mount.
    mount_free :
        MayMount os quiet config paths asked s
        → contains_path (tab.table s) paths.dst ≡ false
        → mount os fs config (record { mount = some paths; flags = asked }) s
          ≡ perform_mount os fs config paths.src paths.dst asked s
    unfolding mount
    mount_free may free =
        ground (arith, tab.listed s, check_mount-Replies os quiet config paths asked s may)

    Added-chown :
        (flags : List MountFlag) (u : S)
        → tab.plain paths.dst ≡ true
        → os.mount "xfs" (mount_flags fs flags) paths.src paths.dst s ≡ (ok tt, u)
        → Added os quiet tab config fs paths.dst s
            (os.chown paths.dst config.for_user.uid config.for_group.gid u).1
    Added-chown flags u plain made path = ground (
      arith,
      tab.mounted "xfs" (mount_flags fs flags) paths.src paths.dst s u plain made path,
      ap (mounts_on path) (tab.chown_table paths.dst config.for_user.uid config.for_group.gid u),
    )

    perform_mount-MountRefines :
        tab.plain paths.dst ≡ true
        → MayMount os quiet config paths asked s
        → contains_path (tab.table s) paths.dst ≡ false
        → MountRefines os quiet tab config fs paths asked s
    unfolding perform_mount
    perform_mount-MountRefines plain may free =
        let run = mount_free may free in
        elim (Option-cases (known_flags asked)) [
          | inl unknown ↦
              let e = invalid_argument "invalid mount flag" in
              (fail e, s, ground (arith, run), MountStep.unknown_flag e free unknown refl refl)
          | inr (flags, known) ↦
              let added = Added-chown flags in
              elim (Result-cases (os.mount "xfs" (mount_flags fs flags) paths.src paths.dst s)) [
                | inr (text, t, failed) ↦ (
                  fail (internal ("could not mount request: " <> text)),
                  t,
                  ground (arith, run),
                  MountStep.not_mounted flags text may free failed refl (λ path.
                      ap (mounts_on path) (
                        tab.not_mounted "xfs" (mount_flags fs flags) paths.src paths.dst text s t
                          failed)),
                )
                | inl (done, u, made) ↦
                    elim (Result-cases
                      (os.chown paths.dst config.for_user.uid config.for_group.gid u)) [
                        | inr (text, t, failed) ↦ (
                          fail (internal (chown_message config text)),
                          t,
                          ground (arith, run),
                          MountStep.unowned flags u text may free made failed refl (
                              subst (λ w. Added os quiet tab config fs paths.dst s w)
                                (ap (λ x. x.1) failed) (added u plain made)),
                        )
                        | inl (given, t, owned) ↦ (
                          reply tt,
                          t,
                          ground (arith, run),
                          MountStep.mounted flags u may free made owned refl (
                              subst (λ w. Added os quiet tab config fs paths.dst s w)
                                (ap (λ x. x.1) owned) (added u plain made)),
                        )
                      ]
              ]
        ]

    -- A call either is not allowed and fails, or is allowed.
    mount-allowed :
        ((e : Status) × (¬ MayMount os quiet config paths asked s)
          × (mount os fs config (record { mount = some paths; flags = asked }) s ≡ (fail e, s)))
        ⊎ MayMount os quiet config paths asked s
    unfolding mount
    mount-allowed = elim (Bool-cases (Text.is_empty paths.src)) [
      | inl unnamed ↦ inl (
        invalid_argument "missing required field `src` in mount",
        λ may. ground arith,
        ground (arith, tab.listed s),
      )
      | inr named ↦ elim (Bool-cases (Text.is_empty paths.dst)) [
        | inl nowhere ↦ inl (
          invalid_argument "missing required field `dst` in mount",
          λ may. ground arith,
          ground (arith, tab.listed s),
        )
        | inr somewhere ↦
            let same = check_mount_state os quiet config paths.src paths.dst asked s in
            let allowed = check_mount-Replies os quiet config paths asked s in
            elim (Outcome-cases (check_mount os config paths.src paths.dst asked s)) [
              | inl (done, t, checked) ↦
                  let (src_ok, dst_ok, dir) =
                    check_mount-reply os quiet config paths.src paths.dst asked s t checked in
                  inr (named, somewhere, src_ok, dst_ok, dir)
              | inr (inl (e, t, refused)) ↦
                  inl (e, λ may. ground (arith, allowed may), ground (arith, tab.listed s, same))
              | inr (inr (t, broken)) ↦
                  absurd (check_mount_never-panic paths.src paths.dst asked s t broken)
            ]
      ]
    ]

    mount_already :
        MayMount os quiet config paths asked s
        → contains_path (tab.table s) paths.dst ≡ true
        → mount os fs config (record { mount = some paths; flags = asked }) s ≡ (reply tt, s)
    mount_already may there =
        mount_again os quiet config fs paths asked s (tab.table s) (tab.listed s) may there

    pub mount-MountRefines :
        tab.plain paths.dst ≡ true → MountRefines os quiet tab config fs paths asked s
    mount-MountRefines plain = elim mount-allowed [
      | inl (e, refused, run) ↦ (fail e, s, run, MountStep.not_allowed e refused refl refl)
      | inr may ↦ elim (Bool-cases (contains_path (tab.table s) paths.dst)) [
        | inl there ↦ (reply tt, s, mount_already may there, MountStep.already may there refl refl)
        | inr free ↦ perform_mount-MountRefines plain may free
      ]
    ]
