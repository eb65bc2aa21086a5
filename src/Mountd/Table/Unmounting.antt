-- ===== src/Mountd/Table/Unmounting.antt =====
-- `unmount` of crates/mountd/src/server.rs against the abstract view, on every branch.
use rlvm.Base.{◌≡◌, ◌≢◌, refl, ap, String, ◌<>◌, true, false, inl, inr, arith, Bool-cases}
use rlvm.Base.Text
use rlvm.Host.{Os, FlagSet}
use rlvm.Host.Paths.{contains_path}
use rlvm.Mountd.Config.{Config, ensure_interactable}
use rlvm.Mountd.Server.{unmount}
use rlvm.Mountd.Server.Mounting.{IsQuiet, ensure_interactable_state}
use rlvm.Mountd.Table.{HasTable, mounts_on}
use rlvm.Rpc.{
  invalid_argument, permission_denied, Replies, reply, fail, panic, internal, Result-cases,
  Outcome-cases,
}
use rlvm.Mountd.Table.Steps.{UnmountStep, UnmountRefines}

module _ {S F : Type 0} (os : Os S F) (quiet : IsQuiet os) (tab : HasTable os) (config : Config)
    (fs : FlagSet F) where
  module _ (path : String) (s : S) where
    ensure_interactable_never-panic :
        (t : S) → ensure_interactable os config path false s ≢ (panic, t)
    unfolding ensure_interactable
    ensure_interactable_never-panic t h = ground arith

    -- A mount point to which access is given.
    unmount-there :
        tab.plain path ≡ true
        → Text.is_empty path ≡ false
        → contains_path (tab.table s) path ≡ true
        → Replies (ensure_interactable os config path false s)
        → UnmountRefines os quiet tab config fs path s
    unfolding unmount
    unmount-there plain given there may =
        let same = ensure_interactable_state os quiet config path false s in
        elim (Result-cases (os.unmount path s)) [
          | inr (text, t, failed) ↦ (
            fail (internal ("could not unmount endpoint: " <> text)),
            t,
            ground (arith, tab.listed s, same),
            UnmountStep.not_unmounted text there may failed refl
                (λ p. ap (mounts_on p) (tab.not_unmounted path text s t failed)),
          )
          | inl (done, t, gone) ↦ (
            reply tt,
            t,
            ground (arith, tab.listed s, same),
            UnmountStep.unmounted there may gone refl (λ p. tab.unmounted path s t plain gone p),
          )
        ]

    pub unmount-UnmountRefines :
        tab.plain path ≡ true → UnmountRefines os quiet tab config fs path s
    unfolding unmount
    unmount-UnmountRefines plain =
        let same = ensure_interactable_state os quiet config path false s in
        elim (Bool-cases (Text.is_empty path)) [
          | inl nowhere ↦ (
            fail (invalid_argument "missing required field `path` in unmount"),
            s,
            ground (arith, tab.listed s),
            UnmountStep.no_path nowhere refl refl,
          )
          | inr given ↦ elim (Bool-cases (contains_path (tab.table s) path)) [
            | inr away ↦ (
              reply tt,
              s,
              ground (arith, tab.listed s),
              UnmountStep.nothing_there given away refl refl,
            )
            | inl there ↦ elim (Outcome-cases (ensure_interactable os config path false s)) [
              | inl (done, t, may) ↦ unmount-there plain given there (ground arith)
              | inr (inl (text, t, refused)) ↦
                  let e = permission_denied (
                    "specified mountpoint `" <> path <> "` cannot be unmounted by current config: "
                    <> text) in
                  (
                    fail e,
                    s,
                    ground (arith, tab.listed s, same),
                    UnmountStep.not_allowed e there (λ h. ground arith) refl refl,
                  )
              | inr (inr (t, broken)) ↦ absurd (ensure_interactable_never-panic t broken)
            ]
          ]
        ]
