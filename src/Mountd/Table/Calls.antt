-- ===== src/Mountd/Table/Calls.antt =====
-- Sequences of calls of `mount` and `unmount` of crates/mountd/src/server.rs, and the mount table.
use rlvm.Base.{
  ◌≤◌, ◌≡◌, ◌⊎◌, refl, ap, String, Bool, true, false, Option, none, some, List, [], ◌∷◌, inl, inr,
  arith, Bool-cases, ◌&&◌,
}
use rlvm.Base.Int.{ℤ}
use rlvm.Host.{Os, FlagSet}
use rlvm.Host.Paths.{same_path, same_path-same, same_path_refl, contains_path}
use rlvm.Mountd.Config.{Config}
use rlvm.Mountd.Server.{mount, unmount}
use rlvm.Mountd.Server.Mounting.{IsQuiet, ensure_interactable_state}
use rlvm.Mountd.Spec.{Mount, MountRequest, UnmountRequest}
use rlvm.Mountd.Table.{HasTable, mounts_on, contains_path-mounts_on}
use rlvm.Mountd.Table.Effects.{perform_mount-mounts_on, mount-cases, unmount-mounts_on}
use rlvm.Rpc.{ok, reply, Result-cases}

pub data MountCall : Type 0 where
  mounting : MountRequest → MountCall
  unmounting : UnmountRequest → MountCall

-- No path has more than one mount.
abbrev pub IsSingle : List String → Type 0
IsSingle table = (path : String) → mounts_on path table ≤ 1

mounts_on-same :
    (a b : String) (table : List String)
    → same_path a b ≡ true
    → mounts_on a table ≡ mounts_on b table
mounts_on-same a b [] h = refl
mounts_on-same a b (m ∷ ms) h = ground (arith, same_path-same a b m h, mounts_on-same a b ms h)

module _ {S F : Type 0} (os : Os S F) (quiet : IsQuiet os) (tab : HasTable os) (config : Config)
    (fs : FlagSet F) where
  -- The destination of the call, if it has one, is listed as it is written.
  abbrev pub is_plain : MountCall → Bool
  is_plain (mounting req) = elim req.mount [ none ↦ true | some paths ↦ tab.plain paths.dst ]
  is_plain (unmounting req) = tab.plain req.path

  abbrev pub all_plain : List MountCall → Bool
  all_plain [] = true
  all_plain (call ∷ calls) = is_plain call && all_plain calls

  abbrev pub after_mountd : MountCall → S → S
  after_mountd (mounting req) s = (mount os fs config req s).1
  after_mountd (unmounting req) s = (unmount os config req s).1

  abbrev pub after_all : List MountCall → S → S
  after_all [] s = s
  after_all (call ∷ calls) s = after_all calls (after_mountd call s)

  pub mount-IsSingle :
      (paths : Mount) (asked : List ℤ) (s : S)
      → tab.plain paths.dst ≡ true
      → IsSingle (tab.table s)
      → IsSingle (tab.table (mount os fs config (record { mount = some paths; flags = asked }) s).1)
  mount-IsSingle paths asked s plain single path =
      elim (mount-cases os quiet tab config fs paths asked s) [
        | inl same ↦ ground (arith, single path, ap (λ t. mounts_on path (tab.table t)) same)
        | inr (free, same) ↦
            elim (perform_mount-mounts_on os quiet tab config fs paths.src paths.dst asked s path
              plain) [
                | inl left ↦
                    ground (arith, single path, ap (λ t. mounts_on path (tab.table t)) same)
                | inr more ↦ elim (Bool-cases (same_path paths.dst path)) [
                  | inr other ↦
                      ground (arith, single path, ap (λ t. mounts_on path (tab.table t)) same)
                  | inl here ↦ ground (
                    arith,
                    mounts_on-same paths.dst path (tab.table s) here,
                    contains_path-mounts_on (tab.table s) paths.dst,
                    ap (λ t. mounts_on path (tab.table t)) same,
                  )
                ]
              ]
      ]

  no_mount_state :
      (asked : List ℤ) (s : S)
      → (mount os fs config (record { mount = none; flags = asked }) s).1 ≡ s
  unfolding mount
  no_mount_state asked s = ground (arith, tab.listed s)

  any_mount-IsSingle :
      (paths : Option Mount) (asked : List ℤ) (s : S)
      → is_plain (mounting (record { mount = paths; flags = asked })) ≡ true
      → IsSingle (tab.table s)
      → IsSingle (tab.table (mount os fs config (record { mount = paths; flags = asked }) s).1)
  any_mount-IsSingle none asked s plain single path =
      ground (arith, single path, ap (λ t. mounts_on path (tab.table t)) (no_mount_state asked s))
  any_mount-IsSingle (some paths) asked s plain single path =
      mount-IsSingle paths asked s plain single path

  pub unmount-IsSingle :
      (dst : String) (s : S)
      → tab.plain dst ≡ true
      → IsSingle (tab.table s)
      → IsSingle (tab.table (unmount os config (record { path = dst }) s).1)
  unmount-IsSingle dst s plain single path =
      elim (unmount-mounts_on os quiet tab config fs dst s plain) [
        | inl same ↦ ground (arith, single path, ap (mounts_on path) same)
        | inr less ↦ ground (arith, single path, less path)
      ]

  one_call-IsSingle :
      (call : MountCall) (s : S)
      → is_plain call ≡ true
      → IsSingle (tab.table s)
      → IsSingle (tab.table (after_mountd call s))
  one_call-IsSingle (mounting req) s plain single =
      any_mount-IsSingle req.mount req.flags s plain single
  one_call-IsSingle (unmounting req) s plain single = unmount-IsSingle req.path s plain single

  -- A path that was unmounted with success was free before, or the host has unmounted it.
  unmount-reply :
      (path : String) (s t : S)
      → unmount os config (record { path = path }) s ≡ (reply tt, t)
      → ((contains_path (tab.table s) path ≡ false) × (t ≡ s)) ⊎ (os.unmount path s ≡ (ok tt, t))
  unfolding unmount
  unmount-reply path s t done =
      let same = ensure_interactable_state os quiet config path false s in
      elim (Bool-cases (contains_path (tab.table s) path)) [
        | inr free ↦ inl (free, ground (arith, tab.listed s))
        | inl there ↦ elim (Result-cases (os.unmount path s)) [
          | inr (e, u, failed) ↦ inr (ground (arith, tab.listed s, same))
          | inl (u, v, gone) ↦ inr (ground (arith, tab.listed s, same))
        ]
      ]

  -- From a table with one mount at most on a path, its unmounting takes it off.
  pub unmount_once :
      (path : String) (s t : S)
      → tab.plain path ≡ true
      → IsSingle (tab.table s)
      → unmount os config (record { path = path }) s ≡ (reply tt, t)
      → contains_path (tab.table t) path ≡ false
  unmount_once path s t plain single done = elim (unmount-reply path s t done) [
    | inl (free, same) ↦ ground (arith, ap (λ u. contains_path (tab.table u) path) same)
    | inr gone ↦ ground (
      arith,
      tab.unmounted path s t plain gone path,
      single path,
      same_path_refl path,
      contains_path-mounts_on (tab.table t) path,
    )
  ]

  -- On a host that keeps a mount table: if no path has more than one mount, then none has after any
  -- sequence of calls of `mount` and `unmount`, the destinations of which the table lists as they
  -- are written.
  pub mountd_mounts_once :
      (calls : List MountCall) (s : S)
      → all_plain calls ≡ true
      → IsSingle (tab.table s)
      → IsSingle (tab.table (after_all calls s))
  mountd_mounts_once [] s plain single = single
  mountd_mounts_once (call ∷ calls) s plain single =
      mountd_mounts_once calls (after_mountd call s) (ground arith)
        (one_call-IsSingle call s (ground arith) single)

  -- On such a host and from such a table: a path whose unmounting succeeds is no mount point
  -- afterwards, whatever calls were served before.
  pub unmount_frees :
      (calls : List MountCall) (s : S)
      → all_plain calls ≡ true
      → IsSingle (tab.table s)
      → (path : String) (t : S) → tab.plain path ≡ true
      → unmount os config (record { path = path }) (after_all calls s) ≡ (reply tt, t)
      → (os.mountpaths t ≡ (ok (tab.table t), t)) × (contains_path (tab.table t) path ≡ false)
  unmount_frees calls s all single path t plain done = (
    tab.listed t,
    unmount_once path (after_all calls s) t plain (mountd_mounts_once calls s all single) done,
  )
