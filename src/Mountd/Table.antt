-- ===== src/Mountd/Table.antt =====
-- The mount table of the host, as mountd relies on it: what `mountpaths` lists, and how the calls of
-- the host change it.
pub mod Effects
pub mod Calls
pub mod Doubled
pub mod Steps
pub mod Mounting
pub mod Unmounting
pub mod Refines
use rlvm.Base.{
  ℕ, ◌+◌, ◌-◌, ◌<◌, ◌≤◌, ◌≡◌, ⊤, refl, String, Bool, true, false, List, [], ◌∷◌, ◌==◌,
  if◌then◌else◌, arith,
}
use rlvm.Host.{Os}
use rlvm.Host.Paths.{same_path, contains_path}
use rlvm.Rpc.{Result, ok, err}

-- How many of the listed mounts are on the path.
abbrev pub mounts_on : String → List String → ℕ
mounts_on path [] = 0
mounts_on path (m ∷ ms) = (if same_path m path then 1 else 0) + mounts_on path ms

pub contains_path-mounts_on :
    (table : List String) (path : String)
    → contains_path table path ≡ (if mounts_on path table == 0 then false else true)
unfolding contains_path
contains_path-mounts_on [] path = refl
contains_path-mounts_on (m ∷ ms) path = ground (arith, contains_path-mounts_on ms path)

-- `plain` tells the paths that the table lists as they are written: those with no symbolic link in
-- them. A mount on such a path adds it to the table, an unmount takes it off once, and the other
-- calls leave the table, as do those that fail.
pub record HasTable {S F : Type 0} (os : Os S F) : Type 0 where
  pub table : S → List String
  pub plain : String → Bool
  pub listed : (s : S) → os.mountpaths s ≡ (ok (table s), s)
  pub mounted :
      (kind : String) (flags : F) (src dst : String) (s t : S)
      → plain dst ≡ true
      → os.mount kind flags src dst s ≡ (ok tt, t)
      → (path : String)
      → mounts_on path (table t) ≡ mounts_on path (table s) + (if same_path dst path then 1 else 0)
  pub not_mounted :
      (kind : String) (flags : F) (src dst e : String) (s t : S)
      → os.mount kind flags src dst s ≡ (err e, t)
      → table t ≡ table s
  pub unmounted :
      (dst : String) (s t : S)
      → plain dst ≡ true
      → os.unmount dst s ≡ (ok tt, t)
      → (path : String)
      → mounts_on path (table t) ≡ mounts_on path (table s) - (if same_path dst path then 1 else 0)
  pub not_unmounted : (dst e : String) (s t : S) → os.unmount dst s ≡ (err e, t) → table t ≡ table s
  pub chown_table :
      (path : String) (uid gid : ℕ) (s : S) → table (os.chown path uid gid s).1 ≡ table s
  pub create_dir_all_table : (path : String) (s : S) → table (os.create_dir_all path s).1 ≡ table s
  pub remove_dir_table : (path : String) (s : S) → table (os.remove_dir path s).1 ≡ table s
