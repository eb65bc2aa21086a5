-- ===== src/Host.antt =====
-- The operating system and the libraries by which the four programs reach it. Each call reports
-- its error by what the error prints.
pub mod Paths
pub mod Flags
use rlvm.Base.{ℕ, ⊤, String, Bool, List}
use rlvm.Rpc.{Result, Call}

-- The three fields of `std::fs::Metadata` that mountd reads; `readonly` is
-- `permissions().readonly()`.
pub record Metadata : Type 0 where
  pub uid : ℕ
  pub gid : ℕ
  pub readonly : Bool

-- `MountFlags` of sys_mount, a set of bits: `union` is `insert`, and `from_iter` joins by it.
pub record FlagSet (F : Type 0) : Type 0 where
  pub empty : F
  pub bind : F
  pub rdonly : F
  pub nodev : F
  pub nosuid : F
  pub union : F → F → F
  pub contains : F → F → Bool

-- `F` is the type of mount flags. `glob` is `Glob::new` of wax, a pattern being its `is_match`;
-- `mount` takes the file system type, the flags, the source and the destination; `unmount` is
-- with `UnmountFlags::empty()`.
pub record Os (S F : Type 0) : Type 0 where
  pub path_exists : String → S → Bool
  pub is_dir : String → S → Bool
  pub metadata : String → Call S String Metadata
  pub glob : String → Result String (String → Bool)
  pub mountpaths : Call S String (List String)
  pub mount : String → F → String → String → Call S String ⊤
  pub unmount : String → Call S String ⊤
  pub chown : String → ℕ → ℕ → Call S String ⊤
  pub create_dir_all : String → Call S String ⊤
  pub remove_dir : String → Call S String ⊤

-- What the `main` functions use of the standard library, serde_yaml, tokio, tonic and ctrlc.
-- `File` is an open file, `Config` what is read from it, `Service` what is served.
pub record Startup (S File Config Service : Type 0) : Type 0 where
  pub open_file : String → Call S String File
  pub read_config : File → Result String Config
  pub bind : String → Call S String ⊤
  pub set_handler : Call S String ⊤
  pub serve : Service → Call S String ⊤
  pub remove_file : String → Call S String ⊤

pub record Cli : Type 0 where
  pub config : String
  pub socket_path : String
