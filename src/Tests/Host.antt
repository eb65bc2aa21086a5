-- ===== src/Tests/Host.antt =====
-- A host whose state is its list of mount points. "/sealed" is read-only, "/foreign" is another
-- user's, and the owner of what is below "/broken" cannot be changed.
use rlvm.Base.{String, not, Option, none, some, List, [], ◌∷◌, if◌then◌else◌, refl}
use rlvm.Base.Text
use rlvm.Host.{Os, Metadata}
use rlvm.Host.Flags.{Bits}
use rlvm.Lvm.Memory.{Disk}
use rlvm.Mountd.Config.{Config}
use rlvm.Mountd.Server.Mounting.{IsQuiet}
use rlvm.Mountd.Spec.{Mount, MountService}
use rlvm.Rpc.{ok, err}

abbrev pub Mounts : Type 0
Mounts = List String

abbrev dropped : String → Mounts → Mounts
dropped path [] = []
dropped path (m ∷ ms) =
    let rest = dropped path ms in if Text.same_text m path then rest else m ∷ rest

abbrev pub metadata_of : String → Metadata
metadata_of path = record {
  uid = if Text.same_text path "/foreign" then 0 else 1000;
  gid = 1000;
  readonly = Text.same_text path "/sealed";
}

abbrev pub host : Os Mounts Bits
host = record {
  path_exists = λ path s. not (Text.same_text path "/nowhere");
  is_dir = λ path s. not (Text.same_text path "/dev/vg/BEEF");
  metadata = λ path s. (ok (metadata_of path), s);
  glob = λ pattern. ok (λ path. Text.same_text path pattern);
  mountpaths = λ s. (ok s, s);
  mount = λ fs flags src dst s. (ok tt, dst ∷ s);
  unmount = λ path s. (ok tt, dropped path s);
  chown = λ path uid gid s.
      if Text.same_text path "/broken" then (err "not permitted", s) else (ok tt, s);
  create_dir_all = λ path s. (ok tt, s);
  remove_dir = λ path s. (err "not empty", s);
}

pub host-IsQuiet : IsQuiet host
host-IsQuiet = record { metadata_state = λ path s. refl; mountpaths_state = λ s. refl }

abbrev pub config : Config
config = record {
  for_user = record { name = "kube"; uid = 1000 };
  for_group = record { name = "kube"; gid = 1000 };
  whitelist = "/dev/vg/BEEF" ∷ [];
}

abbrev destination : Option Mount → String
destination none = ""
destination (some paths) = paths.dst

-- A mountd that knows one device, and refuses nothing.
abbrev pub mountd : MountService Mounts
mountd = record {
  get_lvm_block_path = λ req s. (ok (record { path = "/dev/vg/BEEF" }), s);
  mount = λ req s. (ok tt, destination req.mount ∷ s);
  unmount = λ req s. (ok tt, dropped req.path s);
}

-- The same on another state, to which nothing happens.
abbrev pub idle_mountd : MountService Disk
idle_mountd = record {
  get_lvm_block_path = λ req s. (ok (record { path = "/dev/vg/BEEF" }), s);
  mount = λ req s. (ok tt, s);
  unmount = λ req s. (ok tt, s);
}
