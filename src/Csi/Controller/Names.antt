-- ===== src/Csi/Controller/Names.antt =====
-- The names under which crates/csi/src/controller.rs keeps volumes in LVM.
use rlvm.Base.{◌≡◌, ◌<◌, ◌↔◌, ap, String}
use rlvm.Base.Int.{word_size}
use rlvm.Base.Number.Hex.{upper_hex-injective}
use rlvm.Base.Number.{upper_hex}
use rlvm.Csi.Controller.Parts.{Platform, hash_resource}

-- If hashes are words, two volumes get the same name exactly if their names have the same hash: printing the hash
-- loses nothing.
pub hash_resource_iff :
    (platform : Platform) (a b : String)
    → platform.hash a < word_size
    → platform.hash b < word_size
    → (hash_resource platform a ≡ hash_resource platform b) ↔ (platform.hash a ≡ platform.hash b)
hash_resource_iff platform a b ha hb =
    (upper_hex-injective (platform.hash a) (platform.hash b) ha hb, ap upper_hex)
