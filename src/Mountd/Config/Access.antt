-- ===== src/Mountd/Config/Access.antt =====
-- When `ensure_interactable` of crates/mountd/src/lib.rs accepts a path.
use rlvm.Base.{◌≡◌, String, Bool, true, not, ◌&&◌, ◌||◌, arith}
use rlvm.Host.{Os, Metadata}
use rlvm.Mountd.Config.{Config, is_whitelisted, is_owner, ensure_interactable}
use rlvm.Rpc.{Replies, ok}

-- The access that the check grants, once the path is known to exist.
abbrev pub is_allowed : {S F : Type 0} → Os S F → Config → String → Bool → Metadata → Bool
is_allowed os config path readonly meta =
    not (readonly && meta.readonly) && (is_whitelisted os config path || is_owner config meta)

module _ {S F : Type 0} (os : Os S F) (config : Config) (path : String) (readonly : Bool)
    (s : S) where
  -- Asking for read-only access to a path whose permissions are read-only is always refused, also
  -- for the owner, and for a path on the whitelist.
  pub ensure_interactable_readonly :
      (meta : Metadata) (t : S)
      → os.metadata path s ≡ (ok meta, t)
      → meta.readonly ≡ true
      → ¬ Replies (ensure_interactable os config path true s)
  unfolding ensure_interactable
  ensure_interactable_readonly meta t read locked h = ground arith
