-- ===== src/Mountd/Config.antt =====
-- crates/mountd/src/lib.rs: the configuration, how its user and group are read, and the check
-- whether a path may be mounted.
pub mod Access
use rlvm.Base.{
  ℕ, ⊤, String, ◌<>◌, Bool, false, not, ◌&&◌, Option, none, some, List, any, ◌==◌, if◌then◌else◌,
}
use rlvm.Base.Number.{decimal}
use rlvm.Host.{Os, Metadata}
use rlvm.Rpc.{Result, ok, err, Program, ◌>>=◌, ◌>>◌, pure, gets, attempt, raise_if}

pub record User : Type 0 where
  pub name : String
  pub uid : ℕ

pub record Group : Type 0 where
  pub name : String
  pub gid : ℕ

pub record Config : Type 0 where
  pub for_user : User
  pub for_group : Group
  pub whitelist : List String

-- `visit_str` of the two visitors: `from_name` is `User::from_name` or `Group::from_name`.
abbrev pub user_from_username : (String → Result String (Option User)) → String → Result String User
user_from_username from_name username = elim (from_name username) [
  | err text ↦ err ("could not get UID from username `" <> username <> "`: " <> text)
  | ok found ↦ elim found [
    | none ↦ err ("could not deduce UID from username `" <> username <> "`: user not found")
    | some user ↦ ok user
  ]
]

abbrev pub group_from_group : (String → Result String (Option Group)) → String → Result String Group
group_from_group from_name group = elim (from_name group) [
  | err text ↦ err ("could not get GID from group `" <> group <> "`: " <> text)
  | ok found ↦ elim found [
    | none ↦ err ("could not deduce GID from group `" <> group <> "`: group not found")
    | some g ↦ ok g
  ]
]

abbrev pub get_owner_pair : Config → ℕ × ℕ
get_owner_pair config = (config.for_user.uid, config.for_group.gid)

abbrev pub is_owner : Config → Metadata → Bool
is_owner config meta = meta.uid == config.for_user.uid && meta.gid == config.for_group.gid

module _ {S F : Type 0} (os : Os S F) where
  -- A pattern that is no glob matches nothing.
  abbrev pub glob_matches : String → String → Bool
  glob_matches path pattern = elim (os.glob pattern) [ err e ↦ false | ok is_match ↦ is_match path ]

  abbrev pub is_whitelisted : Config → String → Bool
  is_whitelisted config path = any (glob_matches path) config.whitelist

  -- The checks of `ensure_interactable` once the metadata is there.
  abbrev pub check_access : Config → String → Bool → Metadata → Program S String ⊤
  check_access config path readonly meta = do
    raise_if (readonly && meta.readonly) ("path is not readonly, but should be: " <> path)
    if is_whitelisted config path
        then pure tt
        else raise_if (not (is_owner config meta)) (
            "mountpoint is not owned by "
            <> config.for_user.name
            <> ":"
            <> config.for_group.name
            <> " -> "
            <> path
            <> " ("
            <> decimal meta.uid
            <> ":"
            <> decimal meta.gid
            <> ")")

  unfoldable pub ensure_interactable : Config → String → Bool → Program S String ⊤
  ensure_interactable config path readonly = do
    exists ← gets (os.path_exists path)
    raise_if (not exists) ("path does not exist: " <> path)
    meta ← attempt (os.metadata path) (λ text. "could not get metadata: " <> text)
    check_access config path readonly meta
