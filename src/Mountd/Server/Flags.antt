-- ===== src/Mountd/Server/Flags.antt =====
-- The flags with which `mount` of crates/mountd/src/server.rs mounts.
use rlvm.Base.{
  ◌≡◌, ◌∙◌, Bool, true, false, ◌||◌, some, List, [], ◌∷◌, map, any, arith, Option-cases, inl, inr,
}
use rlvm.Base.Int.{ℤ, pos, negsuc, ◌==◌}
use rlvm.Host.{FlagSet}
use rlvm.Host.Flags.{Bit, bit, same_bit, IsFlagSet}
use rlvm.Mountd.Server.{to_mount_flags, join_flags, mount_flags, known_flags, asks_readonly}
use rlvm.Mountd.Spec.{MountFlag, to_i32, from_i32}

abbrev flag_has : Bit → MountFlag → Bool
flag_has b MountFlag.unknown = false
flag_has b MountFlag.bind = same_bit Bit.bind b
flag_has b MountFlag.read_only = same_bit Bit.rdonly b

module _ {F : Type 0} (fs : FlagSet F) (laws : IsFlagSet fs) where
  contains-to_mount_flags :
      (b : Bit) (flag : MountFlag)
      → fs.contains (to_mount_flags fs flag) (bit fs b) ≡ flag_has b flag
  contains-to_mount_flags b MountFlag.unknown = laws.contains-empty b
  contains-to_mount_flags b MountFlag.bind = laws.contains-bit Bit.bind b
  contains-to_mount_flags b MountFlag.read_only = laws.contains-bit Bit.rdonly b

  contains-join_flags :
      (b : Bit) (flags : List MountFlag)
      → fs.contains (join_flags fs (map (to_mount_flags fs) flags)) (bit fs b)
        ≡ any (flag_has b) flags
  contains-join_flags b [] = laws.contains-empty b
  contains-join_flags b (flag ∷ flags) =
      rw (laws.contains-union, contains-to_mount_flags b flag, contains-join_flags b flags)

  contains-mount_flags :
      (b : Bit) (flags : List MountFlag)
      → fs.contains (mount_flags fs flags) (bit fs b)
        ≡ (any (flag_has b) flags || (same_bit Bit.nodev b || same_bit Bit.nosuid b))
  unfolding mount_flags
  contains-mount_flags b flags = ground (
    arith,
    contains-join_flags b flags,
    laws.contains-union (join_flags fs (map (to_mount_flags fs) flags))
        (join_flags fs (fs.nodev ∷ fs.nosuid ∷ [])) b,
    laws.contains-union fs.nodev (join_flags fs (fs.nosuid ∷ [])) b,
    laws.contains-union fs.nosuid (join_flags fs []) b,
    laws.contains-bit Bit.nodev b,
    laws.contains-bit Bit.nosuid b,
    laws.contains-empty b,
  )

known_flags-any :
    (b : Bit) (number : ℤ) (ns : List ℤ) (flags : List MountFlag)
    → ((n : ℤ) (flag : MountFlag) → from_i32 n ≡ some flag → flag_has b flag ≡ (n == number))
    → known_flags ns ≡ some flags
    → any (flag_has b) flags ≡ any (λ n. n == number) ns
known_flags-any b number [] flags h known = ground arith
known_flags-any b number (n ∷ ns) flags h known = elim (Option-cases (from_i32 n)) [
  | inl unknown ↦ ground arith
  | inr (flag, found) ↦ elim (Option-cases (known_flags ns)) [
    | inl unknown ↦ ground arith
    | inr (rest, known_rest) ↦
        ground (arith, h n flag found, known_flags-any b number ns rest h known_rest)
  ]
]

rdonly_number :
    (n : ℤ) (flag : MountFlag)
    → from_i32 n ≡ some flag
    → flag_has Bit.rdonly flag ≡ (n == to_i32 MountFlag.read_only)
rdonly_number (pos n) flag h = ground arith
rdonly_number (negsuc n) flag h = ground arith

bind_number :
    (n : ℤ) (flag : MountFlag)
    → from_i32 n ≡ some flag
    → flag_has Bit.bind flag ≡ (n == to_i32 MountFlag.bind)
bind_number (pos n) flag h = ground arith
bind_number (negsuc n) flag h = ground arith

-- Whatever flags a request asks for, if they all are known the mount has NODEV and NOSUID; it is
-- read-only exactly if the request says so, and a bind mount exactly if the request says so.
pub mount_flags_exact :
    {F : Type 0} (fs : FlagSet F) (asked : List ℤ) (flags : List MountFlag)
    → IsFlagSet fs
    → known_flags asked ≡ some flags
    → (fs.contains (mount_flags fs flags) fs.nodev ≡ true)
      × (fs.contains (mount_flags fs flags) fs.nosuid ≡ true)
      × (fs.contains (mount_flags fs flags) fs.rdonly ≡ asks_readonly asked)
      × (fs.contains (mount_flags fs flags) fs.bind ≡ any (λ n. n == to_i32 MountFlag.bind) asked)
mount_flags_exact fs asked flags laws known = (
  contains-mount_flags fs laws Bit.nodev flags ∙ ground arith,
  contains-mount_flags fs laws Bit.nosuid flags ∙ ground arith,
  contains-mount_flags fs laws Bit.rdonly flags
      ∙ ground (
        arith,
        known_flags-any Bit.rdonly (to_i32 MountFlag.read_only) asked flags rdonly_number known,
      ),
  contains-mount_flags fs laws Bit.bind flags
      ∙ ground
          (arith, known_flags-any Bit.bind (to_i32 MountFlag.bind) asked flags bind_number known),
)
