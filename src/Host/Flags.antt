-- ===== src/Host/Flags.antt =====
-- What mountd relies on of `MountFlags` of sys_mount: it is a set of bits.
use rlvm.Base.{◌≡◌, Bool, true, false, ◌||◌, ◌&&◌, arith}
use rlvm.Host.{FlagSet}

pub data Bit : Type 0 where
  bind rdonly nodev nosuid : Bit

abbrev pub same_bit : Bit → Bit → Bool
same_bit Bit.bind Bit.bind = true
same_bit Bit.rdonly Bit.rdonly = true
same_bit Bit.nodev Bit.nodev = true
same_bit Bit.nosuid Bit.nosuid = true
same_bit a b = false

abbrev pub bit : {F : Type 0} → FlagSet F → Bit → F
bit fs Bit.bind = fs.bind
bit fs Bit.rdonly = fs.rdonly
bit fs Bit.nodev = fs.nodev
bit fs Bit.nosuid = fs.nosuid

pub record IsFlagSet {F : Type 0} (fs : FlagSet F) : Type 0 where
  pub contains-empty : (b : Bit) → fs.contains fs.empty (bit fs b) ≡ false
  pub contains-bit : (a b : Bit) → fs.contains (bit fs a) (bit fs b) ≡ same_bit a b
  pub contains-union :
      (f g : F) (b : Bit)
      → fs.contains (fs.union f g) (bit fs b)
        ≡ (fs.contains f (bit fs b) || fs.contains g (bit fs b))

-- The flags as four Booleans.
pub record Bits : Type 0 where
  pub has_bind : Bool
  pub has_rdonly : Bool
  pub has_nodev : Bool
  pub has_nosuid : Bool

abbrev includes : Bool → Bool → Bool
includes has true = has
includes has false = true

abbrev pub bits : FlagSet Bits
bits = record {
  empty = record { has_bind = false; has_rdonly = false; has_nodev = false; has_nosuid = false };
  bind = record { has_bind = true; has_rdonly = false; has_nodev = false; has_nosuid = false };
  rdonly = record { has_bind = false; has_rdonly = true; has_nodev = false; has_nosuid = false };
  nodev = record { has_bind = false; has_rdonly = false; has_nodev = true; has_nosuid = false };
  nosuid = record { has_bind = false; has_rdonly = false; has_nodev = false; has_nosuid = true };
  union = λ f g. record {
    has_bind = f.has_bind || g.has_bind;
    has_rdonly = f.has_rdonly || g.has_rdonly;
    has_nodev = f.has_nodev || g.has_nodev;
    has_nosuid = f.has_nosuid || g.has_nosuid;
  };
  contains = λ f g.
      includes f.has_bind g.has_bind
      && includes f.has_rdonly g.has_rdonly
      && includes f.has_nodev g.has_nodev
      && includes f.has_nosuid g.has_nosuid;
}

bits-contains-empty : (b : Bit) → bits.contains bits.empty (bit bits b) ≡ false
bits-contains-empty b = ground arith

bits-contains-bit : (a b : Bit) → bits.contains (bit bits a) (bit bits b) ≡ same_bit a b
bits-contains-bit a b = ground arith

bits-contains-union :
    (f g : Bits) (b : Bit)
    → bits.contains (bits.union f g) (bit bits b)
      ≡ (bits.contains f (bit bits b) || bits.contains g (bit bits b))
bits-contains-union f g b = ground arith

pub bits-IsFlagSet : IsFlagSet bits
bits-IsFlagSet = record {
  contains-empty = bits-contains-empty;
  contains-bit = bits-contains-bit;
  contains-union = bits-contains-union;
}
