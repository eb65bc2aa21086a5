-- ===== src/Base/Int.antt =====
-- Signed integers, and the casts between Rust's integer types on a 64-bit target.
use Prim.Native.Nat.{ℕ, ◌+◌, ◌-◌, ◌%◌, ◌^◌, ◌<◌}
use mathlib.Core.Path.{◌≡◌}
use mathlib.Core.Bool.{Bool, true, false}
use mathlib.Core.Option.{Option, none, some}
use native.Mathlib.Omega.{arith}
use rlvm.Base.Tests.{ltb, leb, ◌==◌ as ℕ_eq, if◌then◌else◌}

-- `negsuc n` is -(n + 1).
pub data ℤ : Type 0 where
  pos : ℕ → ℤ
  negsuc : ℕ → ℤ

-- `usize` and `u64` are the numbers below this one.
abbrev pub word_size : ℕ
word_size = 2 ^ 64

abbrev pub half_word : ℕ
half_word = 2 ^ 63

abbrev pub max_usize : ℕ
max_usize = 2 ^ 64 - 1

infix 50 ◌==◌
abbrev pub ◌==◌ : ℤ → ℤ → Bool
pos a == pos b = ℕ_eq a b
pos a == negsuc b = false
negsuc a == pos b = false
negsuc a == negsuc b = ℕ_eq a b

-- `n as i64`, of an unsigned word: the same bits read as a signed number.
abbrev pub as_i64 : ℕ → ℤ
as_i64 n = if ltb n half_word then pos n else negsuc (word_size - n - 1)

-- `i.try_into()` from a signed integer to `usize`; `none` is `TryFromIntError`.
abbrev pub try_usize : ℤ → Option ℕ
try_usize (pos n) = some n
try_usize (negsuc n) = none

-- `n.try_into()` from `usize` to `u64`.
abbrev pub try_u64 : ℕ → Option ℕ
try_u64 n = if ltb n word_size then some n else none

-- `a.checked_sub(b)`
abbrev pub checked_sub : ℕ → ℕ → Option ℕ
checked_sub a b = if leb b a then some (a - b) else none

-- `a + b` on `usize`: with overflow checks an overflow panics (`none`), without them it wraps.
abbrev pub add_usize : Bool → ℕ → ℕ → Option ℕ
add_usize true a b = if ltb (a + b) word_size then some (a + b) else none
add_usize false a b = some ((a + b) % word_size)

pub add_usize_lem :
    (checks : Bool) (a b : ℕ) → a + b < word_size → add_usize checks a b ≡ some (a + b)
add_usize_lem true a b h = ground arith
add_usize_lem false a b h = ground arith
