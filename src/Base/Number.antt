-- ===== src/Base/Number.antt =====
-- Numbers as text, as Rust's standard library writes and reads them: `{}` and `{:X}` of an
-- unsigned number, and `str::parse::<usize>`.
pub mod RoundTrip
pub mod Hex
use Prim.Native.Nat.{ℕ, zero, suc, ◌+◌, ◌-◌, ◌*◌, ◌/◌, ◌%◌, ◌^◌}
use Prim.Native.Char.{Char, code, nul}
use Prim.Native.String.{String}
use mathlib.Core.Bool.{Bool, true, false, ◌&&◌}
use rlvm.Base.Tests.{ltb, leb, ◌==◌, if◌then◌else◌}
use rlvm.Base.Int.{word_size}

abbrev pub nth_char : String → ℕ → Char
nth_char String.[] i = nul
nth_char (String.◌∷◌ c s) zero = c
nth_char (String.◌∷◌ c s) (suc i) = nth_char s i

-- The digits from the last to the first. The second argument bounds their number: 64 rounds
-- are enough for a word in any base from 2 on.
unfoldable pub digits : ℕ → ℕ → ℕ → String → String
digits base zero n out = out
digits base (suc rounds) n out =
    let rest =
      digits base rounds (n / base) (String.◌∷◌ (nth_char "0123456789ABCDEF" (n % base)) out) in
    if n == 0 then out else rest

number : ℕ → ℕ → String
number base n = if n == 0 then "0" else digits base 64 n ""

-- `n.to_string()`
unfoldable pub decimal : ℕ → String
unfolding number
decimal n = number 10 n

-- `format!("{:X}", n)`
unfoldable pub upper_hex : ℕ → String
unfolding number
upper_hex n = number 16 n

pub data ParseIntError : Type 0 where
  empty invalid_digit overflow : ParseIntError

abbrev pub parse_error_text : ParseIntError → String
parse_error_text empty = "cannot parse integer from empty string"
parse_error_text invalid_digit = "invalid digit found in string"
parse_error_text overflow = "number too large to fit in target type"

pub data Parsed : Type 0 where
  value : ℕ → Parsed
  failed : ParseIntError → Parsed

is_digit : ℕ → Bool
is_digit c = leb b'0' c && leb c b'9'

scan : String → ℕ → Parsed
unfolding is_digit
scan String.[] n = value n
scan (String.◌∷◌ c s) n =
    let m = n * 10 + (code c - b'0') in
    let rest = scan s m in
    if is_digit (code c)
    then (if ltb m word_size then rest else failed overflow)
    else failed invalid_digit

-- A sign alone is no number, and a leading plus is skipped.
unfoldable pub parse_usize : String → Parsed
unfolding scan
parse_usize String.[] = failed empty
parse_usize (String.◌∷◌ c String.[]) = scan (String.◌∷◌ c String.[]) 0
parse_usize (String.◌∷◌ c (String.◌∷◌ d s)) =
    if code c == b'+' then scan (String.◌∷◌ d s) 0 else scan (String.◌∷◌ c (String.◌∷◌ d s)) 0
