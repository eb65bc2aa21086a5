-- ===== src/Base/Number/RoundTrip.antt =====
-- What is printed in decimal is read back.
use Prim.Native.Nat.{ℕ, zero, suc, ◌+◌, ◌-◌, ◌*◌, ◌/◌, ◌%◌, ◌^◌, ◌≤◌, ◌<◌}
use Prim.Native.Char.{code}
use Prim.Native.String.{String}
use mathlib.Core.Path.{◌≡◌, refl, ap, ◌∙◌}
use mathlib.Core.Bool.{false}
use mathlib.Core.Logic.{◌≢◌, inl, inr}
use native.Mathlib.Omega.{arith}
use native.Mathlib.Nat.{pow-suc}
use rlvm.Base.Tests.{◌==◌, Bool-cases}
use rlvm.Base.Int.{word_size}
use rlvm.Base.Text
use rlvm.Base.Number.{nth_char, digits, decimal, upper_hex, scan, parse_usize, value}

decimal_word : decimal 18446744073709551615 ≡ "18446744073709551615"
unfolding decimal digits
decimal_word = refl

upper_hex_word : upper_hex 48879 ≡ "BEEF"
unfolding upper_hex digits
upper_hex_word = refl

parse_plus : parse_usize "+12" ≡ value 12
unfolding parse_usize
parse_plus = refl

digit_value : (d : ℕ) → d < 10 → code (nth_char "0123456789ABCDEF" d) ≡ 48 + d
digit_value zero h = refl
digit_value (suc zero) h = refl
digit_value (suc (suc zero)) h = refl
digit_value (suc (suc (suc zero))) h = refl
digit_value (suc (suc (suc (suc zero)))) h = refl
digit_value (suc (suc (suc (suc (suc zero))))) h = refl
digit_value (suc (suc (suc (suc (suc (suc zero)))))) h = refl
digit_value (suc (suc (suc (suc (suc (suc (suc zero))))))) h = refl
digit_value (suc (suc (suc (suc (suc (suc (suc (suc zero)))))))) h = refl
digit_value (suc (suc (suc (suc (suc (suc (suc (suc (suc zero))))))))) h = refl
digit_value (suc (suc (suc (suc (suc (suc (suc (suc (suc (suc n)))))))))) h = absurd (omega arith)

last_digit : (n : ℕ) → n / 10 * 10 + (48 + n % 10 - 48) ≡ n
last_digit n = omega arith

scan_last :
    (n : ℕ) (out : String)
    → n < word_size
    → scan (String.◌∷◌ (nth_char "0123456789ABCDEF" (n % 10)) out) (n / 10) ≡ scan out n
unfolding scan
scan_last n out h =
    rw (digit_value (n % 10) (omega arith)) (ground (arith, ap (scan out) (last_digit n)))

scan-digits :
    (rounds n : ℕ) (out : String)
    → n < 2 ^ rounds
    → n < word_size
    → scan (digits 10 rounds n out) 0 ≡ scan out n
unfolding digits
scan-digits zero n out few h = ap (scan out) (omega arith)
scan-digits (suc rounds) n out few h = ground (
  arith,
  pow-suc 2 rounds,
  scan-digits rounds (n / 10) (String.◌∷◌ (nth_char "0123456789ABCDEF" (n % 10)) out),
  scan_last n out h,
)

-- A text that begins with a digit, which `parse_usize` reads from its first character.
abbrev IsNumeral : String → Type 0
IsNumeral String.[] = ⊥
IsNumeral (String.◌∷◌ c s) = 48 ≤ code c

digits-IsNumeral :
    (rounds n : ℕ) (out : String) → IsNumeral out → IsNumeral (digits 10 rounds n out)
unfolding digits
digits-IsNumeral zero n out h = h
digits-IsNumeral (suc rounds) n out h = elim (Bool-cases (n == 0)) [
  | inl done ↦ rw done h
  | inr more ↦ rw more (
      digits-IsNumeral rounds (n / 10) (String.◌∷◌ (nth_char "0123456789ABCDEF" (n % 10)) out)
        (omega (arith, digit_value (n % 10) (omega arith))))
]

parse_usize-scan : (s : String) → IsNumeral s → parse_usize s ≡ scan s 0
unfolding parse_usize
parse_usize-scan String.[] h = absurd h
parse_usize-scan (String.◌∷◌ c String.[]) h = refl
parse_usize-scan (String.◌∷◌ c (String.◌∷◌ d s)) h = ground arith

scan_end : (n : ℕ) → scan "" n ≡ value n
unfolding scan
scan_end n = refl

scan_zero : (n : ℕ) → n ≡ 0 → scan "0" 0 ≡ value n
unfolding scan
scan_zero n e = rw e

digits_round :
    (rounds n : ℕ) (out : String)
    → n ≢ 0
    → digits 10 (suc rounds) n out
      ≡ digits 10 rounds (n / 10) (String.◌∷◌ (nth_char "0123456789ABCDEF" (n % 10)) out)
unfolding digits
digits_round rounds n out h = ground arith

decimal-IsNumeral : (n : ℕ) → IsNumeral (decimal n)
unfolding decimal
decimal-IsNumeral n = elim (Bool-cases (n == 0)) [
  | inl zero_number ↦ rw zero_number (omega arith)
  | inr more ↦
      rw (more, digits_round 63 n "" (ground arith))
        (digits-IsNumeral 63 (n / 10) (String.◌∷◌ (nth_char "0123456789ABCDEF" (n % 10)) "")
          (omega (arith, digit_value (n % 10) (omega arith))))
]

scan-decimal : (n : ℕ) → n < word_size → scan (decimal n) 0 ≡ value n
unfolding decimal
scan-decimal n h = elim (Bool-cases (n == 0)) [
  | inl zero_number ↦ rw zero_number (scan_zero n (ground arith))
  | inr more ↦ rw more (scan-digits 64 n "" h h ∙ scan_end n)
]

-- Every word is read back from its decimal print.
pub parse_usize-decimal : (n : ℕ) → n < word_size → parse_usize (decimal n) ≡ value n
parse_usize-decimal n h = parse_usize-scan (decimal n) (decimal-IsNumeral n) ∙ scan-decimal n h

IsNumeral-nonempty : (s : String) → IsNumeral s → Text.is_empty s ≡ false
IsNumeral-nonempty String.[] h = absurd h
IsNumeral-nonempty (String.◌∷◌ c s) h = refl

pub decimal_nonempty : (n : ℕ) → Text.is_empty (decimal n) ≡ false
decimal_nonempty n = IsNumeral-nonempty (decimal n) (decimal-IsNumeral n)
