-- ===== src/Base/Number/Hex.antt =====
-- Two words that print alike in hexadecimal are equal.
use Prim.Native.Nat.{ℕ, zero, suc, ◌+◌, ◌-◌, ◌*◌, ◌/◌, ◌%◌, ◌^◌, ◌<◌}
use Prim.Native.Char.{code}
use Prim.Native.String.{String}
use mathlib.Core.Path.{◌≡◌, refl, sym, ap, ◌∙◌}
use mathlib.Core.Logic.{inl, inr}
use native.Mathlib.Nat.{pow-suc}
use native.Mathlib.Omega.{arith}
use rlvm.Base.Int.{word_size}
use rlvm.Base.Number.{nth_char, digits, upper_hex}
use rlvm.Base.Tests.{leb, ◌==◌, if◌then◌else◌, Bool-cases}

hex_value : ℕ → ℕ
hex_value c = if leb c b'9' then c - b'0' else c - 55

-- The number that a text of hexadecimal digits stands for, behind the digits of `n`.
read : String → ℕ → ℕ
unfolding hex_value
read String.[] n = n
read (String.◌∷◌ c s) n = read s (n * 16 + hex_value (code c))

abbrev DigitReads : ℕ → Type 0
DigitReads d = hex_value (code (nth_char "0123456789ABCDEF" d)) ≡ d

digit_value : (d : ℕ) → d < 16 → DigitReads d
unfolding hex_value
digit_value zero h = refl
digit_value (suc zero) h = refl
digit_value (suc (suc zero)) h = refl
digit_value (suc (suc (suc zero))) h = refl
digit_value (suc (suc (suc (suc zero)))) h = refl
digit_value (suc (suc (suc (suc (suc zero))))) h = refl
digit_value (suc (suc (suc (suc (suc (suc zero)))))) h = refl
digit_value (suc (suc (suc (suc (suc (suc (suc zero))))))) h = refl
digit_value (suc (suc (suc (suc (suc (suc (suc (suc d)))))))) h = upper_digit d (omega arith)
  where
    upper_digit : (e : ℕ) → e < 8 → DigitReads (suc (suc (suc (suc (suc (suc (suc (suc e))))))))
    upper_digit zero k = refl
    upper_digit (suc zero) k = refl
    upper_digit (suc (suc zero)) k = refl
    upper_digit (suc (suc (suc zero))) k = refl
    upper_digit (suc (suc (suc (suc zero)))) k = refl
    upper_digit (suc (suc (suc (suc (suc zero))))) k = refl
    upper_digit (suc (suc (suc (suc (suc (suc zero)))))) k = refl
    upper_digit (suc (suc (suc (suc (suc (suc (suc zero))))))) k = refl
    upper_digit (suc (suc (suc (suc (suc (suc (suc (suc e)))))))) k = absurd (omega arith)

read_last :
    (n : ℕ) (out : String)
    → read (String.◌∷◌ (nth_char "0123456789ABCDEF" (n % 16)) out) (n / 16) ≡ read out n
unfolding read
read_last n out = rw (digit_value (n % 16) (omega arith)) (ap (read out) (omega arith))

read-digits :
    (rounds n : ℕ) (out : String) → n < 2 ^ rounds → read (digits 16 rounds n out) 0 ≡ read out n
unfolding digits
read-digits zero n out few = ap (read out) (omega arith)
read-digits (suc rounds) n out few = ground (
  arith,
  pow-suc 2 rounds,
  read-digits rounds (n / 16) (String.◌∷◌ (nth_char "0123456789ABCDEF" (n % 16)) out),
  read_last n out,
)

read_end : (n : ℕ) → read "" n ≡ n
unfolding read
read_end n = refl

read_zero : (n : ℕ) → n ≡ 0 → read "0" 0 ≡ n
unfolding read
read_zero n e = rw e

read-upper_hex : (n : ℕ) → n < word_size → read (upper_hex n) 0 ≡ n
unfolding upper_hex
read-upper_hex n h = elim (Bool-cases (n == 0)) [
  | inl zero_number ↦ rw zero_number (read_zero n (ground arith))
  | inr more ↦ rw more (read-digits 64 n "" h ∙ read_end n)
]

pub upper_hex-injective :
    (m n : ℕ) → m < word_size → n < word_size → upper_hex m ≡ upper_hex n → m ≡ n
upper_hex-injective m n hm hn e =
    sym (read-upper_hex m hm) ∙ ap (λ s. read s 0) e ∙ read-upper_hex n hn
