-- ===== src/Common/Decimal.antt =====
-- Numbers in text: what the C library's isdigit, atoi, snprintf with %d and htons do.
use Prim.Native.Nat.{ℕ, zero, suc, ◌+◌, ◌-◌, ◌*◌, ◌/◌, ◌%◌, ◌^◌, ◌≤◌, ◌<◌, pred}
use mathlib.Core.Path.{◌≡◌}
use mathlib.Core.List.{[], ◌∷◌}
use mathlib.Core.Bool.{Bool, ◌&&◌}
use native.Mathlib.Omega.{arith}
use native.Mathlib.Nat.{pow-suc}
use cpplearn.Common.Tests.{leb, ltb, if◌then◌else◌}
use cpplearn.Common.Lists.{Bytes, take, length, take_all}

abbrev pub is_digit : ℕ → Bool
is_digit c = leb b'0' c && leb c b'9'

-- `htons` and `ntohs` on a little-endian machine; the argument is cut to sixteen bits.
abbrev pub htons : ℕ → ℕ
htons n = n % 256 * 256 + n / 256 % 256

-- `atoi` on a text that begins with a digit; the true value, with no bound.
pub digits_value : ℕ → Bytes → ℕ
digits_value n [] = n
digits_value n (c ∷ s) =
    let rest = digits_value (n * 10 + (c - b'0')) s in if is_digit c then rest else n

unfoldable pub atoi : Bytes → ℕ
unfolding digits_value
atoi s = digits_value 0 s

-- The digits of `n` before a text. The fuel is more than `n`, so it is more than the digits.
decimal_before : ℕ → ℕ → Bytes → Bytes
decimal_before zero n text = text
decimal_before (suc fuel) n text =
    let more = decimal_before fuel (n / 10) ((b'0' + n % 10) ∷ text) in
    if ltb n 10 then (b'0' + n) ∷ text else more

-- `%d` of a number that is not negative.
unfoldable pub decimal : ℕ → Bytes
unfolding decimal_before
decimal n = decimal_before (suc n) n []

-- `snprintf(buffer, size, "%s", text)`: what the buffer holds before the null byte.
abbrev pub snprintf : ℕ → Bytes → Bytes
snprintf size text = take (pred size) text

-- A text with room for its null byte is written whole.
pub snprintf_all : (size : ℕ) (text : Bytes) → length text < size → snprintf size text ≡ text
snprintf_all zero text h = absurd (omega arith)
snprintf_all (suc n) text h = take_all n text (omega arith)

digits_value-decimal :
    (fuel n : ℕ) (text : Bytes)
    → n < fuel
    → digits_value 0 (decimal_before fuel n text) ≡ digits_value n text
unfolding digits_value decimal_before
digits_value-decimal zero n text h = absurd (omega arith)
digits_value-decimal (suc fuel) n text h =
    ground (arith, digits_value-decimal fuel (n / 10) ((b'0' + n % 10) ∷ text))

-- Every number is read back from its print.
pub atoi-decimal : (n : ℕ) → atoi (decimal n) ≡ n
unfolding atoi decimal
atoi-decimal n = digits_value-decimal (suc n) n [] (omega arith)

length-decimal_before :
    (fuel k n : ℕ) (text : Bytes)
    → n < fuel
    → n < 10 ^ suc k
    → length (decimal_before fuel n text) ≤ length text + suc k
unfolding decimal_before
length-decimal_before zero k n text h small = absurd (omega arith)
length-decimal_before (suc fuel) zero n text h small = ground arith
length-decimal_before (suc fuel) (suc k) n text h small =
    ground
      (arith, pow-suc 10 (suc k), length-decimal_before fuel k (n / 10) ((b'0' + n % 10) ∷ text))

-- A number of sixteen bits has five digits at most.
pub length-decimal : (n : ℕ) → n < 2 ^ 16 → length (decimal n) ≤ 5
unfolding decimal
length-decimal n h = length-decimal_before (suc n) 4 n [] (omega arith) (omega arith)
