-- ===== src/Common/Bits.antt =====
-- The bitwise `&` with a mask of low bits, which C code uses for a remainder.
use Prim.Native.Nat.{
  ℕ, zero, suc, ◌+◌, ◌-◌, ◌*◌, ◌/◌, ◌%◌, ◌^◌, ◌≤◌, ◌<◌, min, bit_and, digits, bit_and-bitwise,
}
use mathlib.Core.Path.{◌≡◌, refl, sym, ap, ◌∙◌}
use native.Mathlib.Nat.{
  pow-succ', one-le-pow, mul_assoc, div-add-mod, mod-lt, mod-eq_of_lt, mul-add-mod_self_left,
}
use native.Mathlib.Omega.{arith}

-- What `bit_and` stands for computes digit by digit, on fuel; any fuel from the number on will do.
enough_fuel :
    (n m a b : ℕ) → a ≤ n → a ≤ m → digits (λ x. zero) min n a b ≡ digits (λ x. zero) min m a b
enough_fuel zero zero a b p q = refl
enough_fuel (suc n) zero zero b p q = refl
enough_fuel zero (suc m) zero b p q = refl
enough_fuel (suc n) (suc m) zero b p q = refl
enough_fuel (suc n) zero (suc a) b p q = absurd (omega arith)
enough_fuel zero (suc m) (suc a) b p q = absurd (omega arith)
enough_fuel (suc n) (suc m) (suc a) b p q =
    let lower = enough_fuel n m (suc a / 2) (b / 2) (omega arith) (omega arith) in
    omega (arith, lower)

-- The lowest bit, and the others.
bit_and-suc : (a b : ℕ) → bit_and a b ≡ bit_and (a / 2) (b / 2) * 2 + min (a % 2) (b % 2)
bit_and-suc zero b = omega (arith, bit_and-bitwise 0 b, bit_and-bitwise 0 (b / 2))
bit_and-suc (suc a) b =
    let lower = enough_fuel a (suc a / 2) (suc a / 2) (b / 2) (omega arith) (omega arith) in
    omega (arith, lower, bit_and-bitwise (suc a) b, bit_and-bitwise (suc a / 2) (b / 2))

bit_and-zero : (n a : ℕ) → a ≤ n → bit_and a 0 ≡ 0
bit_and-zero n zero h = refl
bit_and-zero zero (suc a) h = absurd (omega arith)
bit_and-zero (suc n) (suc a) h =
    omega (arith, bit_and-suc (suc a) 0, bit_and-zero n (suc a / 2) (omega arith))

-- The remainder by twice a number, from the lowest bit and the remainder of the others.
mod-double : (m a : ℕ) → 0 < m → a % (2 * m) ≡ a / 2 % m * 2 + a % 2
mod-double m a pos =
    let q = a / 2 / m in
    let c = a / 2 % m * 2 + a % 2 in
    let parts : a ≡ 2 * m * q + c = rw (mul_assoc 2 m q) (omega (arith, div-add-mod (a / 2) m)) in
    let small : c < 2 * m = omega (arith, mod-lt (a / 2) pos) in
    ap (λ n. n % (2 * m)) parts ∙ mul-add-mod_self_left (2 * m) q c ∙ mod-eq_of_lt small

-- `a & (2^k - 1)` is the remainder by `2^k`.
pub bit_and-mask : (k a : ℕ) → bit_and a (2 ^ k - 1) ≡ a % 2 ^ k
bit_and-mask zero a = omega (arith, bit_and-zero a a (omega arith))
bit_and-mask (suc k) a =
    let pos = one-le-pow k 2 (omega arith) in
    let halved : (2 ^ suc k - 1) / 2 ≡ 2 ^ k - 1 = omega (arith, pow-succ' 2 k, pos) in
    let odd : (2 ^ suc k - 1) % 2 ≡ 1 = omega (arith, pow-succ' 2 k, pos) in
    let step : bit_and a (2 ^ suc k - 1) ≡ bit_and (a / 2) (2 ^ k - 1) * 2 + a % 2 =
      rw (bit_and-suc a (2 ^ suc k - 1), halved, odd) (omega arith) in
    rw (step, bit_and-mask k (a / 2), pow-succ' 2 k) (sym (mod-double (2 ^ k) a pos))

-- A power of two and the number before it have no bit in common.
pub bit_and-pow : (k : ℕ) → bit_and (2 ^ k - 1) (2 ^ k) ≡ 0
bit_and-pow zero = refl
bit_and-pow (suc k) =
    let pos = one-le-pow k 2 (omega arith) in
    let double = pow-succ' 2 k in
    let ones : (2 ^ suc k - 1) / 2 ≡ 2 ^ k - 1 = omega (arith, double, pos) in
    let half : 2 ^ suc k / 2 ≡ 2 ^ k = omega (arith, double) in
    let even : 2 ^ suc k % 2 ≡ 0 = omega (arith, double) in
    rw (bit_and-suc (2 ^ suc k - 1) (2 ^ suc k), ones, half, even, bit_and-pow k) (omega arith)
