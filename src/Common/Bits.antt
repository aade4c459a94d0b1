-- ===== src/Common/Bits.antt =====
-- Masks of low bits and exclusive or, as arithmetic at every width.
use Prim.Native.Nat.{
  min, differ, digits, bitwise, bit_and, bit_and-bitwise, bit_xor, bit_xor-bitwise,
}
use native.Mathlib.Nat.{
  pow-suc, one-le-pow, div-add-mod, mod-lt, mod-eq_of_lt, mul-add-mod_self_left,
}
use native.Mathlib.Omega.{arith}
use Prim.Native.Nat.{ℕ, zero, suc, ◌+◌, ◌-◌, ◌*◌, ◌/◌, ◌%◌, ◌^◌, ◌≤◌, ◌<◌}
use mathlib.Core.Path.{◌≡◌, refl, ap, sym, ◌∙◌}

-- More fuel than the first number has digits changes nothing.
enough_digits :
    (z : ℕ → ℕ) (f : ℕ → ℕ → ℕ) (n m a b : ℕ) → a ≤ n → a ≤ m → digits z f n a b ≡ digits z f m a b
enough_digits z f zero zero zero b p q = refl
enough_digits z f zero (suc m) zero b p q = refl
enough_digits z f (suc n) zero zero b p q = refl
enough_digits z f (suc n) (suc m) zero b p q = refl
enough_digits z f zero m (suc a) b p q = absurd (omega arith)
enough_digits z f (suc n) zero (suc a) b p q = absurd (omega arith)
enough_digits z f (suc n) (suc m) (suc a) b p q =
    rw (enough_digits z f n m (suc a / 2) (b / 2) (omega arith) (omega arith))

low_digit :
    (z : ℕ → ℕ) (f : ℕ → ℕ → ℕ) (a b : ℕ)
    → bitwise z f (suc a) b ≡ bitwise z f (suc a / 2) (b / 2) * 2 + f (suc a % 2) (b % 2)
low_digit z f a b =
    omega (arith, enough_digits z f a (suc a / 2) (suc a / 2) (b / 2) (omega arith) (omega arith))

bit_and_low : (a b : ℕ) → bit_and a b ≡ bit_and (a / 2) (b / 2) * 2 + min (a % 2) (b % 2)
bit_and_low zero b = simp bit_and-bitwise (omega arith)
bit_and_low (suc a) b = simp bit_and-bitwise (low_digit (λ y. 0) min a b)

bit_and-zero : (n a : ℕ) → a < n → bit_and a 0 ≡ 0
bit_and-zero zero a h = absurd (omega arith)
bit_and-zero (suc n) zero h = refl
bit_and-zero (suc n) (suc a) h =
    omega (arith, bit_and_low (suc a) 0, bit_and-zero n (suc a / 2) (omega arith))

-- A remainder by 2 * p, from the remainder of the half by p.
mod_double : (p a : ℕ) → 0 < p → a % (2 * p) ≡ a / 2 % p * 2 + a % 2
mod_double p a h =
    let r = a / 2 % p * 2 + a % 2 in
    let whole : a ≡ (2 * p) * (a / 2 / p) + r = omega (arith, div-add-mod (a / 2) p) in
    let small : r < 2 * p = omega (arith, mod-lt (a / 2) h) in
    ap (λ (t : ℕ). t % (2 * p)) whole
    ∙ mul-add-mod_self_left (2 * p) (a / 2 / p) r
    ∙ mod-eq_of_lt small

-- a & (2^k - 1)
pub bit_and-low_mask : (k a : ℕ) → bit_and a (2 ^ k - 1) ≡ a % 2 ^ k
bit_and-low_mask zero a = omega (arith, bit_and-zero (suc a) a (omega arith))
bit_and-low_mask (suc k) a =
    let pos : 1 ≤ 2 ^ k = one-le-pow k 2 (omega arith) in
    let double : 2 ^ suc k ≡ 2 * 2 ^ k = omega (arith, pow-suc 2 k) in
    let mask : (2 ^ suc k - 1) / 2 ≡ 2 ^ k - 1 = omega arith in
    let odd : (2 ^ suc k - 1) % 2 ≡ 1 = omega arith in
    let step = bit_and_low a (2 ^ suc k - 1) in
    (rw (mask, odd, bit_and-low_mask k (a / 2)) at step)
    ∙ rw double (omega (arith, mod_double (2 ^ k) a pos))

bit_xor_low : (a b : ℕ) → bit_xor a b ≡ bit_xor (a / 2) (b / 2) * 2 + differ (a % 2) (b % 2)
bit_xor_low zero b = simp bit_xor-bitwise (omega arith)
bit_xor_low (suc a) b = simp bit_xor-bitwise (low_digit (λ y. y) differ a b)

differ-eq-zero : (x y : ℕ) → differ x y ≡ 0 → x ≡ y
differ-eq-zero zero y e = sym e
differ-eq-zero (suc x) zero e = e
differ-eq-zero (suc x) (suc y) e = ap suc (differ-eq-zero x y e)

-- a ^ b == 0 only where a == b
pub bit_xor-eq-zero : (n a b : ℕ) → a < n → bit_xor a b ≡ 0 → a ≡ b
bit_xor-eq-zero zero a b h e = absurd (omega arith)
bit_xor-eq-zero (suc n) zero b h e = sym (simp bit_xor-bitwise at e)
bit_xor-eq-zero (suc n) (suc a) b h e =
    let low = bit_xor_low (suc a) b in
    let halves : suc a / 2 ≡ b / 2 =
      bit_xor-eq-zero n (suc a / 2) (b / 2) (omega arith) (omega arith) in
    omega (arith, differ-eq-zero (suc a % 2) (b % 2) (omega arith))

pub bit_xor_self : (n a : ℕ) → a < n → bit_xor a a ≡ 0
bit_xor_self zero a h = absurd (omega arith)
bit_xor_self (suc n) zero h = refl
bit_xor_self (suc n) (suc a) h = omega (
  arith,
  bit_xor_low (suc a) (suc a),
  bit_xor_self n (suc a / 2) (omega arith),
  differ_self (suc a % 2),
)
  where
    differ_self : (x : ℕ) → differ x x ≡ 0
    differ_self zero = refl
    differ_self (suc x) = differ_self x

-- a & a
pub bit_and_self : (n a : ℕ) → a < n → bit_and a a ≡ a
bit_and_self zero a h = absurd (omega arith)
bit_and_self (suc n) zero h = refl
bit_and_self (suc n) (suc a) h =
    omega (arith, bit_and_low (suc a) (suc a), bit_and_self n (suc a / 2) (omega arith))
