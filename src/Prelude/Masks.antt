-- ===== src/Prelude/Masks.antt =====
-- `bit_and` with a mask of low ones is a remainder.
use Prim.Native.Nat.{
  ℕ, zero, suc, ◌+◌, ◌-◌, ◌*◌, ◌/◌, ◌%◌, ◌^◌, ◌≤◌, ◌<◌, min, bit_and, digits, bit_and-bitwise,
}
use mathlib.Core.Path.{◌≡◌, sym, ap, ap₂, ◌∙◌}
use native.Mathlib.Nat.{pow-suc}
use native.Mathlib.Omega.{arith}

-- As for `bit_or`: the recursion over the digits with any fuel that is enough.
bit_and-fuel :
    (bound fuel x y : ℕ) → fuel ≤ bound → x ≤ fuel → digits (λ d. zero) min fuel x y ≡ bit_and x y
bit_and-fuel bound zero x y h k = let e : x ≡ 0 = omega arith in rw e (sym (bit_and-bitwise 0 y))
bit_and-fuel bound (suc fuel) zero y h k = sym (bit_and-bitwise 0 y)
bit_and-fuel zero (suc fuel) (suc x) y h k = absurd (omega arith)
bit_and-fuel (suc bound) (suc fuel) (suc x) y h k =
    let half = suc x / 2 in
    let enough = bit_and-fuel bound fuel half (y / 2) (omega arith) (omega arith) in
    let least = bit_and-fuel bound x half (y / 2) (omega arith) (omega arith) in
    ap (λ r. r * 2 + min (suc x % 2) (y % 2)) (enough ∙ sym least) ∙ sym (bit_and-bitwise (suc x) y)

bit_and-digit : (x y : ℕ) → bit_and x y ≡ bit_and (x / 2) (y / 2) * 2 + min (x % 2) (y % 2)
bit_and-digit x y = sym (bit_and-fuel (suc x) (suc x) x y (omega arith) (omega arith)) ∙ unroll x y
  where
    unroll :
        (x y : ℕ)
        → digits (λ d. zero) min (suc x) x y ≡ bit_and (x / 2) (y / 2) * 2 + min (x % 2) (y % 2)
    unroll zero y = omega (arith, bit_and-bitwise 0 (y / 2))
    unroll (suc x) y =
        let rest = bit_and-fuel (suc x) (suc x) (suc x / 2) (y / 2) (omega arith) (omega arith) in
        ap (λ r. r * 2 + min (suc x % 2) (y % 2)) rest

bit_and-nothing : (n x : ℕ) → x ≤ n → bit_and x 0 ≡ 0
bit_and-nothing n zero h = bit_and-bitwise 0 0
bit_and-nothing zero (suc x) h = absurd (omega arith)
bit_and-nothing (suc n) (suc x) h =
    omega (arith, bit_and-digit (suc x) 0, bit_and-nothing n (suc x / 2) (omega arith))

pub bit_and-low_ones : (k q r : ℕ) → r < 2 ^ k → bit_and (q * 2 ^ k + r) (2 ^ k - 1) ≡ r
bit_and-low_ones zero q r h = omega (arith, bit_and-nothing (q * 1 + r) (q * 1 + r) (omega arith))
bit_and-low_ones (suc k) q r h =
    let p : q * 2 ^ suc k ≡ q * 2 ^ k * 2 = omega (arith, ap (λ n. q * n) (pow-suc 2 k)) in
    let two = pow-suc 2 k in
    let x = q * 2 ^ suc k + r in
    let half : x / 2 ≡ q * 2 ^ k + r / 2 = omega (arith, p) in
    let ones : (2 ^ suc k - 1) / 2 ≡ 2 ^ k - 1 = omega (arith, two) in
    omega (
      arith,
      p,
      two,
      bit_and-digit x (2 ^ suc k - 1),
      ap₂ bit_and half ones,
      bit_and-low_ones k q (r / 2) (omega (arith, two)),
    )

-- `bit_and` with one bit.
pub bit_and-two_pow : (k q r : ℕ) → r < 2 ^ k → bit_and (q * 2 ^ k + r) (2 ^ k) ≡ q % 2 * 2 ^ k
bit_and-two_pow zero q r h =
    let x = q * 1 + r in
    omega (
      arith,
      bit_and-digit x 1,
      bit_and-nothing (x / 2) (x / 2) (omega arith),
      ap (bit_and (x / 2)) {x = 1 / 2} {y = 0} (omega arith),
    )
bit_and-two_pow (suc k) q r h =
    let p : q * 2 ^ suc k ≡ q * 2 ^ k * 2 = omega (arith, ap (λ n. q * n) (pow-suc 2 k)) in
    let p' : q % 2 * 2 ^ suc k ≡ q % 2 * 2 ^ k * 2 =
      omega (arith, ap (λ n. q % 2 * n) (pow-suc 2 k)) in
    let two = pow-suc 2 k in
    let x = q * 2 ^ suc k + r in
    let half : x / 2 ≡ q * 2 ^ k + r / 2 = omega (arith, p) in
    let bit : 2 ^ suc k / 2 ≡ 2 ^ k = omega (arith, two) in
    omega (
      arith,
      p,
      p',
      two,
      bit_and-digit x (2 ^ suc k),
      ap₂ bit_and half bit,
      bit_and-two_pow k q (r / 2) (omega (arith, two)),
    )

-- The highest bit of 16.
pub bit_and-high : (x : ℕ) → x < 2 ^ 16 → bit_and x 0x8000 ≡ x / 2 ^ 15 * 2 ^ 15
bit_and-high x h =
    ap (λ y. bit_and y 0x8000) {x = x} {y = x / 2 ^ 15 * 2 ^ 15 + x % 2 ^ 15} (omega arith)
    ∙ bit_and-two_pow 15 (x / 2 ^ 15) (x % 2 ^ 15) (omega arith)
    ∙ omega arith
