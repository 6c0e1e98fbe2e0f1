-- ===== src/Prelude/Bits.antt =====
-- Facts about `bit_or` and powers of two at variables.
use Prim.Native.Nat.{
  ℕ, zero, suc, ◌+◌, ◌*◌, ◌/◌, ◌%◌, ◌^◌, ◌≤◌, ◌<◌, max, bit_and, bit_or, digits, bit_or-bitwise,
}
use mathlib.Core.Path.{◌≡◌, refl, sym, ap, ◌∙◌}
use mathlib.Core.Bool.{Bool, true, false, ◌&&◌}
use native.Mathlib.Nat.{pow-suc}
use native.Mathlib.Decide.{ℕ_discrete}
use native.Mathlib.Omega.{arith}
use rsfu.Prelude.Tests.{◌==◌, ==_iff, ltb, if◌then◌else◌}

-- The library says what `bit_or` is by a recursion with just enough fuel; here with any more.
bit_or-fuel :
    (bound fuel x y : ℕ) → fuel ≤ bound → x ≤ fuel → digits (λ d. d) max fuel x y ≡ bit_or x y
bit_or-fuel bound zero x y h k = let e : x ≡ 0 = omega arith in rw e (sym (bit_or-bitwise 0 y))
bit_or-fuel bound (suc fuel) zero y h k = sym (bit_or-bitwise 0 y)
bit_or-fuel zero (suc fuel) (suc x) y h k = absurd (omega arith)
bit_or-fuel (suc bound) (suc fuel) (suc x) y h k =
    let half = suc x / 2 in
    let enough = bit_or-fuel bound fuel half (y / 2) (omega arith) (omega arith) in
    let least = bit_or-fuel bound x half (y / 2) (omega arith) (omega arith) in
    ap (λ r. r * 2 + max (suc x % 2) (y % 2)) (enough ∙ sym least) ∙ sym (bit_or-bitwise (suc x) y)

-- `|` works digit by digit.
pub bit_or-digit : (x y : ℕ) → bit_or x y ≡ bit_or (x / 2) (y / 2) * 2 + max (x % 2) (y % 2)
bit_or-digit x y = sym (bit_or-fuel (suc x) (suc x) x y (omega arith) (omega arith)) ∙ unroll x y
  where
    unroll :
        (x y : ℕ)
        → digits (λ d. d) max (suc x) x y ≡ bit_or (x / 2) (y / 2) * 2 + max (x % 2) (y % 2)
    unroll zero y = omega (arith, bit_or-bitwise 0 (y / 2))
    unroll (suc x) y =
        let rest = bit_or-fuel (suc x) (suc x) (suc x / 2) (y / 2) (omega arith) (omega arith) in
        ap (λ r. r * 2 + max (suc x % 2) (y % 2)) rest

-- Setting a bit above all others adds its value.
pub bit_or-two_pow : (k l : ℕ) → l < 2 ^ k → bit_or l (2 ^ k) ≡ l + 2 ^ k
bit_or-two_pow zero l h = let e : l ≡ 0 = omega arith in rw e
bit_or-two_pow (suc k) l h = omega (
  arith,
  pow-suc 2 k,
  bit_or-digit l (2 ^ suc k),
  bit_or-two_pow k (l / 2) (omega (arith, pow-suc 2 k)),
  ap (bit_or (l / 2)) {x = 2 ^ suc k / 2} {y = 2 ^ k} (omega (arith, pow-suc 2 k)),
)

pub two_pow_mono : (j k : ℕ) → j ≤ k → 2 ^ j ≤ 2 ^ k
two_pow_mono zero zero h = omega arith
two_pow_mono zero (suc k) h = omega (arith, pow-suc 2 k, two_pow_mono 0 k (omega arith))
two_pow_mono (suc j) zero h = absurd (omega arith)
two_pow_mono (suc j) (suc k) h =
    omega (arith, pow-suc 2 j, pow-suc 2 k, two_pow_mono j k (omega arith))

-- A test on every number below `n`, the highest first; with its table a fact about a byte is checked
-- by evaluation.
holds_below : (ℕ → Bool) → ℕ → Bool
holds_below test zero = true
holds_below test (suc n) = holds_below test n && test n

from_table : (test : ℕ → Bool) (n b : ℕ) → b < n → holds_below test n ≡ true → test b ≡ true
unfolding holds_below
from_table test zero b h t = absurd (omega arith)
from_table test (suc n) b h t = elim (ℕ_discrete b n) [
  | yes last ↦ rw last (ground (arith, t))
  | no before ↦ from_table test n b (omega arith) (ground (arith, t))
]

-- Whether `b & mask > 0`, for the masks of one bit, and the masks of fields that the code uses.
abbrev same : Bool → Bool → Bool
same true c = c
same false c = if c then false else true

same-eq : (a b : Bool) → same a b ≡ true → a ≡ b
same-eq true b h = sym h
same-eq false true h = h
same-eq false false h = refl

bit_table :
    holds_below
      (λ b.
        same (ltb 0 (bit_and b 0x80)) (b / 128 % 2 == 1)
        && (same (ltb 0 (bit_and b 0x40)) (b / 64 % 2 == 1)
            && (same (ltb 0 (bit_and b 0x20)) (b / 32 % 2 == 1)
                && (same (ltb 0 (bit_and b 0x10)) (b / 16 % 2 == 1)
                    && (bit_and b 0x7f == b % 128
                        && (bit_and b 0xc0 / 64 == b / 64
                            && (bit_and b 0x1f == b % 32 && bit_and b 0x01 == b % 2)))))))
      256
    ≡ true
unfolding holds_below
bit_table = refl

both : (a b : Bool) → (a && b) ≡ true → (a ≡ true) × (b ≡ true)
both a b h = ground arith

pub record ByteBits (b : ℕ) : Type 0 where
  pub bit80 : ltb 0 (bit_and b 0x80) ≡ (b / 128 % 2 == 1)
  pub bit40 : ltb 0 (bit_and b 0x40) ≡ (b / 64 % 2 == 1)
  pub bit20 : ltb 0 (bit_and b 0x20) ≡ (b / 32 % 2 == 1)
  pub bit10 : ltb 0 (bit_and b 0x10) ≡ (b / 16 % 2 == 1)
  pub low7f : bit_and b 0x7f ≡ b % 128
  pub high_c0 : bit_and b 0xc0 / 64 ≡ b / 64
  pub low1f : bit_and b 0x1f ≡ b % 32
  pub low01 : bit_and b 0x01 ≡ b % 2

pub byte_bits : (b : ℕ) → b < 256 → ByteBits b
byte_bits b h =
    let (t80, r) = both _ _ (from_table _ 256 b h bit_table) in
    let (t40, r) = both _ _ r in
    let (t20, r) = both _ _ r in
    let (t10, r) = both _ _ r in
    let (m7f, r) = both _ _ r in
    let (mc0, r) = both _ _ r in
    let (m1f, m01) = both _ _ r in
    record {
      bit80 = same-eq _ _ t80;
      bit40 = same-eq _ _ t40;
      bit20 = same-eq _ _ t20;
      bit10 = same-eq _ _ t10;
      low7f = (==_iff _ _).0 m7f;
      high_c0 = (==_iff _ _).0 mc0;
      low1f = (==_iff _ _).0 m1f;
      low01 = (==_iff _ _).0 m01;
    }

-- Adjoining a low field to a high one.
bit_or-zero_below : (n x : ℕ) → x ≤ n → bit_or x 0 ≡ x
bit_or-zero_below n zero h = bit_or-bitwise 0 0
bit_or-zero_below zero (suc x) h = absurd (omega arith)
bit_or-zero_below (suc n) (suc x) h =
    omega (arith, bit_or-digit (suc x) 0, bit_or-zero_below n (suc x / 2) (omega arith))

pub bit_or-field : (k q r : ℕ) → r < 2 ^ k → bit_or (q * 2 ^ k) r ≡ q * 2 ^ k + r
bit_or-field zero q r h =
    let e : r ≡ 0 = omega arith in
    rw e (omega (arith, bit_or-zero_below (q * 1) (q * 1) (omega arith)))
bit_or-field (suc k) q r h =
    let p : q * 2 ^ suc k ≡ q * 2 ^ k * 2 = omega (arith, ap (λ n. q * n) (pow-suc 2 k)) in
    omega (
      arith,
      p,
      bit_or-digit (q * 2 ^ suc k) r,
      ap (λ n. bit_or n (r / 2)) {x = q * 2 ^ suc k / 2} {y = q * 2 ^ k} (omega (arith, p)),
      bit_or-field k q (r / 2) (omega (arith, pow-suc 2 k)),
    )

-- Setting a bit that is clear adds its value.
pub bit_or-clear :
    (k q r : ℕ) → r < 2 ^ k → bit_or (q * 2 ^ suc k + r) (2 ^ k) ≡ q * 2 ^ suc k + r + 2 ^ k
bit_or-clear zero q r h = omega (
  arith,
  bit_or-digit (q * 2 + r) 1,
  ap (λ n. bit_or n 0) {x = (q * 2 + r) / 2} {y = q} (omega arith),
  bit_or-zero_below q q (omega arith),
)
bit_or-clear (suc k) q r h =
    let p : q * 2 ^ suc (suc k) ≡ q * 2 ^ suc k * 2 =
      omega (arith, ap (λ n. q * n) (pow-suc 2 (suc k))) in
    omega (
      arith,
      p,
      pow-suc 2 k,
      bit_or-digit (q * 2 ^ suc (suc k) + r) (2 ^ suc k),
      ap (λ n. bit_or n (2 ^ suc k / 2)) {x = (q * 2 ^ suc (suc k) + r) / 2}
          {y = q * 2 ^ suc k + r / 2} (omega (arith, p)),
      ap (bit_or (q * 2 ^ suc k + r / 2)) {x = 2 ^ suc k / 2} {y = 2 ^ k}
          (omega (arith, pow-suc 2 k)),
      bit_or-clear k q (r / 2) (omega (arith, pow-suc 2 k)),
    )
