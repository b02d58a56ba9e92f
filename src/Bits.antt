-- ===== src/Bits.antt =====
-- The laws of `&` and `|` that the harness needs, for operands that are variables: a mask of low
-- bits, one bit set and one bit cleared.
mod Digits
use Digits.{and_digit, or_digit, and_nothing, or_nothing}
use native.Mathlib.Nat.{pow-suc, one-le-pow, mod-eq_of_lt, div-lt_iff_lt-mul}
use mints_riscv_cpu.Base.{
  ℕ, zero, suc, ◌+◌, ◌-◌, ◌*◌, ◌/◌, ◌%◌, ◌^◌, ◌≤◌, ◌<◌, bit_and, bit_or, ◌≡◌, refl, ap, arith,
  bit_at,
}

-- `a & (2 ^ k - 1)` is the remainder by `2 ^ k`; `p` is the power.
low_fields : (k q r : ℕ) → r < 2 ^ k → bit_and (2 ^ k * q + r) (2 ^ k - 1) ≡ r
low_fields zero q r h = omega (arith, and_nothing (2 ^ 0 * q + r))
low_fields (suc k) q r h =
    let step = pow-suc 2 k in
    let scaled = ap (λ (t : ℕ). t * q) step in
    ground (
      arith,
      step,
      scaled,
      one-le-pow k 2,
      and_digit (2 ^ suc k * q + r) (2 ^ suc k - 1),
      low_fields k q (r / 2),
    )

pub bit_and-low : (k a : ℕ) → bit_and a (2 ^ k - 1) ≡ a % 2 ^ k
bit_and-low k a = ground (arith, one-le-pow k 2, low_fields k (a / 2 ^ k) (a % 2 ^ k))

-- Setting a bit, on a number split at that bit.
or_fields :
    (k q b r : ℕ)
    → r < 2 ^ k
    → b < 2
    → bit_or (2 ^ k * (2 * q + b) + r) (2 ^ k) ≡ 2 ^ k * (2 * q + 1) + r
or_fields zero q b r h hb = ground (arith, or_digit (2 ^ 0 * (2 * q + b) + r) 1, or_nothing q)
or_fields (suc k) q b r h hb = ground (
  arith,
  pow-suc 2 k,
  ap (λ (t : ℕ). t * (2 * q + b)) (pow-suc 2 k),
  ap (λ (t : ℕ). t * (2 * q + 1)) (pow-suc 2 k),
  one-le-pow k 2,
  or_digit (2 ^ suc k * (2 * q + b) + r) (2 ^ suc k),
  or_fields k q b (r / 2),
)

-- A number split at bit `k`.
split_at_bit : (k a : ℕ) → a ≡ 2 ^ k * (2 * (a / 2 ^ k / 2) + bit_at k a) + a % 2 ^ k
split_at_bit k a = ground (arith, one-le-pow k 2)

set_bit :
    (k a q b r : ℕ)
    → a ≡ 2 ^ k * (2 * q + b) + r
    → r < 2 ^ k
    → b < 2
    → bit_or a (2 ^ k) ≡ a + 2 ^ k * (1 - b)
set_bit k a q zero r e h hb = rw e (omega (arith, or_fields k q 0 r))
set_bit k a q (suc zero) r e h hb = rw e (omega (arith, or_fields k q 1 r))
set_bit k a q (suc (suc b)) r e h hb = absurd (omega arith)

-- `a | (1 << k)`: bit `k` is set and nothing else changes.
pub bit_or-bit : (k a : ℕ) → bit_or a (2 ^ k) ≡ a + 2 ^ k * (1 - bit_at k a)
bit_or-bit k a =
    set_bit k a (a / 2 ^ k / 2) (bit_at k a) (a % 2 ^ k) (split_at_bit k a)
      (ground (arith, one-le-pow k 2)) (omega arith)

-- Clearing a bit, with a mask `m` above it and ones below it.
and_fields :
    (k q b r m : ℕ)
    → r < 2 ^ k
    → b < 2
    → bit_and (2 ^ k * (2 * q + b) + r) (2 ^ k * (2 * m) + (2 ^ k - 1))
      ≡ 2 ^ k * (2 * bit_and q m) + r
and_fields zero q b r m h hb =
    ground (arith, and_digit (2 ^ 0 * (2 * q + b) + r) (2 ^ 0 * (2 * m) + (2 ^ 0 - 1)))
and_fields (suc k) q b r m h hb = ground (
  arith,
  pow-suc 2 k,
  ap (λ (t : ℕ). t * (2 * q + b)) (pow-suc 2 k),
  ap (λ (t : ℕ). t * (2 * m)) (pow-suc 2 k),
  ap (λ (t : ℕ). t * (2 * bit_and q m)) (pow-suc 2 k),
  one-le-pow k 2,
  and_digit (2 ^ suc k * (2 * q + b) + r) (2 ^ suc k * (2 * m) + (2 ^ suc k - 1)),
  and_fields k q b (r / 2) m,
)

clear_bit :
    (j k a q b r : ℕ)
    → a ≡ 2 ^ k * (2 * q + b) + r
    → r < 2 ^ k
    → b < 2
    → q < 2 ^ j
    → bit_and a (2 ^ k * (2 * (2 ^ j - 1)) + (2 ^ k - 1)) ≡ a - 2 ^ k * b
clear_bit j k a q zero r e h hb hq =
    rw e (ground (arith, and_fields k q 0 r (2 ^ j - 1), bit_and-low j q, mod-eq_of_lt hq))
clear_bit j k a q (suc zero) r e h hb hq =
    rw e (ground (arith, and_fields k q 1 r (2 ^ j - 1), bit_and-low j q, mod-eq_of_lt hq))
clear_bit j k a q (suc (suc b)) r e h hb hq = absurd (omega arith)

-- `a & ~(1 << k)` on words that have `j` bits above bit `k`: bit `k` is cleared and nothing else
-- changes. The mask has ones everywhere but at `k`.
pub bit_and-clear :
    (j k a : ℕ)
    → a < 2 * 2 ^ j * 2 ^ k
    → bit_and a (2 ^ k * (2 * (2 ^ j - 1)) + (2 ^ k - 1)) ≡ a - 2 ^ k * bit_at k a
bit_and-clear j k a fits =
    clear_bit j k a (a / 2 ^ k / 2) (bit_at k a) (a % 2 ^ k) (split_at_bit k a)
      (ground (arith, one-le-pow k 2)) (omega arith)
      (omega (arith, (div-lt_iff_lt-mul (one-le-pow k 2 (omega arith))).1 fits))

-- `a & ~3` takes the two low bits off a 64-bit word.
pub bit_and-clear_two : (a : ℕ) → a < 2 ^ 64 → bit_and a (2 ^ 64 - 1 - 3) ≡ a - a % 4
bit_and-clear_two a h = omega (
  arith,
  and_digit a (2 ^ 64 - 1 - 3),
  and_digit (a / 2) (2 ^ 63 - 1 - 1),
  bit_and-low 62 (a / 2 / 2),
)
