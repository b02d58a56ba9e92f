-- ===== src/Bits/Digits.antt =====
-- The native `bit_and` and `bit_or` recur on binary digits; here is one equation for the lowest
-- digit of each, with no count of digits to go.
use Prim.Native.Nat.{min, max, digits, bit_and-bitwise, bit_or-bitwise}
use mints_riscv_cpu.Base.{ℕ, zero, suc, ◌+◌, ◌*◌, ◌/◌, ◌%◌, ◌≤◌, bit_and, bit_or, ◌≡◌, refl, arith}

module _ (last : ℕ → ℕ) (op : ℕ → ℕ → ℕ) where
  -- Any two counts that are long enough give the same number.
  count_irrelevant : (a b c d : ℕ) → a ≤ c → a ≤ d → digits last op c a b ≡ digits last op d a b
  count_irrelevant a b zero zero hc hd = refl
  count_irrelevant zero b zero (suc d) hc hd = refl
  count_irrelevant (suc a) b zero (suc d) hc hd = absurd (omega arith)
  count_irrelevant zero b (suc c) zero hc hd = refl
  count_irrelevant (suc a) b (suc c) zero hc hd = absurd (omega arith)
  count_irrelevant zero b (suc c) (suc d) hc hd = refl
  count_irrelevant (suc a) b (suc c) (suc d) hc hd =
      let half = suc a / 2 in
      omega (arith, count_irrelevant half (b / 2) c d (omega arith) (omega arith))

pub and_digit : (a b : ℕ) → bit_and a b ≡ min (a % 2) (b % 2) + 2 * bit_and (a / 2) (b / 2)
and_digit zero b = omega (arith, bit_and-bitwise 0 b, bit_and-bitwise 0 (b / 2))
and_digit (suc a) b =
    let half = suc a / 2 in
    omega (
      arith,
      bit_and-bitwise (suc a) b,
      bit_and-bitwise half (b / 2),
      count_irrelevant (λ _. 0) min half (b / 2) a half (omega arith) (omega arith),
    )

pub or_digit : (a b : ℕ) → bit_or a b ≡ max (a % 2) (b % 2) + 2 * bit_or (a / 2) (b / 2)
or_digit zero b = omega (arith, bit_or-bitwise 0 b, bit_or-bitwise 0 (b / 2))
or_digit (suc a) b =
    let half = suc a / 2 in
    omega (
      arith,
      bit_or-bitwise (suc a) b,
      bit_or-bitwise half (b / 2),
      count_irrelevant (λ n. n) max half (b / 2) a half (omega arith) (omega arith),
    )

and_nothing_below : (n a : ℕ) → a ≤ n → bit_and a 0 ≡ 0
and_nothing_below n zero h = refl
and_nothing_below zero (suc a) h = absurd (omega arith)
and_nothing_below (suc n) (suc a) h =
    omega (arith, and_digit (suc a) 0, and_nothing_below n (suc a / 2) (omega arith))

pub and_nothing : (a : ℕ) → bit_and a 0 ≡ 0
and_nothing a = and_nothing_below a a (omega arith)

or_nothing_below : (n a : ℕ) → a ≤ n → bit_or a 0 ≡ a
or_nothing_below n zero h = refl
or_nothing_below zero (suc a) h = absurd (omega arith)
or_nothing_below (suc n) (suc a) h =
    omega (arith, or_digit (suc a) 0, or_nothing_below n (suc a / 2) (omega arith))

pub or_nothing : (a : ℕ) → bit_or a 0 ≡ a
or_nothing a = or_nothing_below a a (omega arith)
