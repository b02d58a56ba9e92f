-- ===== src/Base/Numerals.antt =====
-- Numbers as texts, the way std::to_string and std::hex print them, and how they read back.
use Prim.Native.Nat.{ℕ, zero, suc, ◌+◌, ◌-◌, ◌*◌, ◌/◌, ◌%◌, ◌^◌, ◌<◌}
use mathlib.Core.Path.{◌≡◌, refl}
use mathlib.Core.Bool.{Bool, true, false, not, ◌&&◌}
use mathlib.Core.List.{[], ◌∷◌}
use native.Mathlib.Omega.{arith}
use mints_riscv_cpu.Base.Tests.{◌==◌, ltb, if◌then◌else◌}
use mints_riscv_cpu.Base.Lists.{Text}

-- A digit: 0 to 9, then the small letters.
unfoldable pub digit_char : ℕ → ℕ
digit_char d = if ltb d 10 then 48 + d else 87 + d

unfoldable pub char_digit : ℕ → ℕ
char_digit c = if ltb c 58 then c - 48 else c - 87

-- The digits of `n`, at most `left` of them, in front of `after`.
unfoldable pub print_onto : ℕ → ℕ → ℕ → Text → Text
print_onto base zero n after = after
print_onto base (suc left) n after = elim (n / base == 0) [
  | true ↦ digit_char (n % base) ∷ after
  | false ↦ print_onto base left (n / base) (digit_char (n % base) ∷ after)
]

-- A 64-bit number has at most 16 hexadecimal and 20 decimal digits.
unfoldable pub to_hex : ℕ → Text
to_hex n = print_onto 16 16 n []

unfoldable pub to_decimal : ℕ → Text
to_decimal n = print_onto 10 20 n []

-- The value of hexadecimal digits after those that stand for `n`.
abbrev pub read_hex : ℕ → Text → ℕ
read_hex n [] = n
read_hex n (c ∷ cs) = read_hex (n * 16 + char_digit c) cs

pub char_digit-digit_char : (d : ℕ) → d < 16 → char_digit (digit_char d) ≡ d
unfolding char_digit digit_char
char_digit-digit_char d small = ground arith

print_onto-stop :
    (left n : ℕ) (after : Text) → n < 16 → print_onto 16 (suc left) n after ≡ digit_char n ∷ after
unfolding print_onto
print_onto-stop left n after small = ground arith

read_hex-print_onto :
    (left n : ℕ) (after : Text)
    → n < 16 ^ left
    → read_hex 0 (print_onto 16 left n after) ≡ read_hex n after
unfolding print_onto
read_hex-print_onto zero n after small = ground arith
read_hex-print_onto (suc left) n after small = ground (
  arith,
  char_digit-digit_char (n % 16) (omega arith),
  read_hex-print_onto left (n / 16) (digit_char (n % 16) ∷ after) (omega arith),
)

pub read_hex-to_hex : (n : ℕ) → n < 2 ^ 64 → read_hex 0 (to_hex n) ≡ n
unfolding to_hex
read_hex-to_hex n small = read_hex-print_onto 16 n [] small

-- Whether a text has no colon.
abbrev pub lacks_colon : Text → Bool
lacks_colon [] = true
lacks_colon (c ∷ cs) = not (c == 58) && lacks_colon cs

digit_char-ne-colon : (d : ℕ) → (digit_char d == 58) ≡ false
unfolding digit_char
digit_char-ne-colon d = ground arith

lacks_colon-print_onto :
    (base left n : ℕ) (after : Text)
    → lacks_colon after ≡ true
    → lacks_colon (print_onto base left n after) ≡ true
unfolding print_onto
lacks_colon-print_onto base zero n after lacks = lacks
lacks_colon-print_onto base (suc left) n after lacks = ground (
  arith,
  digit_char-ne-colon (n % base),
  lacks_colon-print_onto base left (n / base) (digit_char (n % base) ∷ after),
)

pub lacks_colon-to_hex : (n : ℕ) → lacks_colon (to_hex n) ≡ true
unfolding to_hex
lacks_colon-to_hex n = lacks_colon-print_onto 16 16 n [] refl
