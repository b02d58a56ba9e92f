-- ===== src/Testbench/Setup/Plusargs.antt =====
-- What `plusarg_u64` finds.
use mints_riscv_cpu.Base.{
  ℕ, zero, suc, ◌+◌, ◌*◌, ◌/◌, ◌%◌, ◌^◌, ◌<◌, ◌≡◌, refl, ◌∙◌, arith, Bool, true, false, not, ◌&&◌,
  List, [], ◌∷◌, ◌++◌, drop-length_append, Text, codes, to_hex, print_onto, digit_char,
}
use mints_riscv_cpu.Testbench.Setup.{
  digit_of, is_space, skip_spaces, read_digits, starts_with, starts_with_digit, read_unsigned,
  to_u64, strtoull, plusarg_u64,
}

digit_of-digit_char : (d : ℕ) → d < 16 → digit_of (digit_char d) ≡ d
unfolding digit_of digit_char
digit_of-digit_char d small = ground arith

-- Hexadecimal digits are read as such.
starts_with_digit-print_onto :
    (left n : ℕ) (after : Text) → starts_with_digit 16 (print_onto 16 (suc left) n after) ≡ true
unfolding print_onto starts_with_digit
starts_with_digit-print_onto zero n after =
    ground (arith, digit_of-digit_char (n % 16) (omega arith))
starts_with_digit-print_onto (suc left) n after = ground (
  arith,
  digit_of-digit_char (n % 16) (omega arith),
  starts_with_digit-print_onto left (n / 16) (digit_char (n % 16) ∷ after),
)

read_digits-digit :
    (n d : ℕ) (after : Text)
    → d < 16
    → read_digits 16 n (digit_char d ∷ after) ≡ read_digits 16 (n * 16 + d) after
unfolding read_digits
read_digits-digit n d after small = ground (arith, digit_of-digit_char d small)

read_digits-print_onto :
    (left n : ℕ) (after : Text)
    → n < 16 ^ left
    → read_digits 16 0 (print_onto 16 left n after) ≡ read_digits 16 n after
unfolding print_onto
read_digits-print_onto zero n after small = ground arith
read_digits-print_onto (suc left) n after small = ground (
  arith,
  read_digits-digit 0 (n % 16) after (omega arith),
  read_digits-digit (n / 16) (n % 16) after (omega arith),
  read_digits-print_onto left (n / 16) (digit_char (n % 16) ∷ after) (omega arith),
)

strtoull-to_hex : (n : ℕ) → n < 2 ^ 64 → strtoull (codes "0x" ++ to_hex n) ≡ (n, [])
unfolding strtoull skip_spaces is_space starts_with read_unsigned to_u64 to_hex read_digits
strtoull-to_hex n small =
    ground (arith, starts_with_digit-print_onto 15 n [], read_digits-print_onto 16 n [] small)

starts_with-append : (prefix text : Text) → starts_with prefix (prefix ++ text) ≡ true
unfolding starts_with
starts_with-append [] text = refl
starts_with-append (c ∷ cs) text = ground (arith, starts_with-append cs text)

abbrev pub plusarg_prefix : Text → Text
plusarg_prefix key = codes "+" ++ (key ++ codes "=")

-- No argument is a plusarg of this key.
abbrev pub lacks_plusarg : Text → List Text → Bool
lacks_plusarg key [] = true
lacks_plusarg key (arg ∷ args) =
    not (starts_with (plusarg_prefix key) arg) && lacks_plusarg key args

plusarg_u64-first :
    (key : Text) (after : List Text) (n value : ℕ)
    → n < 2 ^ 64
    → plusarg_u64 ((plusarg_prefix key ++ (codes "0x" ++ to_hex n)) ∷ after) key value ≡ (true, n)
unfolding plusarg_u64
plusarg_u64-first key after n value small =
    rw
      (
        starts_with-append (plusarg_prefix key) (codes "0x" ++ to_hex n),
        drop-length_append (plusarg_prefix key) (codes "0x" ++ to_hex n),
        strtoull-to_hex n small,
      )
      (ground arith)

plusarg_u64-skip :
    (key arg : Text) (args : List Text) (value : ℕ)
    → starts_with (plusarg_prefix key) arg ≡ false
    → plusarg_u64 (arg ∷ args) key value ≡ plusarg_u64 args key value
unfolding plusarg_u64
plusarg_u64-skip key arg args value other = rw other refl

-- The first plusarg of a key decides: if it gives a 64-bit number in hexadecimal, that is what
-- `plusarg_u64` finds, whatever the arguments behind it are.
pub plusarg_u64-to_hex :
    (key : Text) (before after : List Text) (n value : ℕ)
    → n < 2 ^ 64
    → lacks_plusarg key before ≡ true
    → plusarg_u64 (before ++ (plusarg_prefix key ++ (codes "0x" ++ to_hex n)) ∷ after) key value
      ≡ (true, n)
plusarg_u64-to_hex key [] after n value small lacks = plusarg_u64-first key after n value small
plusarg_u64-to_hex key (arg ∷ before) after n value small lacks =
    plusarg_u64-skip key arg _ value (ground arith)
    ∙ plusarg_u64-to_hex key before after n value small (ground arith)
