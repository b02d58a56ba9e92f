-- ===== src/Testbench/Setup.antt =====
-- How tb/tb_verilator.cpp sets the harness up: plusargs, the environment, and the reset.
pub mod Plusargs
use mints_riscv_cpu.Base.{
  ℕ, zero, suc, ◌+◌, ◌-◌, ◌*◌, ◌%◌, ◌^◌, Bool, true, false, not, ◌&&◌, ◌||◌, ◌==◌, leb, ltb,
  if◌then◌else◌, List, [], ◌∷◌, ◌++◌, length, drop, is_empty, Option, none, some, Text, codes,
}
use mints_riscv_cpu.Reference.Result.{Result, ok, fail, ◌>>=◌, missing_environment}
use mints_riscv_cpu.Reference.Commit.{WhisperConfig, default_config}
use mints_riscv_cpu.Reference.Hart.{Hart}
use mints_riscv_cpu.Reference.Config.{construct}
use mints_riscv_cpu.Testbench.Harness.{Options}
use mints_riscv_cpu.Testbench.Loop.{Design}

-- std::strtoull with base 0, which `plusarg_u64` calls. A digit in any base up to 36; 36 is none.
unfoldable pub digit_of : ℕ → ℕ
digit_of c =
    if leb 48 c && leb c 57
    then c - 48
    else if leb 97 c && leb c 122
    then c - 87
    else if leb 65 c && leb c 90
    then c - 55
    else 36

unfoldable pub is_space : ℕ → Bool
is_space c = c == 32 || leb 9 c && leb c 13

unfoldable pub skip_spaces : Text → Text
skip_spaces [] = []
skip_spaces (c ∷ cs) = let rest = skip_spaces cs in if is_space c then rest else c ∷ cs

-- The value of the digits in front, after those that stand for `n`, and the text behind them.
unfoldable pub read_digits : ℕ → ℕ → Text → ℕ × Text
read_digits base n [] = (n, [])
read_digits base n (c ∷ cs) = elim (ltb (digit_of c) base) [
  | true ↦ read_digits base (n * base + digit_of c) cs
  | false ↦ (n, c ∷ cs)
]

unfoldable pub starts_with : Text → Text → Bool
starts_with [] text = true
starts_with (c ∷ cs) [] = false
starts_with (c ∷ cs) (d ∷ ds) = c == d && starts_with cs ds

-- Whether a text starts with a digit of a base.
unfoldable pub starts_with_digit : ℕ → Text → Bool
starts_with_digit base [] = false
starts_with_digit base (c ∷ cs) = ltb (digit_of c) base

-- The number in front, without a sign, and the text behind it: the prefix tells the base.
unfoldable pub read_unsigned : Text → Option (ℕ × Text)
read_unsigned text =
    if (starts_with (codes "0x") text || starts_with (codes "0X") text)
      && starts_with_digit 16 (drop 2 text)
    then some (read_digits 16 0 (drop 2 text))
    else if starts_with (codes "0") text
    then some (read_digits 8 0 text)
    else if starts_with_digit 10 text
    then some (read_digits 10 0 text)
    else none

-- Too large a number is the largest; a minus sign negates modulo 2 ^ 64.
unfoldable pub to_u64 : Bool → ℕ → ℕ
to_u64 negative n =
    if leb (2 ^ 64) n then 2 ^ 64 - 1 else if negative then (2 ^ 64 - n) % 2 ^ 64 else n

-- The value, and the text from `end` on: all of it where there is no number.
unfoldable pub strtoull : Text → ℕ × Text
strtoull text =
    let unspaced = skip_spaces text in
    let negative = starts_with (codes "-") unspaced in
    let body = if negative || starts_with (codes "+") unspaced then drop 1 unspaced else unspaced in
    elim (read_unsigned body) [ none ↦ (0, text) | some (n, rest) ↦ (to_u64 negative n, rest) ]

-- `plusarg_u64` over the arguments after the program's name: what it returns, and `value` after it.
unfoldable pub plusarg_u64 : List Text → Text → ℕ → Bool × ℕ
plusarg_u64 [] key value = (false, value)
plusarg_u64 (arg ∷ args) key value =
    let prefix = codes "+" ++ (key ++ codes "=") in
    let text = drop (length prefix) arg in
    let parsed = strtoull text in
    let rest = plusarg_u64 args key value in
    if not (starts_with prefix arg)
    then rest
    else (not (length parsed.1 == length text) && is_empty parsed.1, parsed.0)

-- `lockstep_stop_enabled` and `lockstep_stop_order`.
unfoldable pub stop_options : List Text → Options
stop_options args =
    let stop = plusarg_u64 args (codes "LOCKSTEP_STOP_ORDER") 0 in
    record { stop_enabled = stop.0; stop_order = stop.1 }

-- `required_environment`, over what `getenv` returns.
unfoldable pub required_environment : (Text → Option Text) → Text → Result Text
required_environment getenv name = elim (getenv name) [
  | none ↦ fail (missing_environment name)
  | some value ↦ if is_empty value then fail (missing_environment name) else ok value
]

-- A variable that need not be there.
unfoldable pub optional_environment : (Text → Option Text) → Text → Text
optional_environment getenv name = elim (getenv name) [ none ↦ [] | some value ↦ value ]

-- The configuration that `create_whisper_reference` builds.
unfoldable pub environment_config : (Text → Option Text) → Result WhisperConfig
environment_config getenv = required_environment getenv (codes "WHISPER_OPENSBI_ELF") >>= λ elf.
    ok (record default_config {
      opensbi_elf = elf;
      dtb_binary = optional_environment getenv (codes "WHISPER_DTB");
      linux_binary = optional_environment getenv (codes "WHISPER_LINUX");
      start_pc = 0x80000000;
      hart_id = 0;
      dtb_address = 0x87f00000;
      linux_address = 0x80200000;
    })

unfoldable pub create_whisper_reference : (h : Hart) → (Text → Option Text) → Result h.State
create_whisper_reference h getenv = environment_config getenv >>= construct h

module _ (g : Design) where
  -- The half cycles with the reset asserted: the clock goes on from `clk`.
  unfoldable pub reset_cycles : ℕ → Bool → g.State → g.State
  reset_cycles zero clk d = d
  reset_cycles (suc left) clk d = reset_cycles left (not clk) (g.eval (not clk) false d)

  unfoldable pub reset_design : g.State → g.State
  reset_design d = g.eval false true (reset_cycles 4 false (g.eval false true d))
