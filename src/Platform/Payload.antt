-- ===== src/Platform/Payload.antt =====
-- The S-mode payload of OpenSBI, platform/opensbi_payload.c: what it asks of the firmware, what it
-- prints, and how it ends the simulation.
pub mod Console
use mints_riscv_cpu.Base.{
  ℕ, zero, suc, ◌*◌, ◌%◌, ◌>>>◌, if◌then◌else◌, ltb, ◌+◌, bit_and, List, [], ◌∷◌, ◌++◌, Text, codes,
  digit_char,
}

-- The registers of an ecall: a0 to a5, then a6 and a7.
pub record SbiCall : Type 0 where
  pub a0 : ℕ
  pub a1 : ℕ
  pub a2 : ℕ
  pub a3 : ℕ
  pub a4 : ℕ
  pub a5 : ℕ
  pub fid : ℕ
  pub eid : ℕ

-- `struct sbiret`, its two signed words as 64-bit words.
pub record SbiRet : Type 0 where
  pub error : ℕ
  pub value : ℕ

-- What the payload does that can be seen from outside.
pub data Action : Type 0 where
  ecall : SbiCall → Action
  -- A volatile store of 64 bits: the address and the value.
  store : ℕ → ℕ → Action
  wfi : Action

-- The firmware, which the payload only calls.
pub record Firmware : Type 1 where
  pub State : Type 0
  pub handle : State → SbiCall → SbiRet × State

abbrev pub debug_mmio_base : ℕ
debug_mmio_base = 0x40000000

-- The firmware's state and what the payload has done, latest last.
pub record Machine (S : Type 0) : Type 0 where
  pub firmware : S
  pub actions : List Action

-- The legacy console.
abbrev pub putchar_call : ℕ → SbiCall
putchar_call ch = record { a0 = ch; a1 = 0; a2 = 0; a3 = 0; a4 = 0; a5 = 0; fid = 0; eid = 0x01 }

-- The SBI specification's version.
abbrev pub base_spec_call : SbiCall
base_spec_call = record { a0 = 0; a1 = 0; a2 = 0; a3 = 0; a4 = 0; a5 = 0; fid = 0; eid = 0x10 }

abbrev pub digits : Text
digits = codes "0123456789abcdef"

-- `digits[i]`, for `i` within the string.
unfoldable pub char_at : ℕ → Text → ℕ
char_at i [] = 0
char_at zero (c ∷ cs) = c
char_at (suc i) (c ∷ cs) = char_at i cs

module _ (f : Firmware) where
  unfoldable pub sbi_call : SbiCall → Machine f.State → SbiRet × Machine f.State
  sbi_call call m =
      let r = f.handle m.firmware call in
      (r.0, record { firmware = r.1; actions = m.actions ++ ecall call ∷ [] })

  unfoldable pub sbi_putchar : ℕ → Machine f.State → Machine f.State
  sbi_putchar ch m = (sbi_call (putchar_call ch) m).1

  unfoldable pub puts : Text → Machine f.State → Machine f.State
  puts [] m = m
  puts (c ∷ cs) m = puts cs (sbi_putchar c m)

  -- The loop with `left` digits to go: the shift is four times the number of those that follow.
  unfoldable pub put_digits : ℕ → ℕ → Machine f.State → Machine f.State
  put_digits zero value m = m
  put_digits (suc left) value m =
      put_digits left value (sbi_putchar (char_at (bit_and (value >>> (4 * left)) 0xf) digits) m)

  unfoldable pub puthex64 : ℕ → Machine f.State → Machine f.State
  puthex64 = put_digits 16

  unfoldable pub sim_exit_success : Machine f.State → Machine f.State
  sim_exit_success m = record m { actions = m.actions ++ store debug_mmio_base 1 ∷ [] }

  -- `payload_main` up to its last loop.
  unfoldable pub payload_report : ℕ → ℕ → Machine f.State → Machine f.State
  payload_report hartid dtb_addr m =
      let r = sbi_call base_spec_call m in
      let m1 = puts (codes "hartid=0x") (puts (codes "\nOpenSBI S-mode payload reached\n") r.1) in
      let m2 = puts (codes " dtb=0x") (puthex64 hartid m1) in
      let m3 = puts (codes "\nSBI base spec=0x") (puthex64 dtb_addr m2) in
      let m4 = puts (codes " error=0x") (puthex64 r.0.value m3) in
      sim_exit_success (puts (codes "\n") (puthex64 r.0.error m4))

  -- The loop that nothing leaves, for `n` rounds.
  unfoldable pub idle : ℕ → Machine f.State → Machine f.State
  idle zero m = m
  idle (suc n) m = idle n (record m { actions = m.actions ++ wfi ∷ [] })

  unfoldable pub payload_main : ℕ → ℕ → ℕ → Machine f.State → Machine f.State
  payload_main rounds hartid dtb_addr m = idle rounds (payload_report hartid dtb_addr m)
