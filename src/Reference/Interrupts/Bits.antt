-- ===== src/Reference/Interrupts/Bits.antt =====
-- What `synchronize_interrupts` does to the bits of MIP.
use mints_riscv_cpu.Base.{
  ℕ, ◌/◌, ◌%◌, ◌^◌, ◌<◌, Bool, true, false, bit_and, bit_or, ◌≡◌, sym, ap, ◌∙◌, arith, some, not64,
  bit_at, to_digit,
}
use mints_riscv_cpu.Bits.{bit_or-bit, bit_and-clear}
use mints_riscv_cpu.Reference.Result.{ok}
use mints_riscv_cpu.Reference.Hart.{Hart, mip}
use mints_riscv_cpu.Reference.Interrupts.{replace_interrupts, synchronize_interrupts}

-- MTIP (bit 7) and SEIP (bit 9) become the two flags, and the bits below, between and above them
-- stay.
pub replace_interrupts_bits :
    (old : ℕ) (rtl_mtip rtl_seip : Bool)
    → old < 2 ^ 64
    → let new = replace_interrupts old rtl_mtip rtl_seip in
      (bit_at 7 new ≡ to_digit rtl_mtip)
      × (bit_at 9 new ≡ to_digit rtl_seip)
      × (new % 2 ^ 7 ≡ old % 2 ^ 7)
      × (bit_at 8 new ≡ bit_at 8 old)
      × (new / 2 ^ 10 ≡ old / 2 ^ 10)
unfolding replace_interrupts
replace_interrupts_bits old true true fits =
    omega (arith, bit_or-bit 7 old, bit_or-bit 9 (bit_or old (2 ^ 7)))
replace_interrupts_bits old true false fits =
    omega (arith, bit_or-bit 7 old, bit_and-clear 54 9 (bit_or old (2 ^ 7)))
replace_interrupts_bits old false true fits =
    omega (arith, bit_and-clear 56 7 old (omega arith), bit_or-bit 9 (bit_and old (not64 (2 ^ 7))))
replace_interrupts_bits old false false fits =
    omega (
      arith,
      bit_and-clear 56 7 old (omega arith),
      bit_and-clear 54 9 (bit_and old (not64 (2 ^ 7))),
    )

-- A successful synchronization read MIP and poked it.
pub synchronize_interrupts-eq-ok :
    (h : Hart) (s s' : h.State) (rtl_mtip rtl_seip : Bool)
    → synchronize_interrupts h s rtl_mtip rtl_seip ≡ ok s'
    → (old : ℕ) × (h.peek_csr s mip ≡ some old)
      × (h.external_poke_csr s mip (replace_interrupts old rtl_mtip rtl_seip) ≡ some s')
unfolding synchronize_interrupts
synchronize_interrupts-eq-ok h s s' rtl_mtip rtl_seip synced = ground arith

-- A successful synchronization has read a MIP and poked one whose MTIP and SEIP are the two flags
-- and whose other bits are those that it has read.
pub synchronize_interrupts_lem :
    (h : Hart) (s s' : h.State) (old : ℕ) (rtl_mtip rtl_seip : Bool)
    → h.peek_csr s mip ≡ some old
    → old < 2 ^ 64
    → synchronize_interrupts h s rtl_mtip rtl_seip ≡ ok s'
    → (new : ℕ) × (h.external_poke_csr s mip new ≡ some s')
      × (bit_at 7 new ≡ to_digit rtl_mtip)
      × (bit_at 9 new ≡ to_digit rtl_seip)
      × (new % 2 ^ 7 ≡ old % 2 ^ 7)
      × (bit_at 8 new ≡ bit_at 8 old)
      × (new / 2 ^ 10 ≡ old / 2 ^ 10)
synchronize_interrupts_lem h s s' old rtl_mtip rtl_seip read fits synced =
    let (value, is_read, poked) = synchronize_interrupts-eq-ok h s s' rtl_mtip rtl_seip synced in
    let poke = λ (v : ℕ). h.external_poke_csr s mip (replace_interrupts v rtl_mtip rtl_seip) in
    let same : value ≡ old = cc in
    let bits = replace_interrupts_bits old rtl_mtip rtl_seip fits in
    (
      replace_interrupts old rtl_mtip rtl_seip,
      sym (ap poke same) ∙ poked,
      bits.0,
      bits.1,
      bits.2,
      bits.3,
      bits.4,
    )
