-- ===== src/Reference/Interrupts.antt =====
-- `WhisperRef::synchronize_interrupts` of WhisperRef.cpp.
pub mod Bits
use mints_riscv_cpu.Base.{ℕ, ◌^◌, ◌-◌, Bool, if◌then◌else◌, bit_and, bit_or, not64}
use mints_riscv_cpu.Reference.Result.{Result, ◌>>=◌, or_fail, mip_unreadable, mip_not_synchronized}
use mints_riscv_cpu.Reference.Hart.{Hart, mip}

abbrev pub mtip_mask : ℕ
mtip_mask = 2 ^ 7

abbrev pub seip_mask : ℕ
seip_mask = 2 ^ 9

-- The new value of MIP.
unfoldable pub replace_interrupts : ℕ → Bool → Bool → ℕ
replace_interrupts old rtl_mtip rtl_seip =
    let timed = if rtl_mtip then bit_or old mtip_mask else bit_and old (not64 mtip_mask) in
    if rtl_seip then bit_or timed seip_mask else bit_and timed (not64 seip_mask)

module _ (h : Hart) where
  unfoldable pub synchronize_interrupts : h.State → Bool → Bool → Result h.State
  synchronize_interrupts s rtl_mtip rtl_seip = do
    old ← or_fail (h.peek_csr s mip) mip_unreadable
    or_fail (h.external_poke_csr s mip (replace_interrupts old rtl_mtip rtl_seip))
        mip_not_synchronized
