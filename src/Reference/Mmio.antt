-- ===== src/Reference/Mmio.antt =====
-- The part of `WhisperRef::step` that seeds Whisper's memory before an MMIO load (WhisperRef.cpp).
pub mod Seeding
use mints_riscv_cpu.Base.{
  ℕ, ◌*◌, ◌-◌, ◌%◌, ◌^◌, Bool, not, ◌&&◌, ◌==◌, leb, if◌then◌else◌, bit_and, u64, shl64,
}
use mints_riscv_cpu.Reference.Result.{Result, ok, fail, or_fail, load_size_unknown, mmio_not_seeded}
use mints_riscv_cpu.Reference.Commit.{RtlRetire}
use mints_riscv_cpu.Reference.Hart.{Hart}
use mints_riscv_cpu.Reference.Decode.{is_rtl_mmio_address, scalar_load_size}

-- The local `mask`: as many ones as the load has bits.
unfoldable pub load_mask : ℕ → ℕ
load_mask load_size = if leb 8 load_size then 2 ^ 64 - 1 else shl64 1 (load_size * 8) - 1

unfoldable pub raw_load_value : RtlRetire → ℕ
unfolding load_mask
raw_load_value r = bit_and r.rd_data (load_mask (scalar_load_size r.inst))

-- `rtl_mem_valid && !rtl_mem_write && is_rtl_mmio_address(rtl_mem_pa)`.
unfoldable pub reads_mmio : RtlRetire → Bool
reads_mmio r = r.mem_valid && (not r.mem_write && is_rtl_mmio_address r.mem_pa)

module _ (h : Hart) where
  -- The cases of the switch differ by the cast of the value alone, which is to the load's width.
  unfoldable pub seed_mmio_read : RtlRetire → h.State → Result h.State
  seed_mmio_read r s =
      let load_size = scalar_load_size r.inst in
      let value = raw_load_value r in
      if reads_mmio r
      then (if load_size == 0
          then fail load_size_unknown
          else or_fail (h.poke_memory s r.mem_pa load_size (value % 2 ^ (load_size * 8)))
              (mmio_not_seeded r.mem_pa load_size value))
      else ok s
