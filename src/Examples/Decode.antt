-- ===== src/Examples/Decode.antt =====
-- The theorems about instruction words and addresses at concrete inputs.
use mints_riscv_cpu.Base.{ℕ, ◌/◌, ◌%◌, ◌<◌, ◌≤◌, true, ◌≡◌, ◌≢◌, ◌↔◌, ◌⊎◌}
use mints_riscv_cpu.Reference.Decode.{
  is_time_csr_instruction, is_rtl_mmio_address, scalar_load_size,
}
use mints_riscv_cpu.Reference.Decode.Fields.{
  LoadWidth, is_time_csr_instruction_iff, is_rtl_mmio_address_iff, scalar_load_size_lem,
}

is_time_csr_instruction_iff_example : (is_time_csr_instruction 0xc0102573 ≡ true) ↔ (
    (0xc0102573 % 128 ≡ 0x73) × (0xc0102573 / 4096 % 8 ≢ 0) × (0xc0102573 / 1048576 % 4096 ≡ 0xc01))
is_time_csr_instruction_iff_example = is_time_csr_instruction_iff 0xc0102573

is_rtl_mmio_address_iff_example : (is_rtl_mmio_address 0x10000005 ≡ true) ↔ (
    ((0x02000000 ≤ 0x10000005) × (0x10000005 < 0x02010000))
    ⊎ (((0x0c000000 ≤ 0x10000005) × (0x10000005 < 0x10000000))
        ⊎ ((0x10000000 ≤ 0x10000005) × (0x10000005 < 0x10000100))))
is_rtl_mmio_address_iff_example = is_rtl_mmio_address_iff 0x10000005

scalar_load_size_lem_example :
    ((n : ℕ) → LoadWidth 0x00054503 n → scalar_load_size 0x00054503 ≡ n)
    × (((n : ℕ) → ¬ LoadWidth 0x00054503 n) → scalar_load_size 0x00054503 ≡ 0)
scalar_load_size_lem_example = scalar_load_size_lem 0x00054503
