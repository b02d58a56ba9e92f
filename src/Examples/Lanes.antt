-- ===== src/Examples/Lanes.antt =====
-- The theorems about the byte lanes at concrete inputs.
use mints_riscv_cpu.Base.{◌*◌, ◌^◌, ◌<◌, ◌≡◌, arith, ◌⊎◌}
use mints_riscv_cpu.Testbench.Lanes.{first_set_lane, size_from_byte_mask, normalize_rtl_store_data}
use mints_riscv_cpu.Testbench.Lanes.Stores.{
  half, set_bits, IsAccessSize, store_mask-fields, normalize_rtl_store_data-bytes,
  size_from_byte_mask_lem,
}
use mints_riscv_cpu.Testbench.Lanes.Bounds.{normalize_rtl_store_data-lt}

store_mask-fields_example : (size_from_byte_mask 0x30 ≡ 2) × (first_set_lane 0x30 ≡ 4)
store_mask-fields_example = store_mask-fields {size = 2} {lane = 4} (half (omega arith))

normalize_rtl_store_data-bytes_example : normalize_rtl_store_data 0xabcd_0000_1111 0x30 ≡ 0xabcd
normalize_rtl_store_data-bytes_example =
    normalize_rtl_store_data-bytes {size = 2} {lane = 4} 0xabcd_0000_1111 (half (omega arith))
      (omega arith)

size_from_byte_mask_lem_example :
    (IsAccessSize (set_bits 0x70) → size_from_byte_mask 0x70 ≡ set_bits 0x70)
    × (¬ IsAccessSize (set_bits 0x70) → size_from_byte_mask 0x70 ≡ 0)
size_from_byte_mask_lem_example = size_from_byte_mask_lem 0x70

normalize_rtl_store_data-lt_example :
    (first_set_lane 0x70 * 8 < 64)
    × (normalize_rtl_store_data 0xabcd 0x70 < 2 ^ 64)
    × (((size_from_byte_mask 0x70 ≡ 0) × (normalize_rtl_store_data 0xabcd 0x70 ≡ 0xabcd))
        ⊎ (normalize_rtl_store_data 0xabcd 0x70 < 2 ^ (size_from_byte_mask 0x70 * 8)))
normalize_rtl_store_data-lt_example = normalize_rtl_store_data-lt 0xabcd 0x70 (omega arith)
