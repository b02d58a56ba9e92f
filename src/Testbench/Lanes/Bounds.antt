-- ===== src/Testbench/Lanes/Bounds.antt =====
-- The lane helpers stay within their widths, and shift by less than a word.
use mints_riscv_cpu.Base.{
  ℕ, zero, suc, ◌+◌, ◌-◌, ◌*◌, ◌%◌, ◌^◌, ◌<◌, ◌≡◌, ◌⊎◌, inl, inr, refl, ap, arith, bit_and, ◌>>>◌,
}
use mints_riscv_cpu.Bits.{bit_and-low}
use mints_riscv_cpu.Testbench.Lanes.{
  value_mask_for_size, first_set_from, first_set_lane, size_from_byte_mask,
  normalize_rtl_store_data,
}
use mints_riscv_cpu.Testbench.Lanes.Stores.{IsAccessSize}

first_set_from-lt :
    (left lane mask : ℕ) → 0 < lane + left → first_set_from left lane mask < lane + left
unfolding first_set_from
first_set_from-lt zero lane mask some_lane = some_lane
first_set_from-lt (suc left) lane mask some_lane =
    ground (arith, first_set_from-lt left (suc lane) mask (omega arith))

size_from_byte_mask-IsAccessSize :
    (mask : ℕ) → (size_from_byte_mask mask ≡ 0) ⊎ IsAccessSize (size_from_byte_mask mask)
unfolding size_from_byte_mask
size_from_byte_mask-IsAccessSize mask = ground arith

-- A mask of an access is all ones on its width.
value_mask_for_size-IsAccessSize :
    (size : ℕ) → IsAccessSize size → value_mask_for_size size ≡ 2 ^ (size * 8) - 1
unfolding value_mask_for_size
value_mask_for_size-IsAccessSize size (inl e) = rw e refl
value_mask_for_size-IsAccessSize size (inr (inl e)) = rw e refl
value_mask_for_size-IsAccessSize size (inr (inr (inl e))) = rw e refl
value_mask_for_size-IsAccessSize size (inr (inr (inr e))) = rw e refl

first_set_lane-lt : (mask : ℕ) → first_set_lane mask < 8
unfolding first_set_lane
first_set_lane-lt mask = first_set_from-lt 8 0 mask (omega arith)

normalize-no_size :
    (lanes mask : ℕ) → size_from_byte_mask mask ≡ 0 → normalize_rtl_store_data lanes mask ≡ lanes
unfolding normalize_rtl_store_data
normalize-no_size lanes mask e = ground (arith, e)

-- The shifted lanes cut to a width that is an access size.
normalize-sized :
    (lanes mask : ℕ)
    → IsAccessSize (size_from_byte_mask mask)
    → normalize_rtl_store_data lanes mask
      ≡ (lanes >>> (first_set_lane mask * 8)) % 2 ^ (size_from_byte_mask mask * 8)
unfolding normalize_rtl_store_data
normalize-sized lanes mask sized =
    let size = size_from_byte_mask mask in
    let shifted = lanes >>> (first_set_lane mask * 8) in
    let ones = value_mask_for_size-IsAccessSize size sized in
    let low = bit_and-low (size * 8) shifted in ground (arith, ones, low, ap (bit_and shifted) ones)

size-bounds :
    (n v : ℕ) → IsAccessSize n → (v % 2 ^ (n * 8) < 2 ^ (n * 8)) × (v % 2 ^ (n * 8) < 2 ^ 64)
size-bounds n v (inl e) = rw e (omega arith)
size-bounds n v (inr (inl e)) = rw e (omega arith)
size-bounds n v (inr (inr (inl e))) = rw e (omega arith)
size-bounds n v (inr (inr (inr e))) = rw e (omega arith)

-- For any mask, also one that is no store's, the data of the lanes is shifted by less than a word,
-- and what is left of a 64-bit word has 64 bits. Either the mask has no access
-- size and the word stays as it is, or what is left has no more than the stored bytes.
pub normalize_rtl_store_data-lt :
    (lanes mask : ℕ)
    → lanes < 2 ^ 64
    → let size = size_from_byte_mask mask in
      (first_set_lane mask * 8 < 64)
      × (normalize_rtl_store_data lanes mask < 2 ^ 64)
      × (((size ≡ 0) × (normalize_rtl_store_data lanes mask ≡ lanes))
          ⊎ (normalize_rtl_store_data lanes mask < 2 ^ (size * 8)))
normalize_rtl_store_data-lt lanes mask word =
    let size = size_from_byte_mask mask in
    let shift : first_set_lane mask * 8 < 64 = omega (arith, first_set_lane-lt mask) in
    elim (size_from_byte_mask-IsAccessSize mask) [
      | inl none ↦
          let same = normalize-no_size lanes mask none in
          (shift, omega (arith, same), inl (none, same))
      | inr sized ↦
          let same = normalize-sized lanes mask sized in
          let bounds = size-bounds size (lanes >>> (first_set_lane mask * 8)) sized in
          (shift, rw same bounds.1, inr (rw same bounds.0))
    ]
