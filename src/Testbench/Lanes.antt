-- ===== src/Testbench/Lanes.antt =====
-- The byte-lane helpers of tb/tb_verilator.cpp.
pub mod Stores
pub mod Bounds
use mints_riscv_cpu.Base.{
  ℕ, zero, suc, ◌+◌, ◌-◌, ◌*◌, ◌/◌, ◌%◌, ◌^◌, not, ◌==◌, leb, if◌then◌else◌, bit_and, ◌>>>◌, shl64,
  u8, ◌≡◌, refl,
}

unfoldable pub value_mask_for_size : ℕ → ℕ
value_mask_for_size size =
    if size == 0 then 0 else if leb 8 size then 2 ^ 64 - 1 else shl64 1 (size * 8) - 1

-- The loop from lane `lane`, with `left` lanes to go.
unfoldable pub first_set_from : ℕ → ℕ → ℕ → ℕ
first_set_from zero lane mask = 0
first_set_from (suc left) lane mask =
    let rest = first_set_from left (suc lane) mask in
    if not (bit_and mask (2 ^ lane) == 0) then lane else rest

unfoldable pub first_set_lane : ℕ → ℕ
unfolding first_set_from
first_set_lane mask = first_set_from 8 0 mask

-- The counting loop from lane `lane`, with `left` lanes to go.
unfoldable pub count_set_from : ℕ → ℕ → ℕ → ℕ → ℕ
count_set_from zero lane mask count = count
count_set_from (suc left) lane mask count =
    count_set_from left (suc lane) mask (count + bit_and (mask >>> lane) 1)

unfoldable pub size_from_byte_mask : ℕ → ℕ
size_from_byte_mask mask =
    let count = count_set_from 8 0 mask 0 in
    if count == 1
    then count
    else if count == 2
    then count
    else if count == 4
    then count
    else if count == 8
    then count
    else 0

unfoldable pub normalize_rtl_store_data : ℕ → ℕ → ℕ
normalize_rtl_store_data lane_aligned_data byte_mask =
    let size = size_from_byte_mask byte_mask in
    let lane = first_set_lane byte_mask in
    if size == 0
    then lane_aligned_data
    else bit_and (lane_aligned_data >>> (lane * 8)) (value_mask_for_size size)

lanes_of_a_halfword :
    (size_from_byte_mask 0x30 ≡ 2)
    × (first_set_lane 0x30 ≡ 4)
    × (normalize_rtl_store_data 0xabcd_0000_1111 0x30 ≡ 0xabcd)
    × (normalize_rtl_store_data 0xabcd 0x70 ≡ 0xabcd)
unfolding normalize_rtl_store_data size_from_byte_mask count_set_from first_set_lane
    value_mask_for_size
lanes_of_a_halfword = (refl, refl, refl, refl)
