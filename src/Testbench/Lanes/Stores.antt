-- ===== src/Testbench/Lanes/Stores.antt =====
-- The lane helpers against the stores that the RTL reports: `size` bytes from lane `lane` on.
use mints_riscv_cpu.Base.{
  ℕ, ◌+◌, ◌-◌, ◌*◌, ◌/◌, ◌%◌, ◌^◌, ◌<◌, Bool, true, false, ◌&&◌, ◌==◌, ◌≡◌, refl, arith, bit_and,
  passes_below, passes_below-lt, bit_at, ◌⊎◌,
}
use native.Mathlib.Nat.{div-le_self}
use mints_riscv_cpu.Bits.{bit_and-low}
use mints_riscv_cpu.Testbench.Lanes.{
  count_set_from, value_mask_for_size, first_set_lane, size_from_byte_mask,
  normalize_rtl_store_data,
}

-- The sizes and lanes of the stores that fit a doubleword.
pub data Store : ℕ → ℕ → Type 0 where
  byte : {lane : ℕ} → lane < 8 → Store 1 lane
  half : {lane : ℕ} → lane < 7 → Store 2 lane
  word : {lane : ℕ} → lane < 5 → Store 4 lane
  double : Store 8 0

-- The byte mask of a store.
abbrev pub store_mask : ℕ → ℕ → ℕ
store_mask size lane = (2 ^ size - 1) * 2 ^ lane

-- The helpers on the mask of a store, lane by lane.
abbrev reads_back : ℕ → ℕ → Bool
reads_back size lane =
    size_from_byte_mask (store_mask size lane) == size
    && first_set_lane (store_mask size lane) == lane

lane_tables :
    (passes_below 8 (reads_back 1) ≡ true)
    × (passes_below 7 (reads_back 2) ≡ true)
    × (passes_below 5 (reads_back 4) ≡ true)
    × (passes_below 1 (reads_back 8) ≡ true)
unfolding passes_below size_from_byte_mask count_set_from first_set_lane
lane_tables = (refl, refl, refl, refl)

Store-reads_back : {size lane : ℕ} → Store size lane → reads_back size lane ≡ true
Store-reads_back {lane} (byte fits) = passes_below-lt 8 (reads_back 1) lane lane_tables.0 fits
Store-reads_back {lane} (half fits) = passes_below-lt 7 (reads_back 2) lane lane_tables.1 fits
Store-reads_back {lane} (word fits) = passes_below-lt 5 (reads_back 4) lane lane_tables.2 fits
Store-reads_back double = passes_below-lt 1 (reads_back 8) 0 lane_tables.3 (omega arith)

-- The size and the lane are read back from the mask of every store that fits a doubleword.
pub store_mask-fields :
    {size lane : ℕ}
    → Store size lane
    → (size_from_byte_mask (store_mask size lane) ≡ size)
      × (first_set_lane (store_mask size lane) ≡ lane)
store_mask-fields {size} {lane} store = ground (arith, Store-reads_back store)

bit_and-value_mask :
    {size lane : ℕ} (value : ℕ)
    → Store size lane
    → value < 2 ^ 64
    → bit_and value (value_mask_for_size size) ≡ value % 2 ^ (size * 8)
unfolding value_mask_for_size
bit_and-value_mask value (byte fits) h = omega (arith, bit_and-low 8 value)
bit_and-value_mask value (half fits) h = omega (arith, bit_and-low 16 value)
bit_and-value_mask value (word fits) h = omega (arith, bit_and-low 32 value)
bit_and-value_mask value double h = omega (arith, bit_and-low 64 value)

Store-size : {size lane : ℕ} → Store size lane → (size == 0) ≡ false
Store-size (byte fits) = refl
Store-size (half fits) = refl
Store-size (word fits) = refl
Store-size double = refl

-- For a store that fits a doubleword, normalizing the data of the lanes takes out the stored bytes,
-- whatever the other lanes hold.
pub normalize_rtl_store_data-bytes :
    {size lane : ℕ} (lanes : ℕ)
    → Store size lane
    → lanes < 2 ^ 64
    → normalize_rtl_store_data lanes (store_mask size lane)
      ≡ lanes / 2 ^ (lane * 8) % 2 ^ (size * 8)
unfolding normalize_rtl_store_data
normalize_rtl_store_data-bytes {size} {lane} lanes store fits =
    let (size_read, lane_read) = store_mask-fields store in
    rw (size_read, lane_read, Store-size store)
      (bit_and-value_mask (lanes / 2 ^ (lane * 8)) store
        (omega (arith, div-le_self lanes (2 ^ (lane * 8)))))

-- The number of bits that are set in the eight lanes of a mask.
pub set_bits : ℕ → ℕ
set_bits mask =
    bit_at 0 mask
    + bit_at 1 mask
    + bit_at 2 mask
    + bit_at 3 mask
    + bit_at 4 mask
    + bit_at 5 mask
    + bit_at 6 mask
    + bit_at 7 mask

abbrev pub IsAccessSize : ℕ → Type 0
IsAccessSize n = (n ≡ 1) ⊎ ((n ≡ 2) ⊎ ((n ≡ 4) ⊎ (n ≡ 8)))

count_set_from-set_bits : (mask : ℕ) → count_set_from 8 0 mask 0 ≡ set_bits mask
unfolding count_set_from set_bits
count_set_from-set_bits mask = omega (
  arith,
  bit_and-low 1 (mask / 2 ^ 0),
  bit_and-low 1 (mask / 2 ^ 1),
  bit_and-low 1 (mask / 2 ^ 2),
  bit_and-low 1 (mask / 2 ^ 3),
  bit_and-low 1 (mask / 2 ^ 4),
  bit_and-low 1 (mask / 2 ^ 5),
  bit_and-low 1 (mask / 2 ^ 6),
  bit_and-low 1 (mask / 2 ^ 7),
)

-- Any mask is read as the number of its set bits where that is the size of an access, and as 0
-- where it is not.
pub size_from_byte_mask_lem :
    (mask : ℕ)
    → (IsAccessSize (set_bits mask) → size_from_byte_mask mask ≡ set_bits mask)
      × (¬ IsAccessSize (set_bits mask) → size_from_byte_mask mask ≡ 0)
unfolding size_from_byte_mask
size_from_byte_mask_lem mask = (
  λ size. ground (arith, count_set_from-set_bits mask),
  λ other. ground (arith, count_set_from-set_bits mask),
)
