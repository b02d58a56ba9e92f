-- ===== src/Reference/Decode/Fields.antt =====
-- The decoding helpers against the fields of the instruction formats and the address windows,
-- written with `/` and `%`.
use mints_riscv_cpu.Base.{
  ℕ, zero, suc, ◌+◌, ◌/◌, ◌%◌, ◌^◌, ◌≤◌, ◌<◌, true, ◌≡◌, ◌≢◌, ◌↔◌, ◌⊎◌, refl, arith,
}
use mints_riscv_cpu.Bits.{bit_and-low}
use mints_riscv_cpu.Reference.Decode.{
  is_time_csr_instruction, address_in_range, is_rtl_mmio_address, base_load_size, scalar_load_size,
}

-- A word is taken for a TIME access exactly when its opcode field is SYSTEM, its funct3 field is not
-- 0 and its csr field is 0xc01.
pub is_time_csr_instruction_iff :
    (inst : ℕ)
    → (is_time_csr_instruction inst ≡ true)
      ↔ ((inst % 128 ≡ 0x73) × (inst / 4096 % 8 ≢ 0) × (inst / 1048576 % 4096 ≡ 0xc01))
unfolding is_time_csr_instruction
is_time_csr_instruction_iff inst =
    ground (arith, bit_and-low 7 inst, bit_and-low 3 (inst / 4096), bit_and-low 12 (inst / 1048576))

-- The window test is the half-open interval, with no wrap at any address.
pub address_in_range_iff :
    (address base size : ℕ)
    → (address_in_range address base size ≡ true) ↔ ((base ≤ address) × (address < base + size))
unfolding address_in_range
address_in_range_iff address base size = ground arith

-- An address is taken for MMIO exactly when it is in [0x02000000, 0x02010000), the ACLINT, in
-- [0x0c000000, 0x10000000), the PLIC, or in [0x10000000, 0x10000100), the UART.
pub is_rtl_mmio_address_iff :
    (address : ℕ)
    → (is_rtl_mmio_address address ≡ true) ↔ (
        ((0x02000000 ≤ address) × (address < 0x02010000))
        ⊎ (((0x0c000000 ≤ address) × (address < 0x10000000))
            ⊎ ((0x10000000 ≤ address) × (address < 0x10000100))))
unfolding is_rtl_mmio_address
is_rtl_mmio_address_iff address = ground arith

base_load_size-lt : (f : ℕ) → f < 7 → base_load_size f ≡ 2 ^ (f % 4)
unfolding base_load_size
base_load_size-lt zero h = refl
base_load_size-lt (suc zero) h = refl
base_load_size-lt (suc (suc zero)) h = refl
base_load_size-lt (suc (suc (suc zero))) h = refl
base_load_size-lt (suc (suc (suc (suc zero)))) h = refl
base_load_size-lt (suc (suc (suc (suc (suc zero))))) h = refl
base_load_size-lt (suc (suc (suc (suc (suc (suc zero)))))) h = refl
base_load_size-lt (suc (suc (suc (suc (suc (suc (suc n))))))) h = absurd (omega arith)

base_load_size-le : (f : ℕ) → 7 ≤ f → base_load_size f ≡ 0
unfolding base_load_size
base_load_size-le f h = ground arith

-- The width that a scalar load's encoding gives, in bytes: funct3 of a base load, of which the two
-- low bits are the width's logarithm, and funct3 2 or 3 of a compressed load in quadrant 0 or 2.
pub data LoadWidth (inst : ℕ) : ℕ → Type 0 where
  base_load : inst % 128 ≡ 3 → inst / 4096 % 8 < 7 → LoadWidth inst (2 ^ (inst / 4096 % 8 % 4))
  compressed_word : inst % 2 ≡ 0 → inst / 8192 % 8 ≡ 2 → LoadWidth inst 4
  compressed_double : inst % 2 ≡ 0 → inst / 8192 % 8 ≡ 3 → LoadWidth inst 8

pub scalar_load_size-LoadWidth : (inst n : ℕ) → LoadWidth inst n → scalar_load_size inst ≡ n
unfolding scalar_load_size
scalar_load_size-LoadWidth inst n (base_load opcode loads) =
    ground
      (arith, bit_and-low 7 inst, bit_and-low 3 (inst / 4096), base_load_size-lt (inst / 4096 % 8))
scalar_load_size-LoadWidth inst n (compressed_word even funct3) =
    ground (arith, bit_and-low 7 inst, bit_and-low 2 inst, bit_and-low 3 (inst / 8192))
scalar_load_size-LoadWidth inst n (compressed_double even funct3) =
    ground (arith, bit_and-low 7 inst, bit_and-low 2 inst, bit_and-low 3 (inst / 8192))

pub scalar_load_size-eq-zero :
    (inst : ℕ) → ((n : ℕ) → ¬ LoadWidth inst n) → scalar_load_size inst ≡ 0
unfolding scalar_load_size
scalar_load_size-eq-zero inst none_fits = ground (
  arith,
  bit_and-low 7 inst,
  bit_and-low 2 inst,
  bit_and-low 3 (inst / 8192),
  bit_and-low 3 (inst / 4096),
  base_load_size-le (inst / 4096 % 8),
  λ (p : inst % 128 ≡ 3) (q : inst / 4096 % 8 < 7). none_fits _ (base_load p q),
  λ (p : inst % 2 ≡ 0) (q : inst / 8192 % 8 ≡ 2). none_fits 4 (compressed_word p q),
  λ (p : inst % 2 ≡ 0) (q : inst / 8192 % 8 ≡ 3). none_fits 8 (compressed_double p q),
)

-- `scalar_load_size` gives every scalar load, base or compressed, the width of its encoding, and
-- every other word 0.
pub scalar_load_size_lem :
    (inst : ℕ)
    → ((n : ℕ) → LoadWidth inst n → scalar_load_size inst ≡ n)
      × (((n : ℕ) → ¬ LoadWidth inst n) → scalar_load_size inst ≡ 0)
scalar_load_size_lem inst = (scalar_load_size-LoadWidth inst, scalar_load_size-eq-zero inst)
