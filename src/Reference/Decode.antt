-- ===== src/Reference/Decode.antt =====
-- The helpers of WhisperRef.cpp that read an instruction word or an address.
pub mod Fields
use mints_riscv_cpu.Base.{
  ℕ, ◌-◌, ◌≤◌, ◌<◌, Bool, true, false, not, ◌&&◌, ◌||◌, ◌==◌, leb, ltb, if◌then◌else◌, bit_and,
  ◌>>>◌, ◌≡◌, refl,
}

abbrev pub opcode_system : ℕ
opcode_system = 0x73

abbrev pub csr_time : ℕ
csr_time = 0xc01

unfoldable pub is_csr_instruction_for : ℕ → ℕ → Bool
is_csr_instruction_for inst expected_csr =
    let opcode = bit_and inst 0x7f in
    let funct3 = bit_and (inst >>> 12) 0x7 in
    let csr = bit_and (inst >>> 20) 0xfff in
    opcode == opcode_system && (not (funct3 == 0) && csr == expected_csr)

unfoldable pub is_time_csr_instruction : ℕ → Bool
unfolding is_csr_instruction_for
is_time_csr_instruction inst = is_csr_instruction_for inst csr_time

-- The subtraction is made only where it cannot wrap.
unfoldable pub address_in_range : ℕ → ℕ → ℕ → Bool
address_in_range address base size = leb base address && ltb (address - base) size

abbrev pub aclint_base : ℕ
aclint_base = 0x02000000

abbrev pub aclint_size : ℕ
aclint_size = 0x00010000

abbrev pub plic_base : ℕ
plic_base = 0x0c000000

abbrev pub plic_size : ℕ
plic_size = 0x04000000

abbrev pub uart_base : ℕ
uart_base = 0x10000000

abbrev pub uart_size : ℕ
uart_size = 0x00000100

unfoldable pub is_rtl_mmio_address : ℕ → Bool
unfolding address_in_range
is_rtl_mmio_address address =
    address_in_range address aclint_base aclint_size
    || (address_in_range address plic_base plic_size
        || address_in_range address uart_base uart_size)

-- The switch on funct3 of a base scalar load: LB LH LW LD LBU LHU LWU.
unfoldable pub base_load_size : ℕ → ℕ
base_load_size funct3 =
    if funct3 == 0
    then 1
    else if funct3 == 1
    then 2
    else if funct3 == 2
    then 4
    else if funct3 == 3
    then 8
    else if funct3 == 4
    then 1
    else if funct3 == 5
    then 2
    else if funct3 == 6
    then 4
    else 0

-- C.LW and C.LD, C.LWSP and C.LDSP.
unfoldable pub compressed_load_size : ℕ → ℕ → ℕ
compressed_load_size quadrant funct3 =
    let loads = quadrant == 0 || quadrant == 2 in
    if loads && funct3 == 2 then 4 else if loads && funct3 == 3 then 8 else 0

unfoldable pub scalar_load_size : ℕ → ℕ
unfolding base_load_size compressed_load_size
scalar_load_size inst =
    if bit_and inst 0x7f == 0x03
    then base_load_size (bit_and (inst >>> 12) 0x7)
    else if not (bit_and inst 0x3 == 0x3)
    then compressed_load_size (bit_and inst 0x3) (bit_and (inst >>> 13) 0x7)
    else 0

-- LD a0, 0(a0); LBU; C.LW; C.LDSP; ADDI.
sizes_of_loads :
    (scalar_load_size 0x00053503 ≡ 8)
    × (scalar_load_size 0x00054503 ≡ 1)
    × (scalar_load_size 0x4108 ≡ 4)
    × (scalar_load_size 0x6502 ≡ 8)
    × (scalar_load_size 0x00150513 ≡ 0)
unfolding scalar_load_size
sizes_of_loads = (refl, refl, refl, refl, refl)
