-- ===== src/Testbench/Compare/Agreement.antt =====
-- When `compare_commit` accepts.
use mints_riscv_cpu.Base.{ℕ, Bool, true, false, ◌≡◌, ◌↔◌, arith, bit_and, []}
use mints_riscv_cpu.Reference.Commit.{RefCommit}
use mints_riscv_cpu.Testbench.Dut.{Dut}
use mints_riscv_cpu.Testbench.Lanes.{
  value_mask_for_size, size_from_byte_mask, normalize_rtl_store_data,
}
use mints_riscv_cpu.Testbench.Compare.{
  Report, Difference, addr_line, pa_line, data_line, rd, rd_data, compare_number, compare_flag,
  compare_destination, compare_size, compare_data, compare_access, compare_memory, add_context,
  compare_commit,
}

-- The retired instruction of the RTL and the commit of the reference have the same effects.
pub record Agrees (dut : Dut) (ref : RefCommit) : Type 0 where
  pub pc : dut.retire_pc ≡ ref.pc
  pub privilege : dut.retire_priv ≡ ref.privilege
  pub rd_we : dut.retire_rd_we ≡ ref.rd_we
  pub rd : dut.retire_rd_we ≡ true → dut.retire_rd_addr ≡ ref.rd
  pub rd_data : dut.retire_rd_we ≡ true → dut.retire_rd_data ≡ ref.rd_data
  pub mem_valid : dut.retire_mem_valid ≡ ref.mem_valid
  pub mem_write : dut.retire_mem_valid ≡ true → dut.retire_mem_write ≡ ref.mem_write
  pub mem_addr : dut.retire_mem_valid ≡ true → dut.retire_mem_addr ≡ ref.mem_va
  pub mem_pa : dut.retire_mem_valid ≡ true → dut.retire_mem_pa ≡ ref.mem_pa1
  pub mem_size :
      dut.retire_mem_valid ≡ true
      → dut.retire_mem_write ≡ true
      → size_from_byte_mask dut.retire_mem_mask ≡ ref.mem_size
  pub mem_data :
      dut.retire_mem_valid ≡ true
      → dut.retire_mem_write ≡ true
      → bit_and
          (normalize_rtl_store_data dut.retire_mem_data dut.retire_mem_mask)
          (value_mask_for_size ref.mem_size)
        ≡ bit_and ref.mem_data (value_mask_for_size ref.mem_size)

-- Each stage keeps `ok` exactly when it was set and what the stage compares agrees.
compare_number-ok :
    (line : ℕ → ℕ → Difference) (rtl ref : ℕ) (report : Report)
    → ((compare_number line rtl ref report).ok ≡ true) ↔ ((report.ok ≡ true) × (rtl ≡ ref))
unfolding compare_number
compare_number-ok line rtl ref report = ground arith

compare_flag-ok :
    (line : Bool → Bool → Difference) (rtl ref : Bool) (report : Report)
    → ((compare_flag line rtl ref report).ok ≡ true) ↔ ((report.ok ≡ true) × (rtl ≡ ref))
unfolding compare_flag
compare_flag-ok line true true report = ground arith
compare_flag-ok line true false report = ground arith
compare_flag-ok line false true report = ground arith
compare_flag-ok line false false report = ground arith

record DestinationAgrees (dut : Dut) (ref : RefCommit) : Type 0 where
  rd_we : dut.retire_rd_we ≡ ref.rd_we
  rd : dut.retire_rd_we ≡ true → dut.retire_rd_addr ≡ ref.rd
  rd_data : dut.retire_rd_we ≡ true → dut.retire_rd_data ≡ ref.rd_data

abbrev SizeAgrees : Dut → RefCommit → Type 0
SizeAgrees dut ref =
    dut.retire_mem_write ≡ true → size_from_byte_mask dut.retire_mem_mask ≡ ref.mem_size

abbrev DataAgrees : Dut → RefCommit → Type 0
DataAgrees dut ref =
    dut.retire_mem_write ≡ true
    → ref.mem_write ≡ true
    → bit_and (normalize_rtl_store_data dut.retire_mem_data dut.retire_mem_mask)
        (value_mask_for_size ref.mem_size)
      ≡ bit_and ref.mem_data (value_mask_for_size ref.mem_size)

record MemoryAgrees (dut : Dut) (ref : RefCommit) : Type 0 where
  mem_valid : dut.retire_mem_valid ≡ ref.mem_valid
  mem_write : dut.retire_mem_valid ≡ true → dut.retire_mem_write ≡ ref.mem_write
  mem_addr : dut.retire_mem_valid ≡ true → dut.retire_mem_addr ≡ ref.mem_va
  mem_pa : dut.retire_mem_valid ≡ true → dut.retire_mem_pa ≡ ref.mem_pa1
  mem_size : dut.retire_mem_valid ≡ true → SizeAgrees dut ref
  mem_data : dut.retire_mem_valid ≡ true → DataAgrees dut ref

compare_destination-ok :
    (dut : Dut) (ref : RefCommit) (report : Report)
    → ((compare_destination dut ref report).ok ≡ true)
      ↔ ((report.ok ≡ true) × DestinationAgrees dut ref)
unfolding compare_destination
compare_destination-ok dut ref report = ground (
  arith,
  compare_number-ok rd dut.retire_rd_addr ref.rd report,
  compare_number-ok rd_data dut.retire_rd_data ref.rd_data
      (compare_number rd dut.retire_rd_addr ref.rd report),
)

compare_size-ok :
    (dut : Dut) (ref : RefCommit) (report : Report)
    → ((compare_size dut ref report).ok ≡ true) ↔ ((report.ok ≡ true) × SizeAgrees dut ref)
unfolding compare_size
compare_size-ok dut ref report = ground arith

compare_data-ok :
    (dut : Dut) (ref : RefCommit) (report : Report)
    → ((compare_data dut ref report).ok ≡ true) ↔ ((report.ok ≡ true) × DataAgrees dut ref)
unfolding compare_data
compare_data-ok dut ref report = ground (
  arith,
  compare_number-ok (data_line dut)
      (bit_and (normalize_rtl_store_data dut.retire_mem_data dut.retire_mem_mask)
        (value_mask_for_size ref.mem_size))
      (bit_and ref.mem_data (value_mask_for_size ref.mem_size)) report,
)

-- The access of both sides is compared field by field.
compare_access-ok :
    (dut : Dut) (ref : RefCommit) (report : Report)
    → ((compare_access dut ref report).ok ≡ true) ↔ (
        (report.ok ≡ true)
        × (dut.retire_mem_write ≡ ref.mem_write)
        × (dut.retire_mem_addr ≡ ref.mem_va)
        × (dut.retire_mem_pa ≡ ref.mem_pa1)
        × SizeAgrees dut ref
        × DataAgrees dut ref)
unfolding compare_access
compare_access-ok dut ref report =
    let flagged = compare_flag Difference.mem_write dut.retire_mem_write ref.mem_write report in
    let virtual = compare_number (addr_line ref) dut.retire_mem_addr ref.mem_va flagged in
    let physical = compare_number (pa_line dut ref) dut.retire_mem_pa ref.mem_pa1 virtual in
    let flag = compare_flag-ok Difference.mem_write dut.retire_mem_write ref.mem_write report in
    let va = compare_number-ok (addr_line ref) dut.retire_mem_addr ref.mem_va flagged in
    let pa = compare_number-ok (pa_line dut ref) dut.retire_mem_pa ref.mem_pa1 virtual in
    let size = compare_size-ok dut ref physical in
    let bytes = compare_data-ok dut ref (compare_size dut ref physical) in
    (
      λ e.
          let (sized, data_agrees) = bytes.0 e in
          let (placed, size_agrees) = size.0 sized in
          let (addressed, pa_agrees) = pa.0 placed in
          let (started, va_agrees) = va.0 addressed in
          let (before, flag_agrees) = flag.0 started in
          (before, flag_agrees, va_agrees, pa_agrees, size_agrees, data_agrees),
      λ (before, flag_agrees, va_agrees, pa_agrees, size_agrees, data_agrees). bytes.1 (
        size.1 (pa.1 (va.1 (flag.1 (before, flag_agrees), va_agrees), pa_agrees), size_agrees),
        data_agrees,
      ),
    )

compare_memory-ok :
    (dut : Dut) (ref : RefCommit) (report : Report)
    → ((compare_memory dut ref report).ok ≡ true) ↔ ((report.ok ≡ true) × MemoryAgrees dut ref)
unfolding compare_memory
compare_memory-ok dut ref report = ground (arith, compare_access-ok dut ref report)

add_context-ok :
    (dut : Dut) (ref : RefCommit) (report : Report) → (add_context dut ref report).ok ≡ report.ok
unfolding add_context
add_context-ok dut ref report = ground arith

-- `compare_commit` accepts exactly the commits that agree with the RTL: in pc, privilege, and
-- whether a register is written and memory accessed; if a register is written, in its number and
-- value; if memory is accessed, in the direction and both addresses; and of a store in the size and
-- the stored bytes.
pub compare_commit_iff :
    (dut : Dut) (ref : RefCommit) → ((compare_commit dut ref).ok ≡ true) ↔ Agrees dut ref
unfolding compare_commit
compare_commit_iff dut ref = ground (
  arith,
  compare_number-ok Difference.pc dut.retire_pc ref.pc at_start,
  compare_number-ok Difference.privilege dut.retire_priv ref.privilege with_pc,
  compare_destination-ok dut ref with_privilege,
  compare_memory-ok dut ref with_destination,
  add_context-ok dut ref (compare_memory dut ref with_destination),
)
  where
    at_start : Report
    at_start = record { ok = true; differences = [] }

    with_pc : Report
    with_pc = compare_number Difference.pc dut.retire_pc ref.pc at_start

    with_privilege : Report
    with_privilege = compare_number Difference.privilege dut.retire_priv ref.privilege with_pc

    with_destination : Report
    with_destination = compare_destination dut ref with_privilege
