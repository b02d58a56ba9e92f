-- ===== src/Testbench/Compare.antt =====
-- `compare_commit` of tb/tb_verilator.cpp. The differences that it prints are values here.
pub mod Agreement
pub mod Table
pub mod Reports
use mints_riscv_cpu.Base.{
  ℕ, Bool, true, false, not, ◌&&◌, ◌==◌, same_flag, if◌then◌else◌, List, [], ◌∷◌, ◌++◌, bit_and,
}
use mints_riscv_cpu.Reference.Commit.{RefCommit}
use mints_riscv_cpu.Testbench.Dut.{Dut}
use mints_riscv_cpu.Testbench.Lanes.{
  value_mask_for_size, size_from_byte_mask, normalize_rtl_store_data,
}

-- One constructor for each line of the report, with the RTL's value and then the reference's.
pub data Difference : Type 0 where
  pc privilege rd rd_data : ℕ → ℕ → Difference
  rd_we mem_valid mem_write : Bool → Bool → Difference
  -- And the reference's physical address.
  mem_addr : ℕ → ℕ → ℕ → Difference
  -- And the virtual addresses of both.
  mem_pa : ℕ → ℕ → ℕ → ℕ → Difference
  -- And the RTL's mask.
  mem_size : ℕ → ℕ → ℕ → Difference
  -- And the RTL's data before they are normalized, and its mask.
  mem_data : ℕ → ℕ → ℕ → ℕ → Difference
  -- The access, after the differences: the RTL's address and physical address, the reference's
  -- physical address, address and size, and whether the RTL's is a store.
  mem_context : ℕ → ℕ → ℕ → ℕ → ℕ → Bool → Difference

-- `ok` and `differences`.
pub record Report : Type 0 where
  pub ok : Bool
  pub differences : List Difference

abbrev pub add_difference : Difference → Report → Report
add_difference d report = record { ok = false; differences = report.differences ++ d ∷ [] }

-- The lines with more than the two values that differ.
abbrev pub addr_line : RefCommit → ℕ → ℕ → Difference
addr_line ref rtl va = mem_addr rtl va ref.mem_pa1

abbrev pub pa_line : Dut → RefCommit → ℕ → ℕ → Difference
pa_line dut ref rtl pa = mem_pa rtl pa dut.retire_mem_addr ref.mem_va

abbrev pub data_line : Dut → ℕ → ℕ → Difference
data_line dut rtl bytes = mem_data rtl bytes dut.retire_mem_data dut.retire_mem_mask

abbrev pub context_line : Dut → RefCommit → Difference
context_line dut ref =
    mem_context dut.retire_mem_addr dut.retire_mem_pa ref.mem_pa1 ref.mem_va ref.mem_size
      dut.retire_mem_write

-- `if (rtl != ref) add_difference(...)` for numbers.
unfoldable pub compare_number : (ℕ → ℕ → Difference) → ℕ → ℕ → Report → Report
compare_number line rtl ref report =
    if not (rtl == ref) then add_difference (line rtl ref) report else report

unfoldable pub compare_flag : (Bool → Bool → Difference) → Bool → Bool → Report → Report
compare_flag line rtl ref report =
    if not (same_flag rtl ref) then add_difference (line rtl ref) report else report

unfoldable pub compare_destination : Dut → RefCommit → Report → Report
compare_destination dut ref report =
    if not (same_flag dut.retire_rd_we ref.rd_we)
    then add_difference (rd_we dut.retire_rd_we ref.rd_we) report
    else if dut.retire_rd_we
    then compare_number rd_data dut.retire_rd_data ref.rd_data
        (compare_number rd dut.retire_rd_addr ref.rd report)
    else report

-- The size of a store. A load's is not compared.
unfoldable pub compare_size : Dut → RefCommit → Report → Report
compare_size dut ref report =
    let rtl_mem_size = size_from_byte_mask dut.retire_mem_mask in
    if dut.retire_mem_write && not (rtl_mem_size == ref.mem_size)
    then add_difference (mem_size rtl_mem_size ref.mem_size dut.retire_mem_mask) report
    else report

-- The data of a store, as far as the reference's size goes.
unfoldable pub compare_data : Dut → RefCommit → Report → Report
compare_data dut ref report =
    let rtl_store_data = normalize_rtl_store_data dut.retire_mem_data dut.retire_mem_mask in
    let mask = value_mask_for_size ref.mem_size in
    if dut.retire_mem_write && ref.mem_write
    then compare_number (data_line dut) (bit_and rtl_store_data mask) (bit_and ref.mem_data mask)
        report
    else report

-- What is compared of an access that both sides made.
unfoldable pub compare_access : Dut → RefCommit → Report → Report
compare_access dut ref report = compare_data dut ref (
    compare_size dut ref (
      compare_number (pa_line dut ref) dut.retire_mem_pa ref.mem_pa1 (
        compare_number (addr_line ref) dut.retire_mem_addr ref.mem_va
          (compare_flag mem_write dut.retire_mem_write ref.mem_write report))))

unfoldable pub compare_memory : Dut → RefCommit → Report → Report
compare_memory dut ref report =
    if not (same_flag dut.retire_mem_valid ref.mem_valid)
    then add_difference (mem_valid dut.retire_mem_valid ref.mem_valid) report
    else if dut.retire_mem_valid
    then compare_access dut ref report
    else report

unfoldable pub add_context : Dut → RefCommit → Report → Report
add_context dut ref report =
    if not report.ok && dut.retire_mem_valid
    then record report { differences = report.differences ++ context_line dut ref ∷ [] }
    else report

unfoldable pub compare_commit : Dut → RefCommit → Report
compare_commit dut ref = add_context dut ref (
    compare_memory dut ref (
      compare_destination dut ref (
        compare_number privilege dut.retire_priv ref.privilege
          (compare_number pc dut.retire_pc ref.pc (record { ok = true; differences = [] })))))
