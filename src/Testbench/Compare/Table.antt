-- ===== src/Testbench/Compare/Table.antt =====
-- What the RTL and the reference should differ in, as a table of lines.
use mints_riscv_cpu.Base.{
  ℕ, Bool, not, ◌&&◌, ◌==◌, same_flag, List, [], ◌∷◌, ◌++◌, bit_and, if◌then◌else◌,
}
use mints_riscv_cpu.Reference.Commit.{RefCommit}
use mints_riscv_cpu.Testbench.Dut.{Dut}
use mints_riscv_cpu.Testbench.Lanes.{
  size_from_byte_mask, normalize_rtl_store_data, value_mask_for_size,
}
use mints_riscv_cpu.Testbench.Compare.{Difference}

-- A line of the table.
abbrev pub where_true : Bool → Difference → List Difference
where_true test line = if test then line ∷ [] else []

module _ (dut : Dut) (ref : RefCommit) where
  -- The lines about the destination: its number and value where both sides write one.
  abbrev pub destination_lines : List Difference
  destination_lines =
      let both = dut.retire_rd_we && ref.rd_we in
      where_true (not (same_flag dut.retire_rd_we ref.rd_we))
        (Difference.rd_we dut.retire_rd_we ref.rd_we)
      ++ (where_true (both && not (dut.retire_rd_addr == ref.rd))
            (Difference.rd dut.retire_rd_addr ref.rd)
          ++ where_true (both && not (dut.retire_rd_data == ref.rd_data))
              (Difference.rd_data dut.retire_rd_data ref.rd_data))

  -- The stored bytes on both sides, as far as the reference's size goes.
  abbrev pub rtl_bytes : ℕ
  rtl_bytes =
      bit_and (normalize_rtl_store_data dut.retire_mem_data dut.retire_mem_mask)
        (value_mask_for_size ref.mem_size)

  abbrev pub ref_bytes : ℕ
  ref_bytes = bit_and ref.mem_data (value_mask_for_size ref.mem_size)

  -- The lines about an access.
  abbrev pub access_lines : Bool → List Difference
  access_lines both =
      let size = size_from_byte_mask dut.retire_mem_mask in
      where_true (both && not (same_flag dut.retire_mem_write ref.mem_write))
        (Difference.mem_write dut.retire_mem_write ref.mem_write)
      ++ (where_true (both && not (dut.retire_mem_addr == ref.mem_va))
            (Difference.mem_addr dut.retire_mem_addr ref.mem_va ref.mem_pa1)
          ++ (where_true (both && not (dut.retire_mem_pa == ref.mem_pa1))
                (Difference.mem_pa dut.retire_mem_pa ref.mem_pa1 dut.retire_mem_addr ref.mem_va)
              ++ (where_true (both && (dut.retire_mem_write && not (size == ref.mem_size)))
                    (Difference.mem_size size ref.mem_size dut.retire_mem_mask)
                  ++ where_true
                      (both
                        && (dut.retire_mem_write
                            && (ref.mem_write && not (rtl_bytes == ref_bytes))))
                      (Difference.mem_data rtl_bytes ref_bytes dut.retire_mem_data
                        dut.retire_mem_mask))))

  -- The table: each line with the values that it prints, in order.
  abbrev pub differing : List Difference
  differing =
      where_true (not (dut.retire_pc == ref.pc)) (Difference.pc dut.retire_pc ref.pc)
      ++ (where_true (not (dut.retire_priv == ref.privilege))
            (Difference.privilege dut.retire_priv ref.privilege)
          ++ (destination_lines
              ++ (where_true (not (same_flag dut.retire_mem_valid ref.mem_valid))
                    (Difference.mem_valid dut.retire_mem_valid ref.mem_valid)
                  ++ access_lines (dut.retire_mem_valid && ref.mem_valid))))
