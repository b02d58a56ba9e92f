-- ===== src/Testbench/Compare/Reports.antt =====
-- The report of `compare_commit` against the table.
use mints_riscv_cpu.Base.{
  ℕ, Bool, true, not, ◌&&◌, ◌==◌, same_flag, ◌≡◌, refl, sym, ap, ◌∙◌, arith, List, [], ◌∷◌, ◌++◌,
  is_empty,
}
use mathlib.Core.List.{append_assoc}
use mints_riscv_cpu.Reference.Commit.{RefCommit}
use mints_riscv_cpu.Testbench.Dut.{Dut}
use mints_riscv_cpu.Testbench.Lanes.{size_from_byte_mask}
use mints_riscv_cpu.Testbench.Compare.{
  Difference, addr_line, pa_line, data_line, context_line, Report, compare_number, compare_flag,
  compare_destination, compare_size, compare_data, compare_access, compare_memory, add_context,
  compare_commit,
}
use mints_riscv_cpu.Testbench.Compare.Table.{
  where_true, destination_lines, rtl_bytes, ref_bytes, access_lines, differing,
}

-- A stage adds lines to a report, and keeps `ok` if there are none.
record Adds (before after : Report) (lines : List Difference) : Type 0 where
  differences : after.differences ≡ before.differences ++ lines
  ok : after.ok ≡ (before.ok && is_empty lines)

append_empty : (lines : List Difference) → lines ≡ lines ++ []
append_empty [] = refl
append_empty (d ∷ lines) = ap (λ r. d ∷ r) (append_empty lines)

Adds-nothing : (r : Report) → Adds r r []
Adds-nothing r = record { differences = append_empty r.differences; ok = ground arith }

is_empty-++ : (a b : List Difference) → is_empty (a ++ b) ≡ (is_empty a && is_empty b)
is_empty-++ [] b = refl
is_empty-++ (d ∷ a) b = refl

-- There is no context without lines.
context_of_lines :
    (lines : List Difference) (valid : Bool) (context : Difference)
    → (is_empty lines && is_empty (where_true (not (is_empty lines) && valid) context))
      ≡ is_empty lines
context_of_lines [] valid context = refl
context_of_lines (d ∷ lines) valid context = refl

Adds-trans : {r s t : Report} {a b : List Difference} → Adds r s a → Adds s t b → Adds r t (a ++ b)
Adds-trans {r} {s} {t} {a} {b} v w = record {
  differences = w.differences ∙ ap (λ l. l ++ b) v.differences ∙ append_assoc r.differences a b;
  ok = ground (arith, v.ok, w.ok, is_empty-++ a b);
}

compare_number-Adds :
    (line : ℕ → ℕ → Difference) (rtl ref : ℕ) (r : Report)
    → Adds r (compare_number line rtl ref r) (where_true (not (rtl == ref)) (line rtl ref))
unfolding compare_number
compare_number-Adds line rtl ref r = record {
  differences = ground (arith, append_empty r.differences);
  ok = ground arith;
}

compare_flag-Adds :
    (line : Bool → Bool → Difference) (rtl ref : Bool) (r : Report)
    → Adds r (compare_flag line rtl ref r) (where_true (not (same_flag rtl ref)) (line rtl ref))
unfolding compare_flag
compare_flag-Adds line rtl ref r = record {
  differences = ground (arith, append_empty r.differences);
  ok = ground arith;
}

module _ (dut : Dut) (ref : RefCommit) where
  compare_destination-Adds :
      (r : Report) → Adds r (compare_destination dut ref r) (destination_lines dut ref)
  unfolding compare_destination
  compare_destination-Adds r =
      let numbers =
        Adds-trans (compare_number-Adds Difference.rd dut.retire_rd_addr ref.rd r)
          (compare_number-Adds Difference.rd_data dut.retire_rd_data ref.rd_data _) in
      record {
        differences = ground (arith, numbers.differences, append_empty r.differences);
        ok = ground (arith, numbers.ok);
      }

  compare_size-Adds :
      (r : Report)
      → Adds r (compare_size dut ref r) (
          let size = size_from_byte_mask dut.retire_mem_mask in
          where_true
            (dut.retire_mem_write && not (size == ref.mem_size))
            (Difference.mem_size size ref.mem_size dut.retire_mem_mask))
  unfolding compare_size
  compare_size-Adds r = record {
    differences = ground (arith, append_empty r.differences);
    ok = ground arith;
  }

  compare_data-Adds :
      (r : Report)
      → Adds r (compare_data dut ref r) (
          where_true
            (dut.retire_mem_write
              && (ref.mem_write && not (rtl_bytes dut ref == ref_bytes dut ref)))
            (data_line dut (rtl_bytes dut ref) (ref_bytes dut ref)))
  unfolding compare_data
  compare_data-Adds r =
      let bytes = compare_number-Adds (data_line dut) (rtl_bytes dut ref) (ref_bytes dut ref) r in
      record {
        differences = ground (arith, bytes.differences, append_empty r.differences);
        ok = ground (arith, bytes.ok);
      }

  compare_access-Adds : (r : Report) → Adds r (compare_access dut ref r) (access_lines dut ref true)
  unfolding compare_access
  compare_access-Adds r =
      Adds-trans (compare_flag-Adds Difference.mem_write dut.retire_mem_write ref.mem_write r) (
        Adds-trans (compare_number-Adds (addr_line ref) dut.retire_mem_addr ref.mem_va _) (
          Adds-trans (compare_number-Adds (pa_line dut ref) dut.retire_mem_pa ref.mem_pa1 _)
            (Adds-trans (compare_size-Adds _) (compare_data-Adds _))))

  compare_memory-Adds :
      (r : Report)
      → Adds r (compare_memory dut ref r) (
          where_true
            (not (same_flag dut.retire_mem_valid ref.mem_valid))
            (Difference.mem_valid dut.retire_mem_valid ref.mem_valid)
          ++ access_lines dut ref (dut.retire_mem_valid && ref.mem_valid))
  unfolding compare_memory
  compare_memory-Adds r =
      let access = compare_access-Adds r in
      record {
        differences = ground (arith, access.differences, append_empty r.differences);
        ok = ground (arith, access.ok);
      }

  -- The context follows the lines, over any report.
  add_context-lines :
      (r : Report) (lines : List Difference)
      → Adds (record { ok = true; differences = [] }) r lines
      → let context =
          where_true (not (is_empty lines) && dut.retire_mem_valid) (context_line dut ref) in
        ((add_context dut ref r).ok ≡ is_empty lines)
        × ((add_context dut ref r).differences ≡ lines ++ context)
  unfolding add_context
  add_context-lines r lines v =
      (ground (arith, v.ok), ground (arith, v.ok, v.differences, append_empty lines))

  -- The report of `compare_commit` is the table: it has the lines of what differs, in order, each
  -- with the value of the RTL and that of the reference, then the context of the access if
  -- the RTL has made one and there is a line, and it is `ok` exactly if there is none.
  pub compare_commit-differing :
      ((compare_commit dut ref).ok ≡ is_empty (differing dut ref))
      × ((compare_commit dut ref).differences
          ≡ differing dut ref
            ++ where_true
                (not (is_empty (differing dut ref)) && dut.retire_mem_valid)
                (context_line dut ref))
  unfolding compare_commit
  compare_commit-differing = add_context-lines _ (differing dut ref) (
      Adds-trans (compare_number-Adds Difference.pc dut.retire_pc ref.pc _) (
        Adds-trans (compare_number-Adds Difference.privilege dut.retire_priv ref.privilege _)
          (Adds-trans (compare_destination-Adds _) (compare_memory-Adds _))))

  -- So a rejected commit is always explained by a line, and an accepted one prints nothing.
  pub compare_commit-is_empty :
      is_empty (compare_commit dut ref).differences ≡ (compare_commit dut ref).ok
  compare_commit-is_empty =
      let lines = differing dut ref in
      let context =
        where_true (not (is_empty lines) && dut.retire_mem_valid) (context_line dut ref) in
      ap is_empty compare_commit-differing.1
      ∙ is_empty-++ lines context
      ∙ context_of_lines lines dut.retire_mem_valid _
      ∙ sym compare_commit-differing.0
