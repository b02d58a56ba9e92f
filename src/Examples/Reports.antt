-- ===== src/Examples/Reports.antt =====
-- The theorems about what is reported and printed, for one run.
use mints_riscv_cpu.Base.{
  true, false, not, ◌≡◌, same_text, ◌↔◌, refl, arith, is_empty, [], ◌∷◌, ◌++◌, ◌&&◌,
}
use mints_riscv_cpu.Reference.Commit.{empty_commit}
use mints_riscv_cpu.Testbench.Compare.{
  Difference, compare_commit, compare_number, compare_destination, compare_memory, add_context,
  context_line,
}
use mints_riscv_cpu.Testbench.Compare.Agreement.{Agrees, compare_commit_iff}
use mints_riscv_cpu.Testbench.Compare.Table.{where_true, differing}
use mints_riscv_cpu.Testbench.Compare.Reports.{compare_commit-differing}
use mints_riscv_cpu.Testbench.Console.{Trace, is_traced, pass, summary}
use mints_riscv_cpu.Testbench.Console.Lines.{start_line, trace_line, lines_of, printed, run_lines}
use mints_riscv_cpu.Testbench.Console.Ending.{run_summary, summary-run_summary}
use mints_riscv_cpu.Testbench.Console.Runs.{Run-run_lines}
use mints_riscv_cpu.Examples.Toy.{toy, at_entry}
use mints_riscv_cpu.Examples.Testbench.{retires, no_options, after_entry, first-Run}

compare_commit_iff_example :
    ((compare_commit (retires 0x80000000) empty_commit).ok ≡ true)
    ↔ Agrees (retires 0x80000000) empty_commit
compare_commit_iff_example = compare_commit_iff (retires 0x80000000) empty_commit

compare_commit-differing_example :
    ((compare_commit (retires 0x80000000) empty_commit).ok
      ≡ is_empty (differing (retires 0x80000000) empty_commit))
    × ((compare_commit (retires 0x80000000) empty_commit).differences
        ≡ differing (retires 0x80000000) empty_commit
          ++ where_true
              (not (is_empty (differing (retires 0x80000000) empty_commit))
                && (retires 0x80000000).retire_mem_valid)
              (context_line (retires 0x80000000) empty_commit))
compare_commit-differing_example = compare_commit-differing (retires 0x80000000) empty_commit

abbrev first_ten : Trace
first_ten = record { enabled = true; start = 1; end = 10 }

Run-run_lines_example :
    lines_of (printed toy no_options first_ten first-Run)
    ≡ run_lines no_options first_ten (retires 0x80000000 ∷ []) false
Run-run_lines_example = Run-run_lines toy no_options first_ten at_entry first-Run (omega arith)

-- That run starts the comparison, and its one instruction is traced.
first_lines :
    run_lines no_options first_ten (retires 0x80000000 ∷ []) false ≡ start_line ∷ trace_line 1 ∷ []
unfolding is_traced
first_lines = refl

summary-run_summary_example :
    summary after_entry ≡ run_summary no_options (retires 0x80000000 ∷ []) false
summary-run_summary_example = summary-run_summary toy no_options at_entry first-Run (omega arith)

-- One instruction was compared, and that is all.
first_summary : run_summary no_options (retires 0x80000000 ∷ []) false ≡ pass 1 false false ∷ []
unfolding same_text
first_summary = refl

-- A register write that the reference does not make is one line.
unwritten_report :
    (compare_commit
      (record (retires 0) { retire_rd_we = true; retire_priv = 0 })
      empty_commit).differences
    ≡ Difference.rd_we true false ∷ []
unfolding compare_commit compare_number compare_destination compare_memory add_context
unwritten_report = refl
