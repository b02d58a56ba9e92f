-- ===== src/Examples/Testbench.antt =====
-- The theorems about the testbench at concrete inputs.
use mints_riscv_cpu.Base.{
  ℕ, ◌+◌, ◌^◌, ◌<◌, ◌≤◌, length, true, false, not, ◌≡◌, inl, ◌≢◌, ◌↔◌, refl, arith, ltb, ◌==◌, [],
  ◌∷◌, ◌++◌, Text, if◌then◌else◌, ◌⊎◌,
}
use mints_riscv_cpu.Reference.Result.{Result, ok, fail}
use mints_riscv_cpu.Reference.Commit.{RefCommit}
use mints_riscv_cpu.Reference.Interrupts.{synchronize_interrupts, replace_interrupts}
use mints_riscv_cpu.Reference.Mmio.{seed_mmio_read, reads_mmio}
use mints_riscv_cpu.Reference.Trap.{observe, non_retiring_event}
use mints_riscv_cpu.Reference.Decode.{is_time_csr_instruction}
use mints_riscv_cpu.Reference.Step.{
  step, retire, attempt_step, synchronize_wfi_epc, capture, capture_rd, synchronize_time,
  capture_load, capture_store, capture_csrs,
}
use mints_riscv_cpu.Testbench.Dut.{Dut}
use mints_riscv_cpu.Testbench.Compare.{
  compare_commit, compare_number, compare_destination, compare_memory, add_context,
}
use mints_riscv_cpu.Testbench.Uart.{busybox_pass_token}
use mints_riscv_cpu.Testbench.Harness.{
  Options, Lockstep, no_pending, reported_trap, seip_event, initial, observe_uart, observe_seip,
  observe_mtimer, count_retire, rearm, judge, retire_request, observe_exception, compare_retire,
  observe_retire, rising_edge,
}
use mints_riscv_cpu.Testbench.Loop.{
  Design, Outcome, overflowed, stopped, unfinished, loop, continues, cycles_left, exit_status,
}
use mints_riscv_cpu.Testbench.Loop
use mints_riscv_cpu.Testbench.Loop.Runs.{Run, begun, edge, loop-ne-unfinished}
use mints_riscv_cpu.Testbench.Loop.Passes.{sampled, Halted, stopped-Halted}
use mints_riscv_cpu.Testbench.Loop.Pass.{busybox_pass_iff}
use mints_riscv_cpu.Testbench.Loop.Log.{Logged, Run-Logged, retired}
use mints_riscv_cpu.Testbench.Loop.Injection.{injected_request, Run-Injects}
use mints_riscv_cpu.Testbench.Loop.Verdict.{Verdict, exit_status-Verdict}
use mints_riscv_cpu.Testbench.Loop.Bounds.{Run-bounds}
use mints_riscv_cpu.Examples.Toy.{Toy, toy, at_entry}

abbrev pub no_options : Options
no_options = record { stop_enabled = false; stop_order = 0 }

-- An edge that retires `addi x5, x0, n` at the PC `n`, with an accepted timer interrupt.
abbrev pub retires : ℕ → Dut
retires n = record {
  retire_valid = true;
  retire_pc = n;
  retire_inst = 0x00000293;
  retire_priv = 3;
  retire_rd_we = true;
  retire_rd_addr = 5;
  retire_rd_data = n;
  retire_mem_valid = false;
  retire_mem_write = false;
  retire_mem_addr = 0;
  retire_mem_pa = 0;
  retire_mem_mask = 0;
  retire_mem_data = 0;
  lockstep_uart_tx_valid = false;
  lockstep_uart_tx_char = 0;
  lockstep_exception_trap_taken = false;
  lockstep_exception_pc = 0;
  lockstep_interrupt_trap_taken = true;
  lockstep_interrupt_cause = 7;
  lockstep_interrupt_pc = n;
  lockstep_interrupt_inst = 0x00000293;
  lockstep_mtip_trap_taken = true;
  test_success = true;
}

-- A design that retires the entry's instruction on its first edge and then finishes.
abbrev design : Design
design = record {
  State = ℕ;
  eval = λ clk rst n. n + 1;
  ports = λ n. retires 0x80000000;
  finished = λ n. ltb 1 n;
}

abbrev pub after_entry : Lockstep Toy
after_entry =
    record (initial (record at_entry {
      counter = 0x80000004;
      registers = λ k. if k == 5 then 0x80000000 else 0;
    })) {
      rtl_retire_order = 1;
      compared_order = 1;
      started = true;
      mtimer = reported_trap (retires 0x80000000);
    }

first_edge : rising_edge toy no_options (retires 0x80000000) (initial at_entry) ≡ ok after_entry
unfolding rising_edge observe_exception observe_uart observe_mtimer observe_seip seip_event
    observe_retire count_retire compare_retire retire_request rearm judge step retire attempt_step
    synchronize_interrupts replace_interrupts seed_mmio_read reads_mmio synchronize_wfi_epc observe
    non_retiring_event capture capture_rd synchronize_time capture_load capture_store capture_csrs
    is_time_csr_instruction compare_commit compare_number compare_destination compare_memory
    add_context
first_edge = refl

pub first-Run : Run toy no_options (initial at_entry) (retires 0x80000000 ∷ []) after_entry
first-Run = edge (retires 0x80000000) begun refl refl first_edge

Run-Logged_example : Logged toy no_options at_entry (retires 0x80000000 ∷ []) after_entry
Run-Logged_example = Run-Logged toy no_options at_entry first-Run

-- The next edge retires the first instruction of the handler.
abbrev left_by : Result (Lockstep Toy) → Lockstep Toy
left_by (ok l) = l
left_by (fail e) = after_entry

second_edge :
    rising_edge toy no_options (retires 0x80000100) after_entry
    ≡ ok (left_by (rising_edge toy no_options (retires 0x80000100) after_entry))
unfolding rising_edge observe_exception observe_uart observe_mtimer observe_seip seip_event
    observe_retire count_retire compare_retire retire_request rearm judge step retire attempt_step
    synchronize_interrupts replace_interrupts seed_mmio_read reads_mmio synchronize_wfi_epc observe
    non_retiring_event capture capture_rd synchronize_time capture_load capture_store capture_csrs
    is_time_csr_instruction compare_commit compare_number compare_destination compare_memory
    add_context
second_edge = refl

Run-Injects_example :
    (ref : RefCommit) × (step toy
        (injected_request (retires 0x80000100) (reported_trap (retires 0x80000000)) no_pending)
        after_entry.whisper
      ≡ ok (ref, (left_by (rising_edge toy no_options (retires 0x80000100) after_entry)).whisper))
unfolding seip_event
Run-Injects_example =
    Run-Injects toy no_options at_entry first-Run (retires 0x80000100)
      (left_by (rising_edge toy no_options (retires 0x80000100) after_entry)) refl refl second_edge

busybox_pass_iff_example :
    ((after_entry.busybox_pass_reached ≡ true)
      ↔ ((before : Text) × ([] ≡ before ++ busybox_pass_token)))
    × (after_entry.busybox_pass_reached ≡ true → after_entry.got_finish ≡ true)
busybox_pass_iff_example = busybox_pass_iff toy no_options at_entry first-Run

loop-ne-unfinished_example :
    (loop toy design no_options 3 7 0 false 0 (initial at_entry) ≢ unfinished)
    × (loop toy design no_options 3 7 0 false 0 (initial at_entry) ≢ overflowed)
loop-ne-unfinished_example =
    loop-ne-unfinished toy design no_options 3 false 0 (initial at_entry) (omega arith)
      (inl (omega arith))

-- The loop over this design: one rising edge, one falling edge that is not made any more.
design-loop : loop toy design no_options 0 8 0 false 0 (initial at_entry) ≡ stopped after_entry 2
unfolding loop continues cycles_left Loop.observe rising_edge observe_exception observe_uart
    observe_mtimer observe_seip seip_event observe_retire count_retire compare_retire retire_request
    rearm judge step retire attempt_step synchronize_interrupts replace_interrupts seed_mmio_read
    reads_mmio synchronize_wfi_epc observe non_retiring_event capture capture_rd synchronize_time
    capture_load capture_store capture_csrs is_time_csr_instruction compare_commit compare_number
    compare_destination compare_memory add_context
design-loop = refl

stopped-Halted_example :
    (passes : ℕ) × Halted toy design no_options 0
      (initial at_entry)
      0
      false
      0
      []
      after_entry
      2
      passes
stopped-Halted_example =
    stopped-Halted toy design no_options 0 8 false 0 2 (initial at_entry) after_entry design-loop

exit_status-Verdict_example :
    (passes : ℕ) × Halted toy design no_options 0
      (initial at_entry)
      0
      false
      0
      []
      after_entry
      2
      passes
    × Verdict toy no_options
        (not (retires 0x80000000).test_success)
        (sampled design passes false 0 [])
        at_entry
        after_entry.whisper
        (exit_status true after_entry (retires 0x80000000))
exit_status-Verdict_example =
    exit_status-Verdict toy design no_options 0 8 true false 0 2 at_entry after_entry design-loop

Run-bounds_example :
    (length after_entry.uart_window ≤ 17)
    × (after_entry.compared_order < 2 ^ 64)
    × (after_entry.rtl_retire_order < 2 ^ 64)
    × ((after_entry.compared_order ≤ after_entry.rtl_retire_order)
        ⊎ (2 ^ 64 ≤ retired (retires 0x80000000 ∷ [])))
Run-bounds_example = Run-bounds toy no_options at_entry first-Run
