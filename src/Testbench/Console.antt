-- ===== src/Testbench/Console.antt =====
-- What the main loop of tb/tb_verilator.cpp prints on stderr for a rising edge, line by line, and what
-- `main` prints after it. A line is a value with what it reports; of the ports, it reports a part.
pub mod Lines
pub mod Runs
pub mod Ending
use mints_riscv_cpu.Base.{
  ℕ, ◌+◌, ◌%◌, Bool, true, false, not, ◌&&◌, ◌||◌, ◌==◌, leb, if◌then◌else◌, List, [], ◌∷◌, ◌++◌,
  Text, codes, u32, u64,
}
use mints_riscv_cpu.Reference.Result.{Result, ok, fail}
use mints_riscv_cpu.Reference.Commit.{RefCommit}
use mints_riscv_cpu.Reference.Hart.{Hart}
use mints_riscv_cpu.Reference.Step.{pc, step}
use mints_riscv_cpu.Reference.Trap.{step_non_retiring_trap}
use mints_riscv_cpu.Testbench.Dut.{Dut}
use mints_riscv_cpu.Testbench.Compare.{Difference, compare_commit}
use mints_riscv_cpu.Testbench.Uart.{push_char, is_pass_token}
use mints_riscv_cpu.Testbench.Harness.{
  Options, Lockstep, Pending, lockstep_start_pc, observe_uart, observe_seip, observe_mtimer,
  count_retire, retire_request, can_sync_exception, observe_exception,
}
use mints_riscv_cpu.Testbench.Setup.{plusarg_u64}

-- A line starts with the count of compared instructions, or of retired ones where it says so.
pub data Message : Type 0 where
  busybox_pass : ℕ → Message
  -- With the count of retired instructions too.
  exception_event interrupt_event mtimer_event : ℕ → ℕ → Dut → Message
  -- Whisper's PC before, and its commit.
  exception_sync : ℕ → Dut → ℕ → RefCommit → Message
  -- Whisper's PC, and which injections are pending.
  exception_skip : ℕ → Dut → ℕ → Bool → Bool → Message
  -- The count of retired instructions, and the PC.
  comparison_started : ℕ → ℕ → Message
  -- The pending injection, and Whisper's PC.
  mtimer_inject seip_inject : ℕ → Dut → Pending → ℕ → Message
  -- Whisper's PC before, and its commit.
  traced : ℕ → Dut → ℕ → RefCommit → Message
  -- What is printed of the two sides before the differences is a part of both.
  mismatch : ℕ → Dut → RefCommit → List Difference → Message
  -- The PC.
  passed stop_order_reached : ℕ → ℕ → Message

-- `lockstep_trace_enabled`, `lockstep_trace_start` and `lockstep_trace_end`.
pub record Trace : Type 0 where
  pub enabled : Bool
  pub start : ℕ
  pub end : ℕ

unfoldable pub trace_options : List Text → Trace
trace_options args =
    let start = plusarg_u64 args (codes "LOCKSTEP_TRACE_START") 0 in
    let end = plusarg_u64 args (codes "LOCKSTEP_TRACE_END") 0 in
    record { enabled = start.0 && (end.0 && leb start.1 end.1); start = start.1; end = end.1 }

-- Whether an instruction is traced.
unfoldable pub is_traced : Trace → ℕ → Bool
is_traced t order = t.enabled && (leb t.start order && leb order t.end)

-- A line that is printed only if a test holds.
abbrev pub line_if : Bool → Message → List Message
line_if test line = if test then line ∷ [] else []

module _ {S : Type 0} where
  unfoldable pub uart_messages : Dut → Lockstep S → List Message
  uart_messages dut l =
      line_if
        (dut.lockstep_uart_tx_valid
          && is_pass_token (push_char l.uart_window dut.lockstep_uart_tx_char))
        (busybox_pass l.compared_order)

  unfoldable pub interrupt_messages : Dut → Lockstep S → List Message
  interrupt_messages dut l =
      line_if dut.lockstep_interrupt_trap_taken
        (interrupt_event l.compared_order l.rtl_retire_order dut)
      ++ line_if dut.lockstep_mtip_trap_taken (mtimer_event l.compared_order l.rtl_retire_order dut)

  -- The start of the comparison, from the state before the retirement is counted.
  unfoldable pub start_messages : Dut → Lockstep S → List Message
  start_messages dut l =
      line_if (not l.started && dut.retire_pc == lockstep_start_pc)
        (comparison_started (u64 (l.rtl_retire_order + 1)) dut.retire_pc)

  -- After a comparison, with its number.
  unfoldable pub verdict_messages : Options → Dut → RefCommit → Lockstep S → ℕ → List Message
  verdict_messages options dut ref l order =
      let report = compare_commit dut ref in
      let verdict =
        if not report.ok
        then mismatch order dut ref report.differences ∷ []
        else line_if (order % 10000 == 0) (passed order dut.retire_pc) in
      verdict
      ++ line_if
          (not (l.failed || not report.ok)
            && (options.stop_enabled && leb options.stop_order order))
          (stop_order_reached order dut.retire_pc)

module _ (h : Hart) where
  unfoldable pub exception_messages : Dut → Lockstep h.State → List Message
  exception_messages dut l =
      let order = l.compared_order in
      let skip =
        line_if (l.started && not dut.retire_valid)
          (exception_skip order dut (pc h l.whisper) l.mtimer.armed l.seip.armed) in
      let synchronized : List Message = elim (step_non_retiring_trap h l.whisper false false) [
        | fail e ↦ []
        | ok r ↦ exception_sync order dut (pc h l.whisper) r.0 ∷ []
      ] in
      if dut.lockstep_exception_trap_taken
      then exception_event order l.rtl_retire_order dut
        ∷ (if can_sync_exception h dut l then synchronized else skip)
      else []

  -- What is printed for a comparison, from the state after the retirement is counted.
  unfoldable pub compare_messages : Options → Trace → Dut → Lockstep h.State → List Message
  compare_messages options t dut l =
      let order = u64 (l.compared_order + 1) in
      let before = pc h l.whisper in
      let injected =
        line_if l.mtimer.armed (mtimer_inject order dut l.mtimer before)
        ++ line_if l.seip.armed (seip_inject order dut l.seip before) in
      let compared : List Message = elim (step h (retire_request dut l) l.whisper) [
        | fail e ↦ []
        | ok r ↦
            line_if (is_traced t order) (traced order dut before r.0)
            ++ verdict_messages options dut r.0 l order
      ] in
      injected ++ compared

  unfoldable pub retire_messages : Options → Trace → Dut → Lockstep h.State → List Message
  retire_messages options t dut l =
      let counted = count_retire dut l in
      if dut.retire_valid
      then start_messages dut l
        ++ (if counted.started then compare_messages options t dut counted else [])
      else []

  -- A rising edge. After an exception of the reference nothing more is printed.
  unfoldable pub edge_messages : Options → Trace → Dut → Lockstep h.State → List Message
  edge_messages options t dut l =
      let heard = observe_uart dut l in
      let rest : List Message = elim (observe_exception h dut heard) [
        | fail e ↦ []
        | ok synced ↦
            interrupt_messages dut synced
            ++ retire_messages options t dut (observe_mtimer dut (observe_seip dut synced))
      ] in
      uart_messages dut l ++ (exception_messages dut heard ++ rest)

-- What is printed after a loop that ended by its condition: that the comparison never started, or
-- how many instructions were compared, and whether the stop order and the BusyBox pass were reached.
pub data Summary : Type 0 where
  not_started : Summary
  pass : ℕ → Bool → Bool → Summary

unfoldable pub summary : {S : Type 0} → Lockstep S → List Summary
summary l =
    if l.failed
    then []
    else if not l.started
    then not_started ∷ []
    else pass l.compared_order l.stop_reached l.busybox_pass_reached ∷ []
