-- ===== src/Testbench/Harness.antt =====
-- The lockstep part of the main loop of tb/tb_verilator.cpp: what happens after the evaluation of
-- a rising clock edge. What it prints on stderr is in Testbench/Console.
pub mod Edges
use mints_riscv_cpu.Base.{
  ℕ, ◌+◌, ◌^◌, ◌%◌, Bool, true, false, not, ◌&&◌, ◌||◌, ◌==◌, leb, if◌then◌else◌, [], Text, u32,
  u64,
}
use mints_riscv_cpu.Reference.Result.{Result, ok, ◌>>=◌}
use mints_riscv_cpu.Reference.Commit.{RefCommit, RtlRetire}
use mints_riscv_cpu.Reference.Hart.{Hart}
use mints_riscv_cpu.Reference.Trap.{step_non_retiring_trap}
use mints_riscv_cpu.Reference.Step.{pc, step}
use mints_riscv_cpu.Testbench.Dut.{Dut}
use mints_riscv_cpu.Testbench.Compare.{compare_commit}
use mints_riscv_cpu.Testbench.Uart.{push_char, is_pass_token}

abbrev pub lockstep_start_pc : ℕ
lockstep_start_pc = 0x80000000

abbrev pub wfi_instruction : ℕ
wfi_instruction = 0x10500073

-- One of the two interrupt injections: `lockstep_mtimer_pending`, `_pc` and `_inst`, or those of
-- SEIP.
pub record Pending : Type 0 where
  pub armed : Bool
  pub trap_pc : ℕ
  pub trap_inst : ℕ

abbrev pub no_pending : Pending
no_pending = record { armed = false; trap_pc = 0; trap_inst = 0 }

-- The plus-arguments that the loop reads, `lockstep_stop_enabled` and `lockstep_stop_order`.
pub record Options : Type 0 where
  pub stop_enabled : Bool
  pub stop_order : ℕ

-- The local variables of `main` that the loop keeps, with the reference and the flag that
-- `Verilated::gotFinish(true)` sets.
pub record Lockstep (S : Type 0) : Type 0 where
  pub whisper : S
  pub rtl_retire_order : ℕ
  pub compared_order : ℕ
  pub started : Bool
  pub failed : Bool
  pub stop_reached : Bool
  pub busybox_pass_reached : Bool
  pub uart_window : Text
  pub mtimer : Pending
  pub seip : Pending
  pub got_finish : Bool

abbrev pub initial : {S : Type 0} → S → Lockstep S
initial whisper = record {
  whisper = whisper;
  rtl_retire_order = 0;
  compared_order = 0;
  started = false;
  failed = false;
  stop_reached = false;
  busybox_pass_reached = false;
  uart_window = [];
  mtimer = no_pending;
  seip = no_pending;
  got_finish = false;
}

-- The trap that the ports report, as a pending injection.
abbrev pub reported_trap : Dut → Pending
reported_trap dut = record {
  armed = true;
  trap_pc = dut.lockstep_interrupt_pc;
  trap_inst = dut.lockstep_interrupt_inst;
}

-- An accepted supervisor external interrupt: cause 9 after the cast to `unsigned`.
unfoldable pub seip_event : Dut → Bool
seip_event dut = dut.lockstep_interrupt_trap_taken && u32 dut.lockstep_interrupt_cause == 9

module _ {S : Type 0} where
  unfoldable pub observe_uart : Dut → Lockstep S → Lockstep S
  observe_uart dut l =
      let window = push_char l.uart_window dut.lockstep_uart_tx_char in
      if dut.lockstep_uart_tx_valid
      then (if is_pass_token window
          then record l { uart_window = window; busybox_pass_reached = true; got_finish = true }
          else record l { uart_window = window })
      else l

  unfoldable pub observe_seip : Dut → Lockstep S → Lockstep S
  observe_seip dut l =
      if seip_event dut && not dut.retire_valid then record l { seip = reported_trap dut } else l

  unfoldable pub observe_mtimer : Dut → Lockstep S → Lockstep S
  observe_mtimer dut l =
      if dut.lockstep_mtip_trap_taken && not dut.retire_valid
      then record l { mtimer = reported_trap dut }
      else l

  -- The count of retirements, and the start of the comparison at OpenSBI's entry.
  unfoldable pub count_retire : Dut → Lockstep S → Lockstep S
  count_retire dut l = record l {
    rtl_retire_order = u64 (l.rtl_retire_order + 1);
    started = l.started || dut.retire_pc == lockstep_start_pc;
  }

  -- Events of the edge on which an instruction retires belong after that instruction.
  unfoldable pub rearm : Dut → Lockstep S → Lockstep S
  rearm dut l = record l {
    mtimer = if dut.lockstep_mtip_trap_taken then reported_trap dut else no_pending;
    seip = if seip_event dut then reported_trap dut else no_pending;
  }

  unfoldable pub judge : Options → Dut → RefCommit → Lockstep S → Lockstep S
  judge options dut ref l =
      if not (compare_commit dut ref).ok
      then record l { failed = true }
      else if not l.failed && (options.stop_enabled && leb options.stop_order l.compared_order)
      then record l { stop_reached = true; got_finish = true }
      else l

  -- The arguments that `main` passes to `WhisperRef::step`.
  unfoldable pub retire_request : Dut → Lockstep S → RtlRetire
  retire_request dut l = record {
    inst = dut.retire_inst;
    rd_we = dut.retire_rd_we;
    rd = dut.retire_rd_addr;
    rd_data = dut.retire_rd_data;
    mem_valid = dut.retire_mem_valid;
    mem_write = dut.retire_mem_write;
    mem_addr = dut.retire_mem_addr;
    mem_pa = dut.retire_mem_pa;
    mem_mask = dut.retire_mem_mask;
    mem_data = dut.retire_mem_data;
    mtip = l.mtimer.armed;
    seip = l.seip.armed;
    interrupt_from_wfi =
        l.mtimer.armed && l.mtimer.trap_inst == wfi_instruction
        || l.seip.armed && l.seip.trap_inst == wfi_instruction;
    interrupt_epc = if l.mtimer.armed then u64 (l.mtimer.trap_pc + 4) else u64 (l.seip.trap_pc + 4);
  }

module _ (h : Hart) where
  -- `can_sync_exception`.
  unfoldable pub can_sync_exception : Dut → Lockstep h.State → Bool
  can_sync_exception dut l =
      l.started
      && (not dut.retire_valid
          && (not l.mtimer.armed
              && (not l.seip.armed && pc h l.whisper == dut.lockstep_exception_pc)))

  unfoldable pub observe_exception : Dut → Lockstep h.State → Result (Lockstep h.State)
  observe_exception dut l =
      if dut.lockstep_exception_trap_taken && can_sync_exception dut l
      then (step_non_retiring_trap h l.whisper false false >>= λ r. ok (record l { whisper = r.1 }))
      else ok l

  -- The body of `if (lockstep_started)`.
  unfoldable pub compare_retire : Options → Dut → Lockstep h.State → Result (Lockstep h.State)
  compare_retire options dut l = do
    r ← step h (retire_request dut l) l.whisper
    let counted = record l { whisper = r.1; compared_order = u64 (l.compared_order + 1) }
    ok (judge options dut r.0 (rearm dut counted))

  unfoldable pub observe_retire : Options → Dut → Lockstep h.State → Result (Lockstep h.State)
  observe_retire options dut l =
      let counted = count_retire dut l in
      if dut.retire_valid
      then (if counted.started then compare_retire options dut counted else ok counted)
      else ok l

  -- One rising edge.
  unfoldable pub rising_edge : Options → Dut → Lockstep h.State → Result (Lockstep h.State)
  rising_edge options dut l = do
    synced ← observe_exception dut (observe_uart dut l)
    observe_retire options dut (observe_mtimer dut (observe_seip dut synced))
