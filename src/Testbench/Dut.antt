-- ===== src/Testbench/Dut.antt =====
-- The output ports of the Verilated design, as tb/tb_verilator.cpp reads them after an evaluation.
-- A port of one bit is a flag; any other holds a number of its width, so a cast to an integer type
-- that is as wide changes nothing.
use mints_riscv_cpu.Base.{ℕ, Bool}

pub record Dut : Type 0 where
  pub retire_valid : Bool
  pub retire_pc : ℕ
  pub retire_inst : ℕ
  pub retire_priv : ℕ
  pub retire_rd_we : Bool
  pub retire_rd_addr : ℕ
  pub retire_rd_data : ℕ
  pub retire_mem_valid : Bool
  pub retire_mem_write : Bool
  pub retire_mem_addr : ℕ
  pub retire_mem_pa : ℕ
  pub retire_mem_mask : ℕ
  pub retire_mem_data : ℕ
  pub lockstep_uart_tx_valid : Bool
  pub lockstep_uart_tx_char : ℕ
  pub lockstep_exception_trap_taken : Bool
  pub lockstep_exception_pc : ℕ
  pub lockstep_interrupt_trap_taken : Bool
  pub lockstep_interrupt_cause : ℕ
  pub lockstep_interrupt_pc : ℕ
  pub lockstep_interrupt_inst : ℕ
  pub lockstep_mtip_trap_taken : Bool
  pub test_success : Bool
