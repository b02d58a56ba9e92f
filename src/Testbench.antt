-- ===== src/Testbench.antt =====
-- The Verilator testbench, tb/tb_verilator.cpp.
pub mod Host
pub mod Lanes
pub mod Dut
pub mod Compare
pub mod Uart
pub mod Harness
pub mod Loop
pub mod Environment
pub mod Setup
pub mod Console
pub mod Main
