-- ===== src/Examples.antt =====
-- Inputs on which the theorems are applied.
mod Toy
mod Config
mod Main
mod Platform
mod Host
mod Reference
mod Traps
mod Decode
mod Testbench
mod Lanes
mod Reports
