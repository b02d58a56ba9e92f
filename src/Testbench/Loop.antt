-- ===== src/Testbench/Loop.antt =====
-- The main loop of tb/tb_verilator.cpp and its exit status, compiled with SVCPU_WHISPER_LOCKSTEP and
-- without TRACE.
pub mod Runs
pub mod Liveness
pub mod Passes
pub mod Bounds
pub mod Pass
pub mod Log
pub mod Verdict
pub mod Injection
use mints_riscv_cpu.Base.{
  ℕ, zero, suc, ◌+◌, ◌/◌, ◌^◌, Bool, true, false, not, ◌&&◌, ◌||◌, ◌==◌, ltb, if◌then◌else◌,
}
use mints_riscv_cpu.Reference.Result.{Result, Error, ok, fail}
use mints_riscv_cpu.Reference.Hart.{Hart}
use mints_riscv_cpu.Testbench.Dut.{Dut}
use mints_riscv_cpu.Testbench.Harness.{Options, Lockstep, rising_edge}

-- The Verilated model, which the build generates: `eval` after `clk` and `rst` were set, the output
-- ports, and whether the design has called $finish.
pub record Design : Type 1 where
  pub State : Type 0
  pub eval : Bool → Bool → State → State
  pub ports : State → Dut
  pub finished : State → Bool

-- How the loop ends: out of the model's fuel, by an exception that nothing catches, by counting
-- past a `long long`, which has no meaning, or by its condition.
pub data Outcome (S D : Type 0) : Type 0 where
  unfinished : Outcome S D
  aborted : Error → Outcome S D
  overflowed : Outcome S D
  stopped : Lockstep S → D → Outcome S D

-- `half_cycle / 2 < static_cast<long long>(cycles)`: the cast makes a count of 2 ^ 63 or more
-- negative.
unfoldable pub cycles_left : ℕ → ℕ → Bool
cycles_left cycles half_cycle = ltb cycles (2 ^ 63) && ltb (half_cycle / 2) cycles

module _ (h : Hart) (g : Design) (options : Options) (cycles : ℕ) where
  unfoldable pub continues : ℕ → g.State → Lockstep h.State → Bool
  continues half_cycle d l =
      not (g.finished d || l.got_finish)
      && (not l.failed && (cycles == 0 || cycles_left cycles half_cycle))

  -- The body after `eval`: nothing happens while the clock is low.
  unfoldable pub observe : Bool → g.State → Lockstep h.State → Result (Lockstep h.State)
  observe true d l = rising_edge h options (g.ports d) l
  observe false d l = ok l

  unfoldable pub loop : ℕ → ℕ → Bool → g.State → Lockstep h.State → Outcome h.State g.State
  loop zero half_cycle clk d l = unfinished
  loop (suc fuel) half_cycle clk d l = elim (continues half_cycle d l) [
    | false ↦ stopped l d
    | true ↦
        let clk' = not clk in
        let d' = g.eval clk' true d in
        elim (observe clk' d' l) [
          | fail e ↦ aborted e
          | ok l' ↦ elim (ltb (half_cycle + 1) (2 ^ 63)) [
            | true ↦ loop fuel (half_cycle + 1) clk' d' l'
            | false ↦ overflowed
          ]
        ]
  ]

-- The status after a loop that ended by its condition; `test_mode` is whether TEST_MODE was defined.
unfoldable pub exit_status : {S : Type 0} → Bool → Lockstep S → Dut → ℕ
exit_status test_mode l dut =
    if l.failed
    then 2
    else if not l.started
    then 3
    else if test_mode && not dut.test_success
    then 1
    else 0
