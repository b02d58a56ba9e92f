-- ===== src/Testbench/Loop/Verdict.antt =====
-- What the exit status of the harness says about the run.
use mints_riscv_cpu.Base.{ℕ, Bool, true, false, not, ◌&&◌, ◌≡◌, refl, sym, List, [], if◌then◌else◌}
use mints_riscv_cpu.Reference.Hart.{Hart}
use mints_riscv_cpu.Testbench.Dut.{Dut}
use mints_riscv_cpu.Testbench.Harness.{Options, Lockstep, initial}
use mints_riscv_cpu.Testbench.Loop.{Design, stopped, loop, exit_status}
use mints_riscv_cpu.Testbench.Loop.Passes.{sampled, Halted, stopped-Halted}
use mints_riscv_cpu.Testbench.Loop.Log.{Log, Logged, Run-Logged, has_started, to_compare}

-- The meaning of each status, over the edges of the run that took Whisper from `w` to `s`; `failing`
-- is whether the design reports its own test as failed.
pub data Verdict (h : Hart) (options : Options) (failing : Bool) (duts : List Dut) (w s : h.State)
    : ℕ → Type 0 where
  passed :
      has_started duts ≡ true
      → failing ≡ false
      → Log h options w (to_compare duts) s false
      → Verdict h options failing duts w s 0
  test_failed :
      has_started duts ≡ true
      → failing ≡ true
      → Log h options w (to_compare duts) s false
      → Verdict h options failing duts w s 1
  mismatch : Log h options w (to_compare duts) s true → Verdict h options failing duts w s 2
  never_started : has_started duts ≡ false → Verdict h options failing duts w s 3

module _ (h : Hart) (options : Options) (w : h.State) where
  -- Over the flags alone.
  flags-Verdict :
      (failed started failing : Bool) (duts : List Dut) (s : h.State)
      → started ≡ has_started duts
      → Log h options w (to_compare duts) s failed
      → Verdict h options failing duts w s
          (if failed then 2 else if not started then 3 else if failing then 1 else 0)
  flags-Verdict true started failing duts s e log = mismatch log
  flags-Verdict false false failing duts s e log = never_started (sym e)
  flags-Verdict false true true duts s e log = test_failed (sym e) refl log
  flags-Verdict false true false duts s e log = passed (sym e) refl log

  status-Verdict :
      (test_mode : Bool) (l : Lockstep h.State) (dut : Dut) (duts : List Dut)
      → Logged h options w duts l
      → Verdict h options
          (test_mode && not dut.test_success)
          duts
          w
          l.whisper
          (exit_status test_mode l dut)
  unfolding exit_status
  status-Verdict test_mode l dut duts v =
      flags-Verdict l.failed l.started (test_mode && not dut.test_success) duts l.whisper v.started
        v.log

module _ (h : Hart) (g : Design) (options : Options) (cycles : ℕ) where
  -- If the loop ends by its condition, the exit status means what it should for the ports that the
  -- design had on the rising edges of the passes that it made: 0 that the comparison started, every
  -- compared instruction agreed and, in test mode, the design reports success; 1 that all
  -- instructions agreed but the design reports none; 2 that the last compared instruction and no
  -- earlier one differed; 3 that the RTL did not retire the instruction at 0x80000000.
  pub exit_status-Verdict :
      (fuel : ℕ) (test_mode clk : Bool) (d d' : g.State) (w : h.State) (l : Lockstep h.State)
      → loop h g options cycles fuel 0 clk d (initial w) ≡ stopped l d'
      → (passes : ℕ) × Halted h g options cycles (initial w) 0 clk d [] l d' passes
        × Verdict h options
            (test_mode && not (g.ports d').test_success)
            (sampled g passes clk d [])
            w
            l.whisper
            (exit_status test_mode l (g.ports d'))
  exit_status-Verdict fuel test_mode clk d d' w l e =
      let (passes, halted) = stopped-Halted h g options cycles fuel clk d d' (initial w) l e in
      (
        passes,
        halted,
        status-Verdict h options w test_mode l (g.ports d') _ (Run-Logged h options w halted.run),
      )
