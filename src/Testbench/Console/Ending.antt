-- ===== src/Testbench/Console/Ending.antt =====
-- What is printed after the loop, against what the edges were.
use mints_riscv_cpu.Base.{
  ℕ, ◌+◌, ◌-◌, ◌^◌, ◌<◌, inl, inr, Bool-cases, Bool, true, false, not, ◌&&◌, ◌≡◌, sym, ◌∙◌, arith,
  List, [], ◌∷◌, length, leb, ltb, if◌then◌else◌, same_text, u64,
}
use mints_riscv_cpu.Reference.Hart.{Hart}
use mints_riscv_cpu.Testbench.Dut.{Dut}
use mints_riscv_cpu.Testbench.Uart.{busybox_pass_token, is_pass_token}
use mints_riscv_cpu.Testbench.Uart.Stream.{recent}
use mints_riscv_cpu.Testbench.Harness.{
  Options, Lockstep, initial, observe_uart, observe_seip, observe_mtimer, count_retire, rearm,
  judge,
}
use mints_riscv_cpu.Testbench.Harness.Edges.{
  Retirement, idle, boot, compared, observed, rising_edge-Retirement,
}
use mints_riscv_cpu.Testbench.Loop.Runs.{Run, begun, edge}
use mints_riscv_cpu.Testbench.Loop.Log.{has_started, to_compare, Run-Logged}
use mints_riscv_cpu.Testbench.Loop.Pass.{transmitted, Run-Watched}
use mints_riscv_cpu.Testbench.Console.{Summary, not_started, pass, summary}

module _ (options : Options) where
  -- Whether the number of the latest compared instruction has reached the stop order.
  abbrev pub stops_at : ℕ → Bool
  stops_at n = options.stop_enabled && (ltb 0 n && leb options.stop_order n)

  -- What should be printed after a run, from its edges and whether the latest comparison failed.
  abbrev pub run_summary : List Dut → Bool → List Summary
  run_summary duts failed =
      if failed
      then []
      else if not (has_started duts)
      then not_started ∷ []
      else pass (length (to_compare duts)) (stops_at (length (to_compare duts)))
          (same_text (recent (transmitted duts)) busybox_pass_token)
        ∷ []

module _ (h : Hart) (options : Options) where
  -- The flag of the stop order tells whether the latest comparison agreed and has reached it, and
  -- then the harness has asked to finish.
  record Stops (duts : List Dut) (l : Lockstep h.State) : Type 0 where
    reached : l.stop_reached ≡ (not l.failed && stops_at options (length (to_compare duts)))
    finishing : l.stop_reached ≡ true → l.got_finish ≡ true

  -- A run that goes on has not reached it.
  not_reached :
      (duts : List Dut) (l : Lockstep h.State)
      → Stops duts l
      → l.failed ≡ false
      → l.got_finish ≡ false
      → (l.stop_reached ≡ false) × (stops_at options (length (to_compare duts)) ≡ false)
  not_reached duts l v quiet running = elim (Bool-cases l.stop_reached) [
    | inl e ↦ cc (v.finishing e, running)
    | inr e ↦ (e, rw quiet at (sym v.reached ∙ e))
  ]

  Retirement-Stops :
      (dut : Dut) (duts : List Dut) (l l' : Lockstep h.State) (w : h.State)
      → (l.stop_reached ≡ false) × (stops_at options (length (to_compare duts)) ≡ false)
      → (l.failed ≡ false)
      → (l.started ≡ has_started duts)
      → u64 (l.compared_order + 1) ≡ length (to_compare duts) + 1
      → Retirement h options dut (observed h options dut l w) l'
      → Stops (dut ∷ duts) l'
  unfolding observe_uart observe_seip observe_mtimer count_retire rearm judge
  Retirement-Stops dut duts l l' w before quiet started next (idle idles same) = record {
    reached = ground (arith, before);
    finishing = ground (arith, before);
  }
  Retirement-Stops dut duts l l' w before quiet started next (boot valid boots same) = record {
    reached = ground (arith, before, started);
    finishing = ground (arith, before);
  }
  Retirement-Stops dut duts l l' w before quiet started next
        (compared ref s valid on stepped same) =
      let listed : length (to_compare (dut ∷ duts)) ≡ length (to_compare duts) + 1 =
        ground (arith, started) in
      record { reached = ground (arith, before, next, listed); finishing = ground (arith, before) }

  Run-Stops :
      (w : h.State) {duts : List Dut} {l : Lockstep h.State}
      → Run h options (initial w) duts l
      → length (to_compare duts) < 2 ^ 64 - 1
      → Stops duts l
  Run-Stops w begun few = record { reached = ground arith; finishing = λ e. cc }
  Run-Stops w (edge {duts} {l} {l'} dut run quiet running e) few =
      let (s, synced, retirement) = rising_edge-Retirement h options dut l l' e in
      let logged = Run-Logged h options w run in
      let fewer : length (to_compare duts) < 2 ^ 64 - 1 = ground (arith, few) in
      let next : u64 (l.compared_order + 1) ≡ length (to_compare duts) + 1 =
        omega (arith, logged.order, fewer) in
      Retirement-Stops dut duts l l' s (not_reached duts l (Run-Stops w run fewer) quiet running)
        quiet logged.started next retirement

  -- What is printed after the loop is true of the run, while fewer than 2 ^ 64 - 1 instructions are
  -- compared: nothing after a mismatch; that the comparison never started where the RTL did not
  -- retire the instruction at 0x80000000; and otherwise how many instructions were compared, whether
  -- that number has reached the stop order, and whether what the UART transmitted ends in the pass
  -- token.
  pub summary-run_summary :
      (w : h.State) {duts : List Dut} {l : Lockstep h.State}
      → Run h options (initial w) duts l
      → length (to_compare duts) < 2 ^ 64 - 1
      → summary l ≡ run_summary options duts l.failed
  unfolding summary is_pass_token
  summary-run_summary w {duts} {l} run few =
      let logged = Run-Logged h options w run in
      let order : l.compared_order ≡ length (to_compare duts) = omega (arith, logged.order, few) in
      ground (
        arith,
        logged.started,
        order,
        (Run-Stops w run few).reached,
        (Run-Watched h options w run).passed,
      )
