-- ===== src/Testbench/Console/Runs.antt =====
-- What a run prints about its comparisons, and in which order.
use mints_riscv_cpu.Base.{
  ℕ, ◌+◌, ◌-◌, ◌^◌, ◌<◌, false, not, ◌≡◌, refl, ap, ◌∙◌, arith, List, [], ◌++◌, length, u64,
}
use mints_riscv_cpu.Reference.Result.{ok, >>=-eq-ok}
use mints_riscv_cpu.Reference.Commit.{RefCommit}
use mints_riscv_cpu.Reference.Hart.{Hart}
use mints_riscv_cpu.Testbench.Dut.{Dut}
use mints_riscv_cpu.Testbench.Compare.{compare_commit}
use mints_riscv_cpu.Testbench.Harness.{
  Options, Lockstep, initial, observe_uart, observe_seip, observe_mtimer, count_retire,
  observe_exception, rising_edge, judge, rearm,
}
use mints_riscv_cpu.Testbench.Harness.Edges.{
  Retirement, idle, boot, compared, compared_state, observed, exception-whisper,
  observe_retire-Retirement,
}
use mints_riscv_cpu.Testbench.Loop.Runs.{Run, begun, edge}
use mints_riscv_cpu.Testbench.Loop.Log.{to_compare, Run-Logged, observed-frame}
use mints_riscv_cpu.Testbench.Console.Lines.{
  lines_of, lines_of-append, compare_lines, edge_lines, run_lines, printed, quiet_uart,
  quiet_interrupt, quiet_exception, start-lines, compare-lines,
}
use mints_riscv_cpu.Testbench.Console.{
  Trace, uart_messages, interrupt_messages, start_messages, exception_messages, compare_messages,
  retire_messages, edge_messages,
}

module _ (h : Hart) (options : Options) (t : Trace) where
  -- The judgement keeps nothing but the report's flag of the failure.
  judged-failed :
      (dut : Dut) (ref : RefCommit) (l : Lockstep h.State) (w : h.State)
      → l.failed ≡ false
      → (judge options dut ref (compared_state dut l w)).failed ≡ not (compare_commit dut ref).ok
  unfolding judge rearm
  judged-failed dut ref l w quiet = ground arith

  retire-lines :
      (dut : Dut) (m l' : Lockstep h.State) (count : ℕ)
      → m.failed ≡ false
      → u64 (m.compared_order + 1) ≡ count + 1
      → Retirement h options dut m l'
      → lines_of (retire_messages h options t dut m)
        ≡ edge_lines options t dut m.started count l'.failed
  unfolding retire_messages count_retire
  retire-lines dut m l' count quiet next (idle idles same) = ground (arith, idles)
  retire-lines dut m l' count quiet next (boot valid boots same) = ground (
    arith,
    valid,
    boots,
    lines_of-append (start_messages dut m) [],
    start-lines h options t dut m,
  )
  retire-lines dut m l' count quiet next (compared ref w valid started stepped same) =
      let counted = count_retire dut m in
      let failed : l'.failed ≡ not (compare_commit dut ref).ok =
        ap (λ x. x.failed) same ∙ judged-failed dut ref counted w quiet in
      let compare = compare-lines h options t dut counted ref w quiet stepped in
      let number = ap (λ n. compare_lines options t n (not (compare_commit dut ref).ok)) next in
      rw (failed) (
        ground (
          arith,
          valid,
          started,
          lines_of-append (start_messages dut m) (compare_messages h options t dut counted),
          start-lines h options t dut m,
          compare,
          number,
        ))

  edge-messages :
      (dut : Dut) (l synced : Lockstep h.State)
      → observe_exception h dut (observe_uart dut l) ≡ ok synced
      → lines_of (edge_messages h options t dut l)
        ≡ lines_of (retire_messages h options t dut (observe_mtimer dut (observe_seip dut synced)))
  unfolding edge_messages
  edge-messages dut l synced e =
      let interrupts = interrupt_messages dut synced in
      let retire = retire_messages h options t dut (observe_mtimer dut (observe_seip dut synced)) in
      let exceptions = exception_messages h dut (observe_uart dut l) in
      rw (edge_messages, e)
        (ground (
          arith,
          lines_of-append (uart_messages dut l) (exceptions ++ (interrupts ++ retire)),
          lines_of-append exceptions (interrupts ++ retire),
          lines_of-append interrupts retire,
          quiet_uart h options t dut l,
          quiet_exception h options t dut (observe_uart dut l),
          quiet_interrupt h options t dut synced,
        ))

  edge-lines :
      (dut : Dut) (l l' : Lockstep h.State) (count : ℕ)
      → l.failed ≡ false
      → u64 (l.compared_order + 1) ≡ count + 1
      → rising_edge h options dut l ≡ ok l'
      → lines_of (edge_messages h options t dut l)
        ≡ edge_lines options t dut l.started count l'.failed
  unfolding rising_edge
  edge-lines dut l l' count quiet next e =
      let (synced, e1, rest) = >>=-eq-ok (observe_exception h dut (observe_uart dut l)) _ e in
      let (w, between, same) = exception-whisper h options dut (observe_uart dut l) synced e1 in
      let m = observed h options dut l w in
      let kept = observed-frame h options w dut l w in
      let state : observe_mtimer dut (observe_seip dut synced) ≡ m =
        ap (λ s. observe_mtimer dut (observe_seip dut s)) same in
      let retirement = observe_retire-Retirement h options dut m l' (rw same at rest) in
      let lines =
        retire-lines dut m l' count (kept.3 ∙ quiet) (ap (λ n. u64 (n + 1)) kept.2 ∙ next)
          retirement in
      edge-messages dut l synced e1
      ∙ ap (λ s. lines_of (retire_messages h options t dut s)) state
      ∙ lines
      ∙ ap (λ b. edge_lines options t dut b count l'.failed) kept.0

  -- What a run prints about its comparisons, in order: that it starts, when the RTL retires the
  -- instruction at 0x80000000; for each instruction from there on, by its number, the trace if the
  -- number is in the trace window, then that it passed if the number is a multiple of 10000, or that
  -- it differs, and that the run stops if the number has reached the stop order. This is while fewer
  -- than 2 ^ 64 - 1 instructions are compared.
  pub Run-run_lines :
      (w : h.State) {duts : List Dut} {l : Lockstep h.State}
      (run : Run h options (initial w) duts l)
      → length (to_compare duts) < 2 ^ 64 - 1
      → lines_of (printed h options t run) ≡ run_lines options t duts l.failed
  Run-run_lines w begun few = refl
  Run-run_lines w (edge {duts} {l} {l'} dut run quiet running e) few =
      let logged = Run-Logged h options w run in
      let fewer : length (to_compare duts) < 2 ^ 64 - 1 = ground (arith, few) in
      let before = Run-run_lines w run fewer in
      let next : u64 (l.compared_order + 1) ≡ length (to_compare duts) + 1 =
        omega (arith, logged.order, fewer) in
      lines_of-append (printed h options t run) (edge_messages h options t dut l)
      ∙ ap (λ r. r ++ lines_of (edge_messages h options t dut l))
          (before ∙ ap (run_lines options t duts) quiet)
      ∙ ap (λ r. run_lines options t duts false ++ r)
          (edge-lines dut l l' (length (to_compare duts)) quiet next e
            ∙ ap (λ b. edge_lines options t dut b (length (to_compare duts)) l'.failed)
                logged.started)
