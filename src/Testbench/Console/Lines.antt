-- ===== src/Testbench/Console/Lines.antt =====
-- The lines about the comparison, as an edge and a run should print them, and the messages that are
-- such lines.
use mints_riscv_cpu.Base.{
  ℕ, ◌+◌, ◌%◌, Bool, false, not, ◌&&◌, ◌||◌, ◌==◌, leb, ltb, ◌≡◌, refl, sym, ap, ◌∙◌, arith, List,
  [], ◌∷◌, ◌++◌, length, if◌then◌else◌, u64,
}
use mathlib.Core.List.{append_assoc}
use mints_riscv_cpu.Reference.Result.{ok}
use mints_riscv_cpu.Reference.Commit.{RefCommit}
use mints_riscv_cpu.Reference.Hart.{Hart}
use mints_riscv_cpu.Reference.Step.{step}
use mints_riscv_cpu.Testbench.Dut.{Dut}
use mints_riscv_cpu.Testbench.Compare.{compare_commit}
use mints_riscv_cpu.Testbench.Harness.{Options, Lockstep, lockstep_start_pc, retire_request}
use mints_riscv_cpu.Testbench.Loop.Runs.{Run, begun, edge}
use mints_riscv_cpu.Testbench.Loop.Log.{has_started, to_compare}
use mints_riscv_cpu.Testbench.Console.{
  Message, busybox_pass, exception_event, interrupt_event, mtimer_event, exception_sync,
  exception_skip, comparison_started, mtimer_inject, seip_inject, traced, mismatch, passed,
  stop_order_reached, Trace, is_traced, uart_messages, interrupt_messages, start_messages,
  verdict_messages, exception_messages, compare_messages, edge_messages,
}

-- The lines about the comparison, each with the number of its instruction.
pub data Line : Type 0 where
  start_line : Line
  trace_line passed_line mismatch_line stop_line : ℕ → Line

-- A message as such a line, if it is one.
abbrev pub line_of : Message → List Line
line_of (comparison_started n p) = start_line ∷ []
line_of (traced n dut p ref) = trace_line n ∷ []
line_of (passed n p) = passed_line n ∷ []
line_of (mismatch n dut ref d) = mismatch_line n ∷ []
line_of (stop_order_reached n p) = stop_line n ∷ []
line_of (busybox_pass n) = []
line_of (exception_event n o dut) = []
line_of (interrupt_event n o dut) = []
line_of (mtimer_event n o dut) = []
line_of (exception_sync n dut p ref) = []
line_of (exception_skip n dut p m s) = []
line_of (mtimer_inject n dut p q) = []
line_of (seip_inject n dut p q) = []

abbrev pub lines_of : List Message → List Line
lines_of [] = []
lines_of (m ∷ ms) = line_of m ++ lines_of ms

pub lines_of-append : (ms ns : List Message) → lines_of (ms ++ ns) ≡ lines_of ms ++ lines_of ns
lines_of-append [] ns = refl
lines_of-append (m ∷ ms) ns =
    ap (λ r. line_of m ++ r) (lines_of-append ms ns)
    ∙ sym (append_assoc (line_of m) (lines_of ms) (lines_of ns))

-- The trace window: from its start to its end, both included.
abbrev pub in_window : Trace → ℕ → Bool
in_window t n = t.enabled && not (ltb n t.start || ltb t.end n)

module _ (options : Options) (t : Trace) where
  -- What instruction `n` has printed: its trace, and whether it passed, and where the run stops.
  abbrev pub compare_lines : ℕ → Bool → List Line
  compare_lines n failed =
      (if in_window t n then trace_line n ∷ [] else [])
      ++ ((if failed
            then mismatch_line n ∷ []
            else if n % 10000 == 0
            then passed_line n ∷ []
            else [])
          ++ (if not failed && (options.stop_enabled && leb options.stop_order n)
              then stop_line n ∷ []
              else []))

  -- What an edge has printed, from whether the comparison had started before it, how many
  -- instructions were compared before it, and whether it failed.
  abbrev pub edge_lines : Dut → Bool → ℕ → Bool → List Line
  edge_lines dut started count failed =
      let here = dut.retire_pc == lockstep_start_pc in
      if dut.retire_valid
      then (if not started && here then start_line ∷ [] else [])
        ++ (if started || here then compare_lines (count + 1) failed else [])
      else []

  -- What a run has printed over the edges, which are given latest first; only the latest can fail.
  abbrev pub run_lines : List Dut → Bool → List Line
  run_lines [] failed = []
  run_lines (dut ∷ before) failed =
      run_lines before false
      ++ edge_lines dut (has_started before) (length (to_compare before)) failed

module _ (h : Hart) (options : Options) (t : Trace) where
  -- The messages of a run, in order.
  abbrev pub printed :
      {start l : Lockstep h.State} {duts : List Dut} → Run h options start duts l → List Message
  printed begun = []
  printed (edge {duts} {l} {l'} dut run quiet running e) =
      printed run ++ edge_messages h options t dut l

  pub quiet_uart : (dut : Dut) (l : Lockstep h.State) → lines_of (uart_messages dut l) ≡ []
  unfolding uart_messages
  quiet_uart dut l = ground arith

  pub quiet_interrupt :
      (dut : Dut) (l : Lockstep h.State) → lines_of (interrupt_messages dut l) ≡ []
  unfolding interrupt_messages
  quiet_interrupt dut l = ground arith

  pub quiet_exception :
      (dut : Dut) (l : Lockstep h.State) → lines_of (exception_messages h dut l) ≡ []
  unfolding exception_messages
  quiet_exception dut l = ground arith

  pub start-lines :
      (dut : Dut) (l : Lockstep h.State)
      → lines_of (start_messages dut l)
        ≡ (if not l.started && dut.retire_pc == lockstep_start_pc then start_line ∷ [] else [])
  unfolding start_messages
  start-lines dut l = ground arith

  verdict-lines :
      (dut : Dut) (ref : RefCommit) (l : Lockstep h.State) (n : ℕ)
      → l.failed ≡ false
      → lines_of (verdict_messages options dut ref l n)
        ≡ (if not (compare_commit dut ref).ok
            then mismatch_line n ∷ []
            else if n % 10000 == 0
            then passed_line n ∷ []
            else [])
          ++ (if (compare_commit dut ref).ok && (options.stop_enabled && leb options.stop_order n)
              then stop_line n ∷ []
              else [])
  unfolding verdict_messages
  verdict-lines dut ref l n quiet = ground arith

  pub compare-lines :
      (dut : Dut) (l : Lockstep h.State) (ref : RefCommit) (w : h.State)
      → l.failed ≡ false
      → step h (retire_request dut l) l.whisper ≡ ok (ref, w)
      → lines_of (compare_messages h options t dut l)
        ≡ compare_lines options t (u64 (l.compared_order + 1)) (not (compare_commit dut ref).ok)
  unfolding compare_messages is_traced
  compare-lines dut l ref w quiet stepped =
      let n = u64 (l.compared_order + 1) in
      rw (compare_messages, stepped) (ground (arith, verdict-lines dut ref l n quiet))
