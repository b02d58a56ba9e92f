-- ===== src/Testbench/Main/Termination.antt =====
-- When the program ends.
use mints_riscv_cpu.Base.{
  ℕ, suc, ◌+◌, ◌*◌, ◌≡◌, ◌≢◌, ◌<◌, ◌≤◌, ◌^◌, ◌⊎◌, ltb, Bool-cases, arith, inl, inr, sym, ap, ◌∙◌,
  Bool, true, false, List, Option, some, Text,
}
use mints_riscv_cpu.Reference.Result.{Result-cases}
use mints_riscv_cpu.Reference.Hart.{Hart}
use mints_riscv_cpu.Testbench.Harness.{initial}
use mints_riscv_cpu.Testbench.Loop.{Design, unfinished, overflowed, loop}
use mints_riscv_cpu.Testbench.Loop.Runs.{loop-ne-unfinished}
use mints_riscv_cpu.Testbench.Loop.Liveness.{
  evaluated, finished-loop-ne-unfinished, finished-loop-ne-overflowed,
}
use mints_riscv_cpu.Testbench.Setup.{stop_options, create_whisper_reference}
use mints_riscv_cpu.Testbench.Environment.{Environment}
use mints_riscv_cpu.Testbench.Main.Exits.{
  exit_of-running, exit_of-undefined, run_lockstep-create, run_lockstep-refused, started_design,
  main-arguments,
}
use mints_riscv_cpu.Testbench.Main.{
  running, undefined, Arguments, positional_args, arguments, run_lockstep, main,
}

module _ (h : Hart) (g : Design) (test_mode : Bool) (env : Environment) (args : List Text)
    (cycles fuel : ℕ) (d : g.State) where
  -- `main` ends in the ways in which its loop does.
  run_lockstep-ne-running :
      ((w : h.State) → loop h g (stop_options args) cycles fuel 0 false d (initial w) ≢ unfinished)
      → run_lockstep h g test_mode env args cycles fuel d ≢ running
  run_lockstep-ne-running ends e = elim (Result-cases (create_whisper_reference h env)) [
    | inr (err, failed) ↦
        cc (sym (run_lockstep-refused h g test_mode env args cycles fuel d err failed) ∙ e)
    | inl (w, created) ↦ ends w (
        exit_of-running h g test_mode env args _
          (sym (run_lockstep-create h g test_mode env args cycles fuel d w created) ∙ e))
  ]

  run_lockstep-ne-undefined :
      ((w : h.State) → loop h g (stop_options args) cycles fuel 0 false d (initial w) ≢ overflowed)
      → run_lockstep h g test_mode env args cycles fuel d ≢ undefined
  run_lockstep-ne-undefined ends e = elim (Result-cases (create_whisper_reference h env)) [
    | inr (err, failed) ↦
        cc (sym (run_lockstep-refused h g test_mode env args cycles fuel d err failed) ∙ e)
    | inl (w, created) ↦ ends w (
        exit_of-undefined h g test_mode env args _
          (sym (run_lockstep-create h g test_mode env args cycles fuel d w created) ∙ e))
  ]

module _ (h : Hart) (g : Design) (test_mode : Bool) (absolute : Text → Option Text)
    (create : Environment → ℕ → g.State) (env : Environment) (args : List Text) (a : Arguments)
    (given : arguments absolute (positional_args args) ≡ some a) where
  abbrev pub loop_start : g.State
  loop_start = started_design h g test_mode absolute create env args a

  main-run_lockstep :
      (fuel : ℕ)
      → (main h g test_mode absolute create env args fuel).0
        ≡ run_lockstep h g test_mode env args a.cycles fuel loop_start
  main-run_lockstep fuel =
      ap (λ r. r.0) (main-arguments h g test_mode absolute create env args a fuel given)

  -- With accepted arguments and a cycle limit that is not 0, and below 2 ^ 62 or at least 2 ^ 63,
  -- two passes for each cycle and one more are enough for `main` to end, and the loop does not count
  -- past a `long long`.
  pub main-ne-running :
      a.cycles ≢ 0
      → (a.cycles < 2 ^ 62) ⊎ (2 ^ 63 ≤ a.cycles)
      → ((main h g test_mode absolute create env args (2 * a.cycles + 1)).0 ≢ running)
        × ((main h g test_mode absolute create env args (2 * a.cycles + 1)).0 ≢ undefined)
  main-ne-running limited counts =
      let ends = λ (w : h.State).
        loop-ne-unfinished h g (stop_options args) a.cycles false loop_start (initial w) limited
          counts in
      let same = main-run_lockstep (2 * a.cycles + 1) in
      (
        λ e.
            run_lockstep-ne-running h g test_mode env args a.cycles (2 * a.cycles + 1) loop_start
              (λ w. (ends w).0) (sym same ∙ e),
        λ e.
            run_lockstep-ne-undefined h g test_mode env args a.cycles (2 * a.cycles + 1) loop_start
              (λ w. (ends w).1) (sym same ∙ e),
      )

  -- With accepted arguments, if the design has finished after `n` evaluations behind its reset, `main`
  -- ends within `n` + 1 passes, also without a cycle limit, and the loop does not count past a
  -- `long long` unless `n` is 2 ^ 63 or more.
  pub main-finished :
      (n : ℕ)
      → g.finished (evaluated g n false loop_start) ≡ true
      → ((main h g test_mode absolute create env args (suc n)).0 ≢ running)
        × (((main h g test_mode absolute create env args (suc n)).0 ≢ undefined) ⊎ (2 ^ 63 ≤ n))
  main-finished n finished =
      let same = main-run_lockstep (suc n) in
      (
        λ e.
            run_lockstep-ne-running h g test_mode env args a.cycles (suc n) loop_start
              (λ w.
                finished-loop-ne-unfinished h g (stop_options args) a.cycles n 0 false loop_start
                  (initial w) finished)
              (sym same ∙ e),
        elim (Bool-cases (ltb n (2 ^ 63))) [
          | inr large ↦ inr (ground (arith, large))
          | inl few ↦ inl (λ e.
              run_lockstep-ne-undefined h g test_mode env args a.cycles (suc n) loop_start
                (λ w.
                  finished-loop-ne-overflowed h g (stop_options args) a.cycles n 0 false loop_start
                    (initial w) finished (ground (arith, few)))
                (sym same ∙ e))
        ],
      )
